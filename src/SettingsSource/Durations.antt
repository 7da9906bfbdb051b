-- ===== src/SettingsSource/Durations.antt =====
-- What the rewriting of durations leaves alone.
use govnilo.Prelude.{◌==◌, ◌≡◌, refl, ap, ◌∙◌, string_eq, if◌then◌else◌, inl, inr, Bool-cases}
use govnilo.Floats.{Floats}
use govnilo.SettingsSource.{
  convert_per, normalize_durations, normalize_fields, normalize_items, convert_duration_string,
}
use govnilo.SettingsSource.Text.{
  Clock, Value, Fields, Items, other, text, mapping, sequence, end, field, last, item,
}

module _ {J : Type 0} where
  -- A value without the strings at its keys "per"; nothing below such a key is touched.
  abbrev pub without_text : Value J → Value J
  without_text (text s) = text ""
  without_text (other x) = other x
  without_text (mapping fs) = mapping fs
  without_text (sequence is) = sequence is

  unfoldable mutual
    pub without_periods : Value J → Value J
    without_periods (other x) = other x
    without_periods (text s) = text s
    without_periods (mapping fs) = mapping (fields_without fs)
    without_periods (sequence is) = sequence (items_without is)

    pub fields_without : Fields J → Fields J
    fields_without end = end
    fields_without (field key v fs) =
        let nested = without_periods v in
        field key (if key == "per" then without_text v else nested) (fields_without fs)

    pub items_without : Items J → Items J
    items_without last = last
    items_without (item v is) = item (without_periods v) (items_without is)

module _ {fl : Floats} (clock : Clock fl) {J : Type 0} where
  without_text-convert_per : (v : Value J) → without_text (convert_per clock v) ≡ without_text v
  unfolding convert_per
  without_text-convert_per (other x) = refl
  without_text-convert_per (text s) = elim (Bool-cases (convert_duration_string clock s == "")) [
    | inl bad ↦ rw bad refl
    | inr good ↦ rw good refl
  ]
  without_text-convert_per (mapping fs) = refl
  without_text-convert_per (sequence is) = refl

  mutual
    unfolding normalize_durations without_periods

    value_normalized :
        (v : Value J) → without_periods (normalize_durations clock v) ≡ without_periods v
    value_normalized (other x) = refl
    value_normalized (text s) = refl
    value_normalized (mapping fs) = ap mapping (fields_normalized fs)
    value_normalized (sequence is) = ap sequence (items_normalized is)

    fields_normalized :
        (fs : Fields J) → fields_without (normalize_fields clock fs) ≡ fields_without fs
    fields_normalized end = refl
    fields_normalized (field key v fs) =
        let here = without_text-convert_per v in
        let below = value_normalized v in
        let rest = fields_normalized fs in
        elim (Bool-cases (key == "per")) [
          | inl per ↦ rw per (
              ap (λ x. field key x (fields_without (normalize_fields clock fs))) here
              ∙ ap (field key (without_text v)) rest)
          | inr not_per ↦ rw not_per (
              ap (λ x. field key x (fields_without (normalize_fields clock fs))) below
              ∙ ap (field key (without_periods v)) rest)
        ]

    items_normalized : (is : Items J) → items_without (normalize_items clock is) ≡ items_without is
    items_normalized last = refl
    items_normalized (item v is) =
        let here = value_normalized v in
        let rest = items_normalized is in
        ap (λ x. item x (items_without (normalize_items clock is))) here
        ∙ ap (item (without_periods v)) rest

  -- The rewriting of durations changes nothing of a YAML value but strings at keys "per".
  pub without_periods-normalize_durations :
      (v : Value J) → without_periods (normalize_durations clock v) ≡ without_periods v
  without_periods-normalize_durations v = value_normalized v
