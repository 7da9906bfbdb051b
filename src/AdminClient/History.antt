-- ===== src/AdminClient/History.antt =====
-- What the asynchronous client answers after any replies.
use govnilo.Prelude.{◌≡◌, refl, List, [], ◌∷◌, ◌++◌, Option, none, some, ◌⊎◌, inl, inr}
use govnilo.Proto.{Settings}
use govnilo.AdminClient.{not_known, refresh, refresh_all, get_config_async}

module _ {F E : Type 0} where
  refresh_all-snoc :
      (last : Option (Settings F)) (rs : List (E ⊎ Option (Settings F)))
      (r : E ⊎ Option (Settings F))
      → refresh_all last (rs ++ r ∷ []) ≡ refresh (refresh_all last rs) r
  unfolding refresh_all
  refresh_all-snoc last [] r = refl
  refresh_all-snoc last (q ∷ rs) r = refresh_all-snoc (refresh last q) rs r

  -- After any refreshes, the asynchronous client answers by the last one alone: with its settings if
  -- it brought some, and with an error if it failed, although earlier ones succeeded.
  pub get_config_async-refresh_all :
      (rs : List (E ⊎ Option (Settings F)))
      → (get_config_async {F = F} {E = E} (refresh_all {F = F} {E = E} none []) ≡ inl not_known)
        × ((s : Settings F)
            → get_config_async {F = F} {E = E} (refresh_all none (rs ++ inr (some s) ∷ []))
              ≡ inr (some s))
        × ((e : E)
            → get_config_async {F = F} {E = E} (refresh_all none (rs ++ inl e ∷ []))
              ≡ inl not_known)
  unfolding get_config_async refresh refresh_all
  get_config_async-refresh_all rs = (
    refl,
    (λ s. rw (refresh_all-snoc none rs (inr (some s))) refl),
    λ e. rw (refresh_all-snoc none rs (inl e)) refl,
  )
