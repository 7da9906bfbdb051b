-- ===== src/Hzlog/Filter.antt =====
-- Which records the handler lets through.
use govnilo.Prelude.{
  ◌≡◌, refl, ◌∙◌, string_eq, Bool, true, false, not, ◌&&◌, ◌||◌, if◌then◌else◌, List, [], ◌∷◌, ◌++◌,
  Option, none, some, String, arith,
}
use govnilo.Hzlog.Config.{LoggingConfig}
use govnilo.Hzlog.{
  Attr, Record, Inner, Handler, new_handler, handle, with_attrs, with_group, any_infra,
  get_component, infra_prefix, below,
}

pub any_infra-append : (xs ys : List Attr) → any_infra (xs ++ ys) ≡ (any_infra xs || any_infra ys)
unfolding any_infra
any_infra-append [] ys = refl
any_infra-append (x ∷ xs) ys = ground (arith, any_infra-append xs ys)

-- How loggers are derived from one another.
pub data Derivation : Type 0 where
  attrs : List Attr → Derivation
  group : String → Derivation

-- The component that was set last.
unfoldable pub last_component : List Derivation → Option String
last_component [] = none
last_component (attrs xs ∷ ds) = elim (last_component ds) [
  | some c ↦ some c
  | none ↦ get_component xs
]
last_component (group name ∷ ds) = last_component ds

abbrev pub is_infra : Bool → Option String → Bool
is_infra before none = before
is_infra before (some c) = infra_prefix c

is_infra-or :
    (before : Bool) (first last : Option String)
    → is_infra (elim first [ none ↦ before | some c ↦ infra_prefix c ]) last
      ≡ is_infra before (elim last [ some c ↦ some c | none ↦ first ])
is_infra-or before none none = refl
is_infra-or before (some c) none = refl
is_infra-or before none (some d) = refl
is_infra-or before (some c) (some d) = refl

passed-or :
    {A : Type 0} (a b c enabled low : Bool) (x y : A)
    → (if ((a || b) || c) && not enabled then x else if ((a || b) || c) && low then x else y)
      ≡ (if (a || (b || c)) && not (enabled && not low) then x else y)
passed-or true b c true true x y = refl
passed-or true b c true false x y = refl
passed-or true b c false low x y = refl
passed-or false true c true true x y = refl
passed-or false true c true false x y = refl
passed-or false true c false low x y = refl
passed-or false false true true true x y = refl
passed-or false false true true false x y = refl
passed-or false false true false low x y = refl
passed-or false false false enabled low x y = refl

module _ {H : Type 0} (inner : Inner H) where
  unfoldable pub derive : List Derivation → Handler H → Handler H
  unfolding with_attrs with_group
  derive [] h = h
  derive (attrs xs ∷ ds) h = derive ds (with_attrs inner xs h)
  derive (group name ∷ ds) h = derive ds (with_group inner name h)

  pub derive-component :
      (ds : List Derivation) (h : Handler H)
      → ((derive ds h).has_infra_component ≡ is_infra h.has_infra_component (last_component ds))
        × ((derive ds h).filter ≡ h.filter)
  unfolding derive last_component with_attrs
  derive-component [] h = (refl, refl)
  derive-component (group name ∷ ds) h = derive-component ds (with_group inner name h)
  derive-component (attrs xs ∷ ds) h =
      let (component, filter) = derive-component ds (with_attrs inner xs h) in
      (component ∙ is_infra-or h.has_infra_component (get_component xs) (last_component ds), filter)

  -- A logger derived in any way passes a record on, with the attributes of the context added, unless
  -- it belongs to the infrastructure and such records are off or its level is too low; and it belongs
  -- to the infrastructure if the component that was set last does, or a component among the
  -- attributes of the record or of the context.
  pub handle-derive :
      (c : LoggingConfig) (base : H) (ds : List Derivation) (ctx : List Attr) (r : Record)
      → let infra = is_infra false (last_component ds) || any_infra (r.attrs ++ ctx) in
        handle (derive ds (new_handler c base)) ctx r ≡ (
          if infra && not (c.infra.enabled && not (below r.level c.infra.level))
          then none
          else some (record r { attrs = r.attrs ++ ctx }))
  unfolding handle
  handle-derive c base ds ctx r =
      let (component, filter) = derive-component ds (new_handler c base) in
      rw (component, filter, any_infra-append r.attrs ctx)
        (passed-or (is_infra false (last_component ds)) (any_infra r.attrs) (any_infra ctx)
          (c.infra.enabled) (below r.level c.infra.level) none
          (some (record r { attrs = r.attrs ++ ctx })))
