-- ===== src/Examples/Logs.antt =====
-- Loggers and the registration of checkers at concrete inputs.
use govnilo.Prelude.{
  ℕ, ◌+◌, ◌≡◌, refl, negsuc, true, false, not, ◌&&◌, ◌||◌, if◌then◌else◌, ◌++◌, List, [], ◌∷◌, none,
  some, String,
}
use govnilo.Hzlog.Config.{default_logging}
use govnilo.Hzlog.{
  Attr, Record, Inner, Handler, text, new_handler, handle, any_infra, below, has_prefix, with_attrs,
  get_component,
}
use govnilo.Hzlog.Filter.{Derivation, attrs, group, derive, last_component, is_infra, handle-derive}
use govnilo.HazyCheck.{Out, Arg, Constructor, Registry}
use govnilo.HazyCheck.Registered.{
  register_all, register_all_lem, fitting_ids, wrapped, extended, fitting_outs,
}

-- The handler behind counts the groups that it is in.
abbrev depth : Inner ℕ
depth = record { with_attrs = λ attrs h. h; with_group = λ name h. h + 1 }

abbrev component : String → Attr
component name = record { key = "component"; value = text name }

-- A logger of the rate runner, in a group.
abbrev derivations : List Derivation
derivations = attrs (component "infra:rate-runner" ∷ []) ∷ group "g" ∷ []

-- Below the level of the infrastructure.
abbrev quiet : Record
quiet = record { level = negsuc 7; attrs = [] }

dropped : handle (derive depth derivations (new_handler default_logging 0)) [] quiet ≡ none
unfolding handle derive with_attrs get_component any_infra below has_prefix
dropped = refl

handle-derive_example :
    let infra = is_infra false (last_component derivations) || any_infra (quiet.attrs ++ []) in
    handle (derive depth derivations (new_handler default_logging 0)) [] quiet ≡ (
      if infra && not (true && not (below (negsuc 7) (negsuc 3)))
      then none
      else some (record quiet { attrs = quiet.attrs ++ [] }))
handle-derive_example = handle-derive depth default_logging 0 derivations [] quiet

abbrev checker_out : Out
checker_out = record {
  is_error = false;
  is_checker = true;
  zero_id = some (record { service = "shop"; name = "put" });
}

-- It returns how many arguments it got.
abbrev count_args : List (Arg (Handler ℕ) ℕ) → ℕ
count_args [] = 0
count_args (a ∷ args) = count_args args + 1

abbrev constructor : Constructor (Handler ℕ) ℕ ℕ
constructor = record { is_func = true; outs = checker_out ∷ []; call = count_args }

abbrev broken : Constructor (Handler ℕ) ℕ ℕ
broken = record constructor { outs = checker_out ∷ checker_out ∷ [] }

abbrev registry : Registry (Handler ℕ) ℕ ℕ
registry = record { registered_checkers = []; constructors = [] }

fits : fitting_ids (constructor ∷ []) ≡ some (record { service = "shop"; name = "put" } ∷ [])
unfolding fitting_ids fitting_outs
fits = refl

no_fit : fitting_ids (constructor ∷ broken ∷ []) ≡ none
unfolding fitting_ids fitting_outs
no_fit = refl

register_all_lem_example :
    register_all depth registry (constructor ∷ constructor ∷ [])
    ≡ extended registry
        (wrapped depth (constructor ∷ constructor ∷ []))
        (fitting_ids (constructor ∷ constructor ∷ []))
register_all_lem_example = register_all_lem depth (constructor ∷ constructor ∷ []) registry
