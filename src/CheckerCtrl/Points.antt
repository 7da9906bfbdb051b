-- ===== src/CheckerCtrl/Points.antt =====
-- internal/checkerctrl/proto_helpers.go: the points of a service's checkers, scaled to one total.
-- The function changes the messages in place; here it returns the changed ones. Two services are two
-- messages, so the map's entry for a name is the last service of that name.
use govnilo.Prelude.{
  ℕ, ◌==◌, string_eq, Bool, false, ◌||◌, if◌then◌else◌, List, [], ◌∷◌, Option, none, some, String,
}
use govnilo.Floats.{Floats}
use govnilo.RateLimit.{RateLibrary}
use govnilo.Proto.{Settings, ServiceSettings, CheckerSettings, Rate}

abbrev pub target_points_per_second : ℕ
target_points_per_second = 1000

module _ (fl : Floats) (lib : RateLibrary fl) where
  open fl use {F, of_ℕ, add, mul, div, is_zero}

  per_second_of : Option Rate → Option F
  per_second_of none = none
  per_second_of (some r) = elim r.per [
    | none ↦ none
    | some d ↦ some (div (of_ℕ r.times) (lib.seconds d))
  ]

  -- How often a checker runs in a second, if its options say.
  unfoldable pub per_second : CheckerSettings F → Option F
  unfolding per_second_of
  per_second c = elim c.run_options [ none ↦ none | some o ↦ per_second_of o.rate ]

  add_weighted : Option F → CheckerSettings F → F × F → F × F
  add_weighted none c sums = sums
  add_weighted (some n) c (points, penalty) =
      (add points (mul c.success_points n), add penalty (mul c.fail_penalty n))

  -- The first loop, over the two sums.
  unfoldable pub sum_points : List (Option (CheckerSettings F)) → F × F → F × F
  unfolding per_second add_weighted
  sum_points [] sums = sums
  sum_points (none ∷ cs) sums = sum_points cs sums
  sum_points (some c ∷ cs) sums = sum_points cs (add_weighted (per_second c) c sums)

  unfoldable pub coefficient : F → F → F
  coefficient target sum = if is_zero sum then of_ℕ 0 else div target sum

  unfoldable pub scale_checker : F → F → CheckerSettings F → CheckerSettings F
  scale_checker points penalty c = record c {
    success_points = mul c.success_points points;
    fail_penalty = mul c.fail_penalty penalty;
  }

  -- The second loop.
  unfoldable pub scale_points :
      F → F → List (Option (CheckerSettings F)) → List (Option (CheckerSettings F))
  unfolding scale_checker
  scale_points points penalty [] = []
  scale_points points penalty (none ∷ cs) = none ∷ scale_points points penalty cs
  scale_points points penalty (some c ∷ cs) =
      some (scale_checker points penalty c) ∷ scale_points points penalty cs

  unfoldable pub normalize_in_service : ServiceSettings F → F → ServiceSettings F
  unfolding sum_points coefficient scale_points
  normalize_in_service svc target =
      let (points, penalty) = sum_points svc.checkers (of_ℕ 0, of_ℕ 0) in
      record svc {
        checkers =
            scale_points (coefficient target points) (coefficient target penalty) svc.checkers;
      }

  unfoldable pub named : String → List (Option (ServiceSettings F)) → Bool
  named name [] = false
  named name (none ∷ ss) = named name ss
  named name (some s ∷ ss) = s.name == name || named name ss

  -- The loop over the service map.
  unfoldable pub normalize_services :
      List (Option (ServiceSettings F)) → List (Option (ServiceSettings F))
  unfolding named normalize_in_service
  normalize_services [] = []
  normalize_services (none ∷ ss) = none ∷ normalize_services ss
  normalize_services (some s ∷ ss) =
      some (if named s.name ss then s else normalize_in_service s (of_ℕ target_points_per_second))
      ∷ normalize_services ss

  unfoldable pub normalize_points : Settings F → Settings F
  unfolding normalize_services
  normalize_points settings = record settings { services = normalize_services settings.services }
