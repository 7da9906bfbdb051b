-- ===== src/HazyCheck/Commands.antt =====
-- The commands `list-checkers` and `check` (internal/cmd/cmd). What dependency injection gives is an
-- argument, and so is the time that a check takes.
use govnilo.Prelude.{
  ◌==◌, ◌≡◌, refl, sym, ◌∙◌, string_eq, Bool, true, false, not, ◌&&◌, ◌||◌, if◌then◌else◌, List, [],
  ◌∷◌, ◌++◌, Option, none, some, String, ◌⊎◌, inl, inr, lookup, insert, lookup-insert, Bool-cases,
}
use mathlib.Core.List.{append-nil, append_assoc}
use govnilo.CheckerCtrl.Helpers.{CheckerId, checker_id_eq}

abbrev pub names_or_empty : Option (List String) → List String
names_or_empty none = []
names_or_empty (some names) = names

-- `list-checkers`: the loop over the registered ids, which fills the map that is printed.
unfoldable pub checkers_into :
    List CheckerId → List (String × List String) → List (String × List String)
checkers_into [] m = m
checkers_into (id ∷ ids) m =
    checkers_into ids (insert id.service (names_or_empty (lookup id.service m) ++ (id.name ∷ [])) m)

unfoldable pub service_checkers : List CheckerId → List (String × List String)
unfolding checkers_into
service_checkers ids = checkers_into ids []

pub record Checker (E : Type 0) : Type 0 where
  pub id : CheckerId
  pub check : String → Option E

pub record Report (D : Type 0) : Type 0 where
  pub service : String
  pub checker : String
  pub target : String
  pub duration : D

pub data Error (E : Type 0) : Type 0 where
  cannot_build : E → Error E
  not_registered : Error E
  failed : E → Error E

-- `lo.Find`
unfoldable pub find : {E : Type 0} → CheckerId → List (Checker E) → Option (Checker E)
find id [] = none
find id (c ∷ cs) = if c.id == id then some c else find id cs

module _ {E D : Type 0} where
  unfoldable pub report_of : CheckerId → String → D → Option E → Error E ⊎ Report D
  report_of id target duration none =
      inr (record { service = id.service; checker = id.name; target = target; duration = duration })
  report_of id target duration (some e) = inl (failed e)

  unfoldable pub run_found : CheckerId → String → D → Option (Checker E) → Error E ⊎ Report D
  unfolding report_of
  run_found id target duration none = inl not_registered
  run_found id target duration (some c) = report_of id target duration (c.check target)

  -- `check`: by what starting the application gives.
  unfoldable pub run_check : E ⊎ List (Checker E) → CheckerId → String → D → Error E ⊎ Report D
  unfolding run_found find
  run_check (inl e) id target duration = inl (cannot_build e)
  run_check (inr cs) id target duration = run_found id target duration (find id cs)

abbrev pub ids_of : {E : Type 0} → List (Checker E) → List CheckerId
ids_of [] = []
ids_of (c ∷ cs) = c.id ∷ ids_of cs

-- The names of the checkers of a service, in order.
unfoldable pub names_of : String → List CheckerId → List String
names_of service [] = []
names_of service (id ∷ ids) =
    let rest = names_of service ids in if id.service == service then id.name ∷ rest else rest

unfoldable pub is_listed : String → List String → Bool
is_listed name [] = false
is_listed name (n ∷ names) = n == name || is_listed name names

abbrev is_found : {E : Type 0} → Option (Checker E) → Bool
is_found none = false
is_found (some c) = true

found_or :
    {E : Type 0} (b : Bool) (c : Checker E) (found : Option (Checker E))
    → (b || is_found found) ≡ is_found (if b then some c else found)
found_or true c found = refl
found_or false c found = refl

listed_step :
    {E : Type 0} (a : Bool) (n name : String) (rest : List String) (c : Checker E)
    (found : Option (Checker E))
    → is_listed name rest ≡ is_found found
    → is_listed name (if a then n ∷ rest else rest)
      ≡ is_found (if a && n == name then some c else found)
unfolding is_listed
listed_step true n name rest c found ih = rw (is_listed, ih) (found_or (n == name) c found)
listed_step false n name rest c found ih = ih

checkers_into_lem :
    (service : String) (ids : List CheckerId) (m : List (String × List String))
    → names_or_empty (lookup service (checkers_into ids m))
      ≡ names_or_empty (lookup service m) ++ names_of service ids
unfolding checkers_into names_of
checkers_into_lem service [] m = sym (append-nil _)
checkers_into_lem service (id ∷ ids) m =
    checkers_into_lem service ids _ ∙ elim (Bool-cases (id.service == service)) [
      | inl same ↦
          let there : id.service ≡ service = (string_eq.beq_iff id.service service).0 same in
          rw
            (
              lookup-insert id.service service
                  (names_or_empty (lookup id.service m) ++ (id.name ∷ [])) m,
              same,
              there,
            )
            (append_assoc _ (id.name ∷ []) _)
      | inr apart ↦
          rw
            (
              lookup-insert id.service service
                  (names_or_empty (lookup id.service m) ++ (id.name ∷ [])) m,
              apart,
            )
            refl
    ]

is_listed-names_of :
    {E : Type 0} (id : CheckerId) (cs : List (Checker E))
    → is_listed id.name (names_of id.service (ids_of cs)) ≡ is_found (find id cs)
unfolding is_listed names_of find
is_listed-names_of id [] = refl
is_listed-names_of id (c ∷ cs) =
    listed_step (c.id.service == id.service) c.id.name id.name (names_of id.service (ids_of cs)) c
      (find id cs) (is_listed-names_of id cs)

abbrev pub is_not_registered : {E D : Type 0} → Error E ⊎ Report D → Bool
is_not_registered (inl not_registered) = true
is_not_registered (inl (cannot_build e)) = false
is_not_registered (inl (failed e)) = false
is_not_registered (inr r) = false

run_found_lem :
    {E D : Type 0} (id : CheckerId) (target : String) (duration : D) (found : Option (Checker E))
    → is_not_registered (run_found id target duration found) ≡ not (is_found found)
unfolding run_found
run_found_lem id target duration none = refl
run_found_lem id target duration (some c) =
    elim (c.check target) as (λ x. is_not_registered (report_of id target duration x) ≡ false) [
      | none ↦ refl
      | some e ↦ refl
    ]

-- `list-checkers` shows under every service the names of its checkers, in the order in which they
-- were registered.
lookup-service_checkers :
    (service : String) (ids : List CheckerId)
    → names_or_empty (lookup service (service_checkers ids)) ≡ names_of service ids
unfolding service_checkers names_of lookup
lookup-service_checkers service ids = checkers_into_lem service ids []

-- Once the application has started, `check` says that a checker is not registered exactly if
-- `list-checkers` does not show its name under its service.
run_check-service_checkers :
    {E D : Type 0} (cs : List (Checker E)) (id : CheckerId) (target : String) (duration : D)
    → is_not_registered (run_check (inr cs) id target duration)
      ≡ not (is_listed id.name (names_or_empty (lookup id.service (service_checkers (ids_of cs)))))
unfolding run_check
run_check-service_checkers cs id target duration =
    rw (lookup-service_checkers id.service (ids_of cs), is_listed-names_of id cs)
      (run_found_lem id target duration (find id cs))
