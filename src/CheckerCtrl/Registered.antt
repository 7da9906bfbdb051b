-- ===== src/CheckerCtrl/Registered.antt =====
-- What a controller that `New` returns is like.
use govnilo.Prelude.{
  ◌==◌, ◌≡◌, refl, sym, ap, ◌∙◌, ◌≢◌, string_eq, List, [], ◌∷◌, All, All-mono, Option, none, some,
  String, lookup, insert, lookup-insert, lookup-insert_self, Outcome, ok, err, panic, arith, inl,
  inr, Bool-cases, Option-cases,
}
use govnilo.Floats.{Floats}
use govnilo.RateLimit.{RateLibrary}
use govnilo.RateRunner
use govnilo.RateRunner.{
  already_registered, register, RateRunner, TaskSpec, register, new_rate_runner, new_spec,
  chosen_id,
}
use govnilo.RateRunner.Register.{
  KeysAgree, register-free, register-taken, insert-agrees, new_rate_runner-KeysAgree,
}
use govnilo.CheckerCtrl.{Controller}
use govnilo.CheckerCtrl.Helpers.{CheckerId, checker_id_eq}
use govnilo.CheckerCtrl.Registration.{
  task_id, among, keep_handle, add_checker, add_checkers, new_controller,
}
use govnilo.CheckerCtrl.Sync.{IsHandled, DistinctHandles}

pub insert-insert :
    (id : CheckerId) (u v : Option String) (m : List (CheckerId × Option String))
    → insert id v (insert id u m) ≡ insert id v m
unfolding insert
insert-insert id u v [] = ground (arith, checker_id_eq.beq_iff id id)
insert-insert id u v ((j, w) ∷ m) =
    ground (arith, checker_id_eq.beq_iff id id, checker_id_eq.beq_iff j id, insert-insert id u v m)

insert-All :
    (P : CheckerId × Option String → Type 0) (id : CheckerId) (v : Option String)
    (m : List (CheckerId × Option String))
    → P (id, v)
    → All P m
    → All P (insert id v m)
unfolding insert
insert-All P id v [] new old = (new, tt)
insert-All P id v ((j, w) ∷ m) new old = elim (Bool-cases (j == id)) [
  | inl same ↦ rw (same, insert) (new, old.1)
  | inr other ↦ rw (other, insert) (old.0, insert-All P id v m new old.1)
]

insert-DistinctHandles :
    (id : CheckerId) (v : Option String) (m : List (CheckerId × Option String))
    → All (λ c. c.1 ≢ v) m
    → DistinctHandles m
    → DistinctHandles (insert id v m)
unfolding insert
insert-DistinctHandles id v [] new old = (tt, tt)
insert-DistinctHandles id v ((j, w) ∷ m) new old = elim (Bool-cases (j == id)) [
  | inl same ↦
      rw (same, insert) (All-mono (λ c. c.1 ≢ v) (λ c. v ≢ c.1) m (λ c n e. n (sym e)) new.1, old.1)
  | inr other ↦
      rw (other, insert)
        (insert-All (λ c. w ≢ c.1) id v m new.0 old.0, insert-DistinctHandles id v m new.1 old.1)
]

module _ {fl : Floats} {lib : RateLibrary fl} (p : fl.F) where
  -- Every handle is that of a task, no two are the same, and the runners know the same tasks.
  pub record IsRegistered (c : Controller fl lib) : Type 0 where
    pub agree : KeysAgree c.rr
    pub handled : All (λ x. IsHandled c.rr (x.1)) c.checkers
    pub distinct : DistinctHandles c.checkers

  -- Whether `New` succeeds with a controller that is as it should be.
  abbrev pub Keeps : Outcome RateRunner.Error (Controller fl lib) → Type 0
  Keeps (ok c) = IsRegistered c
  Keeps (err _) = Unit
  Keeps panic = Unit

  later-IsHandled :
      (r r' : RateRunner fl lib) (handle : String) (t : TaskSpec fl lib) (other : Option String)
      → r'.tasks ≡ insert handle t r.tasks
      → IsHandled r other
      → IsHandled r' other
  later-IsHandled r r' handle t none e h = h
  later-IsHandled r r' handle t (some k) e h = elim (Bool-cases (handle == k)) [
    | inl same ↦ λ gone. ground (arith, lookup-insert handle k t r.tasks, same, e, gone)
    | inr apart ↦ λ gone. ground (arith, lookup-insert handle k t r.tasks, apart, e, gone, h)
  ]

  free_handle :
      (r : RateRunner fl lib) (handle : String) (other : Option String)
      → lookup handle r.tasks ≡ none
      → IsHandled r other
      → other ≢ some handle
  free_handle r handle none free h e = h
  free_handle r handle (some k) free h e =
      let it : k ≡ handle = cc e in h (ap (λ x. lookup x r.tasks) it ∙ free)

  checked_in-IsRegistered :
      (c : Controller fl lib) (id : CheckerId) (r' : RateRunner fl lib) (handle : String)
      (t : TaskSpec fl lib)
      → IsRegistered c
      → lookup handle c.rr.tasks ≡ none
      → r'.tasks ≡ insert handle t c.rr.tasks
      → KeysAgree r'
      → IsRegistered
          (record c { rr = r'; checkers = insert id (some handle) (insert id none c.checkers) })
  checked_in-IsRegistered c id r' handle t good free added agree =
      let there : lookup handle r'.tasks ≢ none =
        λ gone. ground (arith, lookup-insert_self handle t c.rr.tasks, added, gone) in
      record {
        agree = agree;
        handled = rw (insert-insert id none (some handle) c.checkers) (
            insert-All (λ x. IsHandled r' (x.1)) id (some handle) c.checkers there
              (All-mono (λ x. IsHandled c.rr (x.1)) (λ x. IsHandled r' (x.1)) c.checkers
                (λ x. later-IsHandled c.rr r' handle t (x.1) added) good.handled));
        distinct = rw (insert-insert id none (some handle) c.checkers) (
            insert-DistinctHandles id (some handle) c.checkers
              (All-mono (λ x. IsHandled c.rr (x.1)) (λ x. x.1 ≢ some handle) c.checkers
                (λ x. free_handle c.rr handle (x.1) free) good.handled)
              good.distinct);
      }

  keep_handle-Keeps :
      (c : Controller fl lib) (id : CheckerId)
      (reg : RateRunner fl lib × Outcome RateRunner.Error (TaskSpec fl lib))
      (r' : RateRunner fl lib) (t : TaskSpec fl lib)
      → reg ≡ (r', ok t)
      → IsRegistered (record c { rr = r'; checkers = insert id (some t.id) c.checkers })
      → Keeps (keep_handle fl lib p c id reg)
  unfolding keep_handle
  keep_handle-Keeps c id (r, ok u) r' t e good =
      let one : r ≡ r' = ap (λ x. x.0) e in
      let both : ok u ≡ ok t = ap (λ x. x.1) e in let two : u ≡ t = cc both in rw (one, two) good
  keep_handle-Keeps c id (r, err x) r' t e good = tt
  keep_handle-Keeps c id (r, panic) r' t e good = tt

  pub add_checker-Keeps :
      (metered : List CheckerId) (c : Controller fl lib) (id : CheckerId)
      → IsRegistered c
      → Keeps (add_checker fl lib p metered c id)
  unfolding add_checker chosen_id keep_handle new_spec
  add_checker-Keeps metered c id good = elim (Bool-cases (among id metered)) [
    | inl again ↦ rw (again, add_checker) tt
    | inr once ↦ elim (Option-cases (lookup (task_id id) c.rr.tasks)) [
      | inr (t, taken) ↦
          rw (once, add_checker, register-taken p c.rr (some (task_id id)) taken, keep_handle) tt
      | inl free ↦
          rw (once, add_checker)
            (keep_handle-Keeps (record c { checkers = insert id none c.checkers }) id
              (register fl lib p c.rr (some (task_id id))) _ (new_spec fl lib p (task_id id))
              (register-free p c.rr (some (task_id id)) good.agree free)
              (checked_in-IsRegistered c id _ (task_id id) (new_spec fl lib p (task_id id)) good
                free refl
                (insert-agrees p c.rr none (task_id id) (new_spec fl lib p (task_id id))
                  good.agree)))
    ]
  ]

  add_checkers-Keeps :
      (metered : List CheckerId) (c : Controller fl lib) (ids : List CheckerId)
      → IsRegistered c
      → Keeps (add_checkers fl lib p metered c ids)
  unfolding add_checkers
  add_checkers-Keeps metered c [] good = good
  add_checkers-Keeps metered c (id ∷ ids) good =
      go (add_checker fl lib p metered c id) refl (add_checker-Keeps metered c id good)
        (λ c'. add_checkers-Keeps (id ∷ metered) c' ids)
    where
      go :
          (o : Outcome RateRunner.Error (Controller fl lib))
          → add_checker fl lib p metered c id ≡ o
          → Keeps o
          → ((c' : Controller fl lib)
              → IsRegistered c'
              → Keeps (add_checkers fl lib p (id ∷ metered) c' ids))
          → Keeps (add_checkers fl lib p metered c (id ∷ ids))
      go (ok c') e kept rest = rw (e, add_checkers) (rest c' kept)
      go (err _) e kept rest = rw (e, add_checkers) tt
      go panic e kept rest = rw (e, add_checkers) tt

  transport_kept :
      {c : Controller fl lib} (o : Outcome RateRunner.Error (Controller fl lib))
      → o ≡ ok c
      → Keeps o
      → IsRegistered c
  transport_kept {c} (ok c') e kept = let it : c' ≡ c = cc e in rw (← it) kept
  transport_kept (err x) e kept = ground arith
  transport_kept panic e kept = ground arith

  -- In every controller that `New` returns each checker has a handle to a task, no two checkers have
  -- the same one, and the rate runner and its task runner know the same tasks.
  pub new_controller-IsRegistered :
      (metered ids : List CheckerId) (c : Controller fl lib)
      → new_controller fl lib p metered ids ≡ ok c
      → IsRegistered c
  unfolding new_controller new_rate_runner
  new_controller-IsRegistered metered ids c made =
      let start : Controller fl lib = record {
        checkers = [];
        current_settings = none;
        rr = new_rate_runner fl lib;
      } in
      let fine : IsRegistered start = record {
        agree = new_rate_runner-KeysAgree fl lib;
        handled = tt;
        distinct = tt;
      } in
      transport_kept (new_controller fl lib p metered ids) made
        (add_checkers-Keeps metered start ids fine)
