-- ===== src/CheckerCtrl/Collision.antt =====
-- Two checkers with one task id.
use govnilo.Prelude.{
  beq_ne, false, ◌≡◌, refl, sym, ap, ◌∙◌, ◌≢◌, string_eq, List, [], ◌∷◌, none, some, lookup, insert,
  lookup-insert_self, ok, err, arith,
}
use govnilo.Floats.{Floats}
use govnilo.RateLimit.{RateLibrary}
use govnilo.RateRunner
use govnilo.RateRunner.{
  already_registered, register, RateRunner, TaskSpec, register, new_rate_runner, new_spec,
  chosen_id,
}
use govnilo.RateRunner.Register.{
  KeysAgree, register-free, register-taken, new_rate_runner-KeysAgree,
}
use govnilo.CheckerCtrl.{Controller}
use govnilo.CheckerCtrl.Helpers.{CheckerId, checker_id_eq}
use govnilo.CheckerCtrl.Registration.{
  task_id, among, keep_handle, add_checker, add_checkers, new_controller,
}

module _ {fl : Floats} {lib : RateLibrary fl} (p : fl.F) where
  add_checker_free :
      (metered : List CheckerId) (c : Controller fl lib) (id : CheckerId)
      → among id metered ≡ false
      → KeysAgree c.rr
      → lookup (task_id id) c.rr.tasks ≡ none
      → (c' : Controller fl lib) × (add_checker fl lib p metered c id ≡ ok c')
        × (c'.rr.tasks ≡ insert (task_id id) (new_spec fl lib p (task_id id)) c.rr.tasks)
  unfolding add_checker keep_handle chosen_id new_spec
  add_checker_free metered c id once agree free =
      let k = task_id id in
      let r' : RateRunner fl lib = record (c.rr) {
        tasks = insert k (new_spec fl lib p k) c.rr.tasks;
        tr = record (c.rr.tr) {
          tasks = insert k k c.rr.tr.tasks;
          states = insert k [] c.rr.tr.states;
        };
      } in
      let c' : Controller fl lib = record c {
        rr = r';
        checkers = insert id (some k) (insert id none c.checkers);
      } in
      (
        c',
        rw (once, add_checker)
            (ap (keep_handle fl lib p (record c { checkers = insert id none c.checkers }) id)
              (register-free p c.rr (some k) agree free)),
        refl,
      )

  add_checker_taken :
      (metered : List CheckerId) (c : Controller fl lib) (id : CheckerId) {t : TaskSpec fl lib}
      → among id metered ≡ false
      → lookup (task_id id) c.rr.tasks ≡ some t
      → add_checker fl lib p metered c id ≡ err (already_registered (task_id id))
  unfolding add_checker keep_handle chosen_id
  add_checker_taken metered c id once taken =
      rw (once, add_checker)
        (ap (keep_handle fl lib p (record c { checkers = insert id none c.checkers }) id)
          (register-taken p c.rr (some (task_id id)) taken))

  add_checkers_two :
      (metered : List CheckerId) (c c' : Controller fl lib) (a b : CheckerId) (e : RateRunner.Error)
      → add_checker fl lib p metered c a ≡ ok c'
      → add_checker fl lib p (a ∷ metered) c' b ≡ err e
      → add_checkers fl lib p metered c (a ∷ b ∷ []) ≡ err e
  unfolding add_checkers
  add_checkers_two metered c c' a b e first second =
      rw (first, add_checkers) (rw (second, add_checkers) refl)

  -- `New` fails for two checkers that are different but have one task id.
  pub new_controller_collision :
      (a b : CheckerId)
      → a ≢ b
      → task_id a ≡ task_id b
      → new_controller fl lib p [] (a ∷ b ∷ []) ≡ err (already_registered (task_id b))
  unfolding new_controller new_rate_runner lookup
  new_controller_collision a b apart shared =
      let start : Controller fl lib = record {
        checkers = [];
        current_settings = none;
        rr = new_rate_runner fl lib;
      } in
      let (c, added, tasks) =
        add_checker_free [] start a refl (new_rate_runner-KeysAgree fl lib) refl in
      let spec = new_spec fl lib p (task_id a) in
      let taken : lookup (task_id b) c.rr.tasks ≡ some spec =
        ap (lookup (task_id b)) tasks
        ∙ ap (λ k. lookup k (insert (task_id a) spec [])) (sym shared)
        ∙ lookup-insert_self (task_id a) spec [] in
      add_checkers_two [] start c a b (already_registered (task_id b)) added
        (add_checker_taken (a ∷ []) c b (ground (arith, beq_ne a b apart)) taken)
