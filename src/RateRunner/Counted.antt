-- ===== src/RateRunner/Counted.antt =====
-- A rate runner whose counts are those of its task runner.
use govnilo.Prelude.{
  ◌≡◌, refl, ◌∙◌, nat_eq, int_eq, string_eq, [], Option, some, String, inl, inr, lookup, insert,
  lookup-insert_self, lookup-insert_ne, lookup-insert_cases, lookup-insert_known, arith,
  Option-cases,
}
use govnilo.Floats.{Floats}
use govnilo.RateLimit.{RateLibrary}
use govnilo.RateRunner.{RateRunner, TaskSpec, register, new_spec, chosen_id, new_rate_runner}
use govnilo.RateRunner.Adjust.{Runs}
use govnilo.RateRunner.Register.{
  KeysAgree, register-taken, register-free, insert-agrees, new_rate_runner-KeysAgree,
}

module _ {fl : Floats} {lib : RateLibrary fl} where
  pub record IsCounted (r : RateRunner fl lib) : Type 0 where
    pub agree : KeysAgree r
    pub each :
        (name : String) (t : TaskSpec fl lib)
        → lookup name r.tasks ≡ some t
        → (t.id ≡ name) × Runs r.tr name t.current_instances

  pub written-IsCounted :
      (r : RateRunner fl lib) (k : String) (t t' : TaskSpec fl lib)
      → lookup k r.tasks ≡ some t
      → t'.id ≡ t.id
      → t'.current_instances ≡ t.current_instances
      → IsCounted r
      → IsCounted (record r { tasks = insert k t' r.tasks })
  written-IsCounted r k t t' stored id count good = record {
    agree = λ name. (
      (λ h. (good.agree name).0 ((lookup-insert_known k name t' t r.tasks stored).0 h)),
      λ h. (lookup-insert_known k name t' t r.tasks stored).1 ((good.agree name).1 h),
    );
    each = λ name s h. elim (lookup-insert_cases k name t' s r.tasks h) [
      | inl (same, it) ↦
          let (named, runs) = good.each k t stored in rw (← it, ← same, count) (id ∙ named, runs)
      | inr (_, there) ↦ good.each name s there
    ];
  }

  pub registered-IsCounted :
      (p : fl.F) (r : RateRunner fl lib) (with_id : Option String)
      → IsCounted r
      → IsCounted (register fl lib p r with_id).0
  unfolding new_spec chosen_id
  registered-IsCounted p r with_id good =
      let id = (chosen_id with_id r.id_counter).0 in
      elim (Option-cases (lookup id r.tasks)) [
        | inr (t, h) ↦
            rw (register-taken p r with_id h) (record { agree = good.agree; each = good.each })
        | inl h ↦ rw (register-free p r with_id good.agree h) (record {
          agree = insert-agrees p r with_id id (new_spec fl lib p id) good.agree;
          each = λ name s there.
              elim (lookup-insert_cases id name (new_spec fl lib p id) s r.tasks there) [
                | inl (same, it) ↦
                    rw (← it, ← same)
                      (
                        refl,
                        record {
                          prepared = id;
                          known = lookup-insert_self id id r.tr.tasks;
                          ids = [];
                          held = lookup-insert_self id [] r.tr.states;
                          count = refl;
                        },
                      )
                | inr (apart, was) ↦
                    let (named, runs) = good.each name s was in
                    (
                      named,
                      record {
                        prepared = runs.prepared;
                        known = lookup-insert_ne id name id r.tr.tasks apart ∙ runs.known;
                        ids = runs.ids;
                        held = lookup-insert_ne id name [] r.tr.states apart ∙ runs.held;
                        count = runs.count;
                      },
                    )
              ];
        })
      ]

  pub new_rate_runner-IsCounted : IsCounted (new_rate_runner fl lib)
  unfolding new_rate_runner lookup
  new_rate_runner-IsCounted = record {
    agree = new_rate_runner-KeysAgree fl lib;
    each = λ name t h. ground arith;
  }
