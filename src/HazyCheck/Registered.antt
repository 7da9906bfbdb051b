-- ===== src/HazyCheck/Registered.antt =====
-- What `RegisterChecker` accepts and what it leaves behind.
use govnilo.Prelude.{
  ◌≡◌, refl, ◌∙◌, false, List, [], ◌∷◌, ◌++◌, Option, none, some, ◌⊎◌, inl, inr, if◌then◌else◌,
  arith,
}
use mathlib.Core.List.{append-nil, append_assoc}
use govnilo.CheckerCtrl.Helpers.{CheckerId}
use govnilo.Hzlog.{has_prefix, Inner, Handler, Attr, Record, with_attrs, handle, any_infra}
use govnilo.Hzlog.Filter.{Derivation, derive, derive-component, last_component, any_infra-append}
use govnilo.HazyCheck.{
  Out, Arg, Constructor, Registry, Panic, register_checker, with_checker, checker_attrs, add_typed,
  add_checker, add_constructor,
}

-- The id of a constructor that fits: a function to a checker whose zero value tells its id, and at
-- most an error next to it.
abbrev pub checker_of : Out → Option CheckerId
checker_of out = if out.is_checker then out.zero_id else none

unfoldable pub fitting_outs : List Out → Option CheckerId
fitting_outs [] = none
fitting_outs (out ∷ []) = checker_of out
fitting_outs (out ∷ (error ∷ [])) = if error.is_error then checker_of out else none
fitting_outs (out ∷ (error ∷ (more ∷ outs))) = none

abbrev pub fitting_id : {L A R : Type 0} → Constructor L A R → Option CheckerId
fitting_id c = if c.is_func then fitting_outs c.outs else none

abbrev pub registered_or : {T : Type 0} → Panic ⊎ T → Option T
registered_or (inl p) = none
registered_or (inr r) = some r

abbrev pub first_of : Option CheckerId → Option (List CheckerId) → Option (List CheckerId)
first_of none rest = none
first_of (some id) none = none
first_of (some id) (some ids) = some (id ∷ ids)

abbrev pub extended :
    {H A R : Type 0}
    → Registry (Handler H) A R
    → List (List (Arg (Handler H) A) → R)
    → Option (List CheckerId)
    → Option (Registry (Handler H) A R)
extended r calls none = none
extended r calls (some ids) = some (record {
  registered_checkers = r.registered_checkers ++ ids;
  constructors = r.constructors ++ calls;
})

-- The ids of constructors that all fit.
unfoldable pub fitting_ids : {L A R : Type 0} → List (Constructor L A R) → Option (List CheckerId)
fitting_ids [] = some []
fitting_ids (c ∷ cs) = first_of (fitting_id c) (fitting_ids cs)

module _ {H A R : Type 0} (inner : Inner H) where
  abbrev pub noted :
      Registry (Handler H) A R
      → (List (Arg (Handler H) A) → R)
      → Option CheckerId
      → Option (Registry (Handler H) A R)
  noted r call none = none
  noted r call (some id) = some (record {
    registered_checkers = r.registered_checkers ++ (id ∷ []);
    constructors = r.constructors ++ ((λ args. call (with_checker inner args)) ∷ []);
  })

  add_constructor_lem :
      (r : Registry (Handler H) A R) (call : List (Arg (Handler H) A) → R) (id : Option CheckerId)
      → registered_or (add_constructor inner r call id) ≡ noted r call id
  unfolding add_constructor
  add_constructor_lem r call none = refl
  add_constructor_lem r call (some id) = refl

  add_checker_lem :
      (r : Registry (Handler H) A R) (call : List (Arg (Handler H) A) → R) (out : Out)
      → registered_or (add_checker inner r call out) ≡ noted r call (checker_of out)
  unfolding add_checker
  add_checker_lem r call out = ground (arith, add_constructor_lem r call out.zero_id)

  add_typed_lem :
      (r : Registry (Handler H) A R) (call : List (Arg (Handler H) A) → R) (outs : List Out)
      → registered_or (add_typed inner r call outs) ≡ noted r call (fitting_outs outs)
  unfolding add_typed fitting_outs
  add_typed_lem r call [] = refl
  add_typed_lem r call (out ∷ []) = add_checker_lem r call out
  add_typed_lem r call (out ∷ (error ∷ [])) = ground (arith, add_checker_lem r call out)
  add_typed_lem r call (out ∷ (error ∷ (more ∷ outs))) = refl

  -- Registration of one after the other, as the functions `init` of the packages do it.
  unfoldable pub register_all :
      Registry (Handler H) A R
      → List (Constructor (Handler H) A R)
      → Option (Registry (Handler H) A R)
  register_all r [] = some r
  register_all r (c ∷ cs) = elim (registered_or (register_checker inner r c)) [
    | some r' ↦ register_all r' cs
    | none ↦ none
  ]

  unfoldable pub wrapped : List (Constructor (Handler H) A R) → List (List (Arg (Handler H) A) → R)
  wrapped [] = []
  wrapped (c ∷ cs) = (λ args. c.call (with_checker inner args)) ∷ wrapped cs

  register_checker_lem :
      (r : Registry (Handler H) A R) (c : Constructor (Handler H) A R)
      → registered_or (register_checker inner r c) ≡ noted r c.call (fitting_id c)
  unfolding register_checker
  register_checker_lem r c = ground (arith, add_typed_lem r c.call c.outs)

  register_next :
      (c : Constructor (Handler H) A R) (cs : List (Constructor (Handler H) A R))
      (r : Registry (Handler H) A R) (id : Option CheckerId) (rest : Option (List CheckerId))
      → ((r' : Registry (Handler H) A R) → register_all r' cs ≡ extended r' (wrapped cs) rest)
      → elim (noted r c.call id) [ some r' ↦ register_all r' cs | none ↦ none ]
        ≡ extended r ((λ args. c.call (with_checker inner args)) ∷ wrapped cs) (first_of id rest)
  register_next c cs r none rest ih = refl
  register_next c cs r (some id) none ih = ih _
  register_next c cs r (some id) (some ids) ih =
      let call : List (Arg (Handler H) A) → R = λ args. c.call (with_checker inner args) in
      ih _
      ∙ rw
          (
            append_assoc r.registered_checkers (id ∷ []) ids,
            append_assoc r.constructors (call ∷ []) (wrapped cs),
          )
          refl

  -- When constructors are registered one after the other, registration panics if one of them does not
  -- fit; otherwise their ids and, with the logger of the checker put in, the constructors themselves
  -- are added in order.
  pub register_all_lem :
      (cs : List (Constructor (Handler H) A R)) (r : Registry (Handler H) A R)
      → register_all r cs ≡ extended r (wrapped cs) (fitting_ids cs)
  unfolding register_all fitting_ids wrapped
  register_all_lem [] r = simp (append-nil)
  register_all_lem (c ∷ cs) r =
      rw (register_all, register_checker_lem r c)
        (register_next c cs r (fitting_id c) (fitting_ids cs) (λ r'. register_all_lem cs r'))

module _ {H : Type 0} (inner : Inner H) where
  checker-component :
      (h : Handler H) (ds : List Derivation)
      → last_component ds ≡ none
      → (derive inner ds (with_attrs inner checker_attrs h)).has_infra_component ≡ false
  unfolding with_attrs has_prefix
  checker-component h ds none_set =
      (derive-component inner ds (with_attrs inner checker_attrs h)).0 ∙ rw (none_set) refl

  -- A logger that is derived from the one that a checker gets, without a component set, passes on
  -- every record, with the attributes of the context added, unless an attribute of the record or of
  -- the context names a component of the infrastructure; whether or not the logger that the
  -- application gives belongs to the infrastructure.
  pub handle-checker_attrs :
      (h : Handler H) (ds : List Derivation) (ctx : List Attr) (r : Record)
      → last_component ds ≡ none
      → any_infra (r.attrs ++ ctx) ≡ false
      → handle (derive inner ds (with_attrs inner checker_attrs h)) ctx r
        ≡ some (record r { attrs = r.attrs ++ ctx })
  unfolding handle
  handle-checker_attrs h ds ctx r none_set clean =
      rw (checker-component h ds none_set, ← any_infra-append r.attrs ctx, clean) refl
