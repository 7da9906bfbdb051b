-- ===== src/StateStore/Atomic.antt =====
-- A change of the state file is made wholly or not at all.
use govnilo.Prelude.{
  ℕ, ◌==◌, ◌≡◌, refl, sym, ap, ◌∙◌, ◌≢◌, nat_eq, false, if◌then◌else◌, Option, none, some, String,
  ◌⊎◌, inl, inr, arith, Bool-cases, Option-cases,
}
use govnilo.StateStore.{
  FileSystem, Json, Error, SyncJsonFile, wrap_decoded, decode_read, read_sized, read_opened,
  retrieve_state, renamed, move_written, write_encoded, write_created, replace_file, write_changed,
  change_retrieved, update_state,
}
use govnilo.StateStore.Laws.{Documented}

module _ {T D E : Type 0} {fs : FileSystem D E} (json : Json T D E) (j : SyncJsonFile T)
    (laws : Documented fs) where
  open laws use {contents, size}

  -- The state that a file stands for: the default if there is none or it is empty.
  abbrev pub state_of : Option D → E ⊎ T
  state_of none = inr j.default_val
  state_of (some d) = if size d == 0 then inr j.default_val else json.decode d j.default_val

  abbrev pub stored : fs.S → E ⊎ T
  stored s = state_of (contents s j.path)

  -- What is to hold of a retrieval from a state whose file held `held`.
  abbrev pub Retrieved : Option D → fs.S × (Error E ⊎ T) → Type 0
  Retrieved held (s', r) =
      (state_of (contents s' j.path) ≡ state_of held)
      × ((t : T) → r ≡ inr t → (state_of held ≡ inr t) × (contents s' j.path ≢ none))

  wrap_decoded-inr : (r : E ⊎ T) (t : T) → wrap_decoded fs json j r ≡ inr t → r ≡ inr t
  wrap_decoded-inr (inl e) t h = ground arith
  wrap_decoded-inr (inr u) t h = cc h

  inr_inr : {t u : T} → ◌≡◌ {A = Error E ⊎ T} (inr t) (inr u) → ◌≡◌ {A = E ⊎ T} (inr t) (inr u)
  inr_inr h = cc h

  decode_read-Retrieved :
      (d : D) (r : fs.S × (E ⊎ D))
      → (size d == 0) ≡ false
      → contents (r.0) j.path ≡ some d
      → ((d' : D) → r.1 ≡ inr d' → d ≡ d')
      → Retrieved (some d) (decode_read fs json j r)
  unfolding decode_read
  decode_read-Retrieved d (s, inl e) full held whole = (ap state_of held, λ t h. ground arith)
  decode_read-Retrieved d (s, inr d') full held whole =
      let same : d ≡ d' = whole d' refl in
      (
        ap state_of held,
        λ t h. (
          ap (λ b. if b then inr j.default_val else json.decode d j.default_val) full
              ∙ ap (λ x. json.decode x j.default_val) same
              ∙ wrap_decoded-inr (json.decode d' j.default_val) t h,
          λ gone. let bad : some d ≡ none = sym held ∙ gone in ground arith,
        ),
      )

  read_sized-Retrieved :
      (held : Option D) (r : fs.S × (E ⊎ ℕ))
      → contents (r.0) j.path ≡ held
      → ((n : ℕ) → r.1 ≡ inr n → (d : D) × (held ≡ some d) × (size d ≡ n))
      → Retrieved held (read_sized fs json j r)
  unfolding read_sized
  read_sized-Retrieved held (s, inl e) same measured = (ap state_of same, λ t h. ground arith)
  read_sized-Retrieved held (s, inr n) same measured =
      let (d, there, sized) = measured n refl in
      elim (Bool-cases (n == 0)) [
        | inl void ↦ rw void (
          ap state_of same,
          λ t h. (
            ap state_of there
                ∙ ap (λ k. if k == 0 then inr j.default_val else json.decode d j.default_val) sized
                ∙ ap (λ b. if b then inr j.default_val else json.decode d j.default_val) void
                ∙ inr_inr h,
            λ gone. let bad : some d ≡ none = sym (same ∙ there) ∙ gone in ground arith,
          ),
        )
        | inr full ↦
            let filled : (size d == 0) ≡ false = ap (λ k. k == 0) sized ∙ full in
            rw (full, there)
              (decode_read-Retrieved d (fs.read j.path s) filled
                (laws.read_keeps j.path s j.path ∙ same ∙ there)
                (λ d' h.
                  let both : some d ≡ some d' =
                    sym (same ∙ there) ∙ laws.read_whole j.path s d' h in
                  cc both))
      ]

  read_opened-Retrieved :
      (held : Option D) (r : fs.S × Option E)
      → state_of (contents (r.0) j.path) ≡ state_of held
      → Retrieved held (read_opened fs json j r)
  unfolding read_opened
  read_opened-Retrieved held (s, some e) same = (same, λ t h. ground arith)
  read_opened-Retrieved held (s, none) same =
      let now = contents s j.path in
      let (kept, found) =
        read_sized-Retrieved now (fs.stat_size j.path s) (laws.stat_keeps j.path s j.path)
          (laws.stat_measures j.path s) in
      (kept ∙ same, λ t h. (sym same ∙ (found t h).0, (found t h).1))

  state_of-open : (s : fs.S) → state_of (contents (fs.open_or_create j.path s).0 j.path) ≡ stored s
  state_of-open s = elim (Option-cases (contents s j.path)) [
    | inr (d, there) ↦ ap state_of (laws.open_there j.path s d there ∙ sym there)
    | inl gone ↦ elim (laws.open_new j.path s gone) [
      | inl still ↦ ap state_of (still ∙ sym gone)
      | inr made ↦
          ap state_of made
          ∙ ap (λ n. if n == 0 then inr j.default_val else json.decode laws.empty j.default_val)
              laws.empty_size
          ∙ ap state_of (sym gone)
    ]
  ]

  -- A retrieval leaves the stored state as it is, and returns that state or an error.
  pub retrieve_state-Retrieved :
      (s : fs.S) → Retrieved (contents s j.path) (retrieve_state fs json j s)
  unfolding retrieve_state
  retrieve_state-Retrieved s =
      read_opened-Retrieved (contents s j.path) (fs.open_or_create j.path s) (state_of-open s)

  -- The file holds the whole encoding of `t`, or on an error what it held.
  abbrev pub Replaced : D → T → fs.S × Option (Error E) → Type 0
  Replaced old t (s', e) =
      (e ≡ none → (d : D) × (json.encode t ≡ inr d) × (contents s' j.path ≡ some d))
      × ((x : Error E) → e ≡ some x → contents s' j.path ≡ some old)

  renamed-Replaced :
      (old d : D) (t : T) (r : fs.S × Option E)
      → json.encode t ≡ inr d
      → (r.1 ≡ none → contents (r.0) j.path ≡ some d)
      → ((e : E) → r.1 ≡ some e → contents (r.0) j.path ≡ some old)
      → Replaced old t (renamed fs json j r)
  unfolding renamed
  renamed-Replaced old d t (s, none) coded moved kept =
      ((λ _. (d, coded, moved refl)), λ x h. ground arith)
  renamed-Replaced old d t (s, some e) coded moved kept = ((λ h. ground arith), λ x h. kept e refl)

  move_written-Replaced :
      (old d : D) (t : T) (name : String) (r : fs.S × Option E)
      → json.encode t ≡ inr d
      → (r.1 ≡ none → contents (r.0) name ≡ some d)
      → contents (r.0) j.path ≡ some old
      → Replaced old t (move_written fs json j name r)
  unfolding move_written
  move_written-Replaced old d t name (s, some e) coded wrote held =
      ((λ h. ground arith), λ x h. held)
  move_written-Replaced old d t name (s, none) coded wrote held =
      renamed-Replaced old d t (fs.rename name j.path s) coded
        (λ h. laws.rename_moves name j.path s d h (wrote refl))
        (λ e h. laws.rename_failed name j.path s e j.path h ∙ held)

  write_encoded-Replaced :
      (old : D) (t : T) (name : String) (r : E ⊎ D) (s : fs.S)
      → json.encode t ≡ r
      → name ≢ j.path
      → contents s j.path ≡ some old
      → Replaced old t (write_encoded fs json j name r s)
  unfolding write_encoded
  write_encoded-Replaced old t name (inl e) s coded apart held = ((λ h. ground arith), λ x h. held)
  write_encoded-Replaced old t name (inr d) s coded apart held =
      move_written-Replaced old d t name (fs.write name d s) coded (laws.write_whole name d s)
        (laws.write_other name d s j.path apart ∙ held)

  write_created-Replaced :
      (old : D) (t : T) (r : fs.S × (E ⊎ String))
      → contents (r.0) j.path ≡ some old
      → ((name : String) → r.1 ≡ inr name → name ≢ j.path)
      → Replaced old t (write_created fs json j t r)
  unfolding write_created
  write_created-Replaced old t (s, inl e) held fresh = ((λ h. ground arith), λ x h. held)
  write_created-Replaced old t (s, inr name) held fresh =
      write_encoded-Replaced old t name (json.encode t) s refl (fresh name refl) held

  replace_file-Replaced :
      (old : D) (t : T) (s : fs.S)
      → contents s j.path ≡ some old
      → Replaced old t (replace_file fs json j t s)
  unfolding replace_file
  replace_file-Replaced old t s held =
      let dir = fs.dir_of j.path in
      write_created-Replaced old t (fs.create_temp dir "__json_file_storage" s)
        (laws.create_keeps dir "__json_file_storage" s j.path old held)
        (λ name h same.
          let gone : contents s name ≡ none =
            laws.create_fresh dir "__json_file_storage" s name h in
          let bad : some old ≡ none = sym held ∙ ap (contents s) (sym same) ∙ gone in ground arith)

  -- What is to hold of a change of a state that was stored as `before`.
  abbrev pub Changed : (T → T × Option E) → E ⊎ T → fs.S × Option (Error E) → Type 0
  Changed f before (s', e) =
      (e ≡ none
        → (t : T) × (d : D) × (before ≡ inr t)
          × ((f t).1 ≡ none)
          × (json.encode (f t).0 ≡ inr d)
          × (contents s' j.path ≡ some d))
      × ((x : Error E) → e ≡ some x → stored s' ≡ before)

  write_changed-Changed :
      (f : T → T × Option E) (t : T) (r : T × Option E) (s : fs.S)
      → f t ≡ r
      → stored s ≡ inr t
      → contents s j.path ≢ none
      → Changed f (inr t) (write_changed fs json j r s)
  unfolding write_changed
  write_changed-Changed f t (t', some e) s ran now there = ((λ h. ground arith), λ x h. now)
  write_changed-Changed f t (t', none) s ran now there = elim (Option-cases (contents s j.path)) [
    | inl gone ↦ absurd (there gone)
    | inr (old, held) ↦
        let (wrote, kept) = replace_file-Replaced old t' s held in
        (
          (λ h.
              let (d, coded, holds) = wrote h in
              (t, d, refl, ap (λ p. p.1) ran, ap (λ p. json.encode (p.0)) ran ∙ coded, holds)),
          λ x h. ap state_of (kept x h ∙ sym held) ∙ now,
        )
  ]

  change_retrieved-Changed :
      (f : T → T × Option E) (held : Option D) (r : fs.S × (Error E ⊎ T))
      → Retrieved held r
      → Changed f (state_of held) (change_retrieved fs json j f r)
  unfolding change_retrieved
  change_retrieved-Changed f held (s, inl e) got = ((λ h. ground arith), λ x h. got.0)
  change_retrieved-Changed f held (s, inr t) got =
      let (is, there) = got.1 t refl in
      rw is (write_changed-Changed f t (f t) s refl (got.0 ∙ is) there)

  -- On a file system that does what its documentation says, `UpdateState` of the synchronous store
  -- changes the stored state wholly or not at all: if it
  -- returns nil, the function succeeded on the stored state and the file holds the whole encoding of
  -- what it made of it; if it returns an error, from whatever step, the stored state is as before.
  pub update_state_atomic :
      (f : T → T × Option E) (s : fs.S)
      → let (s', e) = update_state fs json j f s in
        (e ≡ none
          → (t : T) × (d : D) × (stored s ≡ inr t)
            × ((f t).1 ≡ none)
            × (json.encode (f t).0 ≡ inr d)
            × (contents s' j.path ≡ some d))
        × ((x : Error E) → e ≡ some x → stored s' ≡ stored s)
  unfolding update_state
  update_state_atomic f s =
      change_retrieved-Changed f (contents s j.path) (retrieve_state fs json j s)
        (retrieve_state-Retrieved s)
