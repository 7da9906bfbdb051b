-- ===== src/StateStorage.antt =====
-- internal/util/state_storage.go: a state kept in a file that is written over, `FileStateStorage`.
-- The file system and the encoding are parameters; a state of any type may be stored, so that the
-- encoding of a state is what `json.Marshal` makes of it. A mutex makes each method one operation.
use govnilo.Prelude.{◌≡◌, refl, ◌∙◌, ap, sym, Option, none, some, String, ◌⊎◌, inl, inr, arith}

-- What it uses of `os`. `S` is the file system; `D` is what a file holds.
pub record Files (D E : Type 0) : Type 1 where
  pub S : Type 0
  pub dir_of : String → String
  pub mkdir_all : String → S → S × Option E
  pub read_file : String → S → S × (E ⊎ D)
  pub write_file : String → D → S → S × Option E

pub data Error (E : Type 0) : Type 0 where
  cannot_make_dir cannot_marshal cannot_write cannot_read cannot_update : E → Error E

module _ {T D E : Type 0} (files : Files D E) (marshal : T → E ⊎ D) where
  open files use {S}

  -- `NewFileStateStorage`; the storage is its path.
  unfoldable pub made : String → S × Option E → S × (Error E ⊎ String)
  made path (s, none) = (s, inr path)
  made path (s, some e) = (s, inl (cannot_make_dir e))

  unfoldable pub new_file_state_storage : String → S → S × (Error E ⊎ String)
  unfolding made
  new_file_state_storage path s = made path (files.mkdir_all (files.dir_of path) s)

  unfoldable pub wrote : S × Option E → S × Option (Error E)
  wrote (s, none) = (s, none)
  wrote (s, some e) = (s, some (cannot_write e))

  unfoldable pub write_marshalled : String → E ⊎ D → S → S × Option (Error E)
  unfolding wrote
  write_marshalled path (inl e) s = (s, some (cannot_marshal e))
  write_marshalled path (inr d) s = wrote (files.write_file path d s)

  -- `UpdateState`
  unfoldable pub update_state : String → T → S → S × Option (Error E)
  unfolding write_marshalled
  update_state path t s = write_marshalled path (marshal t) s

  unfoldable pub update_read : String → E ⊎ T → S → S × Option (Error E)
  unfolding update_state
  update_read path (inl e) s = (s, some (cannot_update e))
  update_read path (inr t) s = update_state path t s

  unfoldable pub update_from : String → (D → E ⊎ T) → S × (E ⊎ D) → S × Option (Error E)
  unfolding update_read
  update_from path f (s, inl e) = (s, some (cannot_read e))
  update_from path f (s, inr d) = update_read path (f d) s

  -- `GetAndUpdate`
  unfoldable pub get_and_update : String → (D → E ⊎ T) → S → S × Option (Error E)
  unfolding update_from
  get_and_update path f s = update_from path f (files.read_file path s)

  unfoldable pub got : S × (E ⊎ D) → S × (Error E ⊎ D)
  got (s, inl e) = (s, inl (cannot_read e))
  got (s, inr d) = (s, inr d)

  -- `GetState`
  unfoldable pub get_state : String → S → S × (Error E ⊎ D)
  unfolding got
  get_state path s = got (files.read_file path s)

-- What the documentation of the file system says: reading changes no file and returns what one
-- holds; a write that succeeds replaces what the file held.
pub record Documented {D E : Type 0} (files : Files D E) : Type 0 where
  pub contents : files.S → String → Option D
  pub read_keeps : (p : String) (s : files.S) → contents (files.read_file p s).0 p ≡ contents s p
  pub read_whole :
      (p : String) (s : files.S) (d : D) → (files.read_file p s).1 ≡ inr d → contents s p ≡ some d
  pub write_whole :
      (p : String) (d : D) (s : files.S)
      → (files.write_file p d s).1 ≡ none
      → contents (files.write_file p d s).0 p ≡ some d

module _ {T D E : Type 0} {files : Files D E} (marshal : T → E ⊎ D) (laws : Documented files)
    (path : String) where
  open laws use {contents}

  -- What is to hold of a write of `t`: the file holds its encoding, if there is no error.
  abbrev Written : T → files.S × Option (Error E) → Type 0
  Written t (s, e) = e ≡ none → (d : D) × (marshal t ≡ inr d) × (contents s path ≡ some d)

  wrote-Written :
      (t : T) (d : D) (r : files.S × Option E)
      → marshal t ≡ inr d
      → (r.1 ≡ none → contents r.0 path ≡ some d)
      → Written t (wrote files marshal r)
  unfolding wrote
  wrote-Written t d (s, none) coded holds = λ h. (d, coded, holds refl)
  wrote-Written t d (s, some e) coded holds = λ h. ground arith

  write_marshalled-Written :
      (t : T) (r : E ⊎ D) (s : files.S)
      → marshal t ≡ r
      → Written t (write_marshalled files marshal path r s)
  unfolding write_marshalled
  write_marshalled-Written t (inl e) s coded = λ h. ground arith
  write_marshalled-Written t (inr d) s coded =
      wrote-Written t d (files.write_file path d s) coded (laws.write_whole path d s)

  got-read : (r : files.S × (E ⊎ D)) (d : D) → (got files marshal r).1 ≡ inr d → r.1 ≡ inr d
  unfolding got
  got-read (s, inl e) d h = ground arith
  got-read (s, inr x) d h = cc h

  -- After an `UpdateState` that returned nil, `GetState` returns the encoding of the state that was
  -- stored, if it returns one.
  pub get_state-update_state :
      (t : T) (s : files.S) (d : D)
      → (update_state files marshal path t s).1 ≡ none
      → (get_state files marshal path (update_state files marshal path t s).0).1 ≡ inr d
      → marshal t ≡ inr d
  unfolding update_state get_state
  get_state-update_state t s d stored read =
      let s' = (write_marshalled files marshal path (marshal t) s).0 in
      let (d', coded, holds) = write_marshalled-Written t (marshal t) s refl stored in
      let found : contents s' path ≡ some d =
        laws.read_whole path s' d (got-read (files.read_file path s') d read) in
      let same : some d' ≡ some d = sym holds ∙ found in
      let it : d' ≡ d = cc same in coded ∙ ap (λ x. inr x) it
