-- ===== src/StateStore/Laws.antt =====
-- What the documentation of the file system says, as far as the stores rely on it: opening creates
-- at most an empty file, a temporary file is new, a failed renaming changes nothing, and each call
-- changes nothing but the files that it names.
use govnilo.Prelude.{ℕ, ◌≡◌, ◌≢◌, Option, none, some, String, ◌⊎◌, inr}
use govnilo.StateStore.{FileSystem}

-- `contents` is what the files hold; `size` is in bytes.
pub record Documented {D E : Type 0} (fs : FileSystem D E) : Type 0 where
  pub contents : fs.S → String → Option D
  pub size : D → ℕ
  pub empty : D
  pub empty_size : size empty ≡ 0
  pub open_there :
      (p : String) (s : fs.S) (d : D)
      → contents s p ≡ some d
      → contents (fs.open_or_create p s).0 p ≡ some d
  pub open_new :
      (p : String) (s : fs.S)
      → contents s p ≡ none
      → (contents (fs.open_or_create p s).0 p ≡ none)
        ⊎ (contents (fs.open_or_create p s).0 p ≡ some empty)
  pub stat_keeps :
      (p : String) (s : fs.S) (q : String) → contents (fs.stat_size p s).0 q ≡ contents s q
  pub stat_measures :
      (p : String) (s : fs.S) (n : ℕ)
      → (fs.stat_size p s).1 ≡ inr n
      → (d : D) × (contents s p ≡ some d) × (size d ≡ n)
  pub read_keeps : (p : String) (s : fs.S) (q : String) → contents (fs.read p s).0 q ≡ contents s q
  pub read_whole : (p : String) (s : fs.S) (d : D) → (fs.read p s).1 ≡ inr d → contents s p ≡ some d
  pub create_keeps :
      (dir pattern : String) (s : fs.S) (q : String) (d : D)
      → contents s q ≡ some d
      → contents (fs.create_temp dir pattern s).0 q ≡ some d
  pub create_fresh :
      (dir pattern : String) (s : fs.S) (name : String)
      → (fs.create_temp dir pattern s).1 ≡ inr name
      → contents s name ≡ none
  pub write_other :
      (name : String) (d : D) (s : fs.S) (q : String)
      → name ≢ q
      → contents (fs.write name d s).0 q ≡ contents s q
  pub write_whole :
      (name : String) (d : D) (s : fs.S)
      → (fs.write name d s).1 ≡ none
      → contents (fs.write name d s).0 name ≡ some d
  pub rename_failed :
      (a b : String) (s : fs.S) (e : E) (q : String)
      → (fs.rename a b s).1 ≡ some e
      → contents (fs.rename a b s).0 q ≡ contents s q
  pub rename_moves :
      (a b : String) (s : fs.S) (d : D)
      → (fs.rename a b s).1 ≡ none
      → contents s a ≡ some d
      → contents (fs.rename a b s).0 b ≡ some d
