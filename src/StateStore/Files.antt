-- ===== src/StateStore/Files.antt =====
-- What pkg/common/statestore uses of `os`, `path` and `encoding/json`.
use govnilo.Prelude.{ℕ, Option, String, ◌⊎◌}

-- `S` is the file system; `D` is what a file holds. `none` is no error.
pub record FileSystem (D E : Type 0) : Type 1 where
  pub S : Type 0
  pub dir_of : String → String
  pub open_or_create : String → S → S × Option E
  pub stat_size : String → S → S × (E ⊎ ℕ)
  pub read : String → S → S × (E ⊎ D)
  pub create_temp : String → String → S → S × (E ⊎ String)
  pub write : String → D → S → S × Option E
  pub rename : String → String → S → S × Option E

-- `Decode` fills the value that it is given, here the default.
pub record Json (T D E : Type 0) : Type 0 where
  pub encode : T → E ⊎ D
  pub decode : D → T → E ⊎ T
