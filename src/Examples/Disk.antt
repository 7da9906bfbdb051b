-- ===== src/Examples/Disk.antt =====
-- A file system in memory, whose files hold a number or nothing, and where one temporary file at a
-- time can be made.
use govnilo.Prelude.{
  ℕ, ◌==◌, ◌≡◌, refl, sym, ap, ◌∙◌, ◌≢◌, string_eq, beq_self, beq_ne, if◌then◌else◌, Option, none,
  some, String, ◌⊎◌, inl, inr, arith,
}
use govnilo.StateStore.{FileSystem, Json, SyncJsonFile}
use govnilo.StateStore.Laws.{Documented}

abbrev pub Disk : Type 0
Disk = String → Option (Option ℕ)

unfoldable pub put : String → Option (Option ℕ) → Disk → Disk
put p v s q = if p == q then v else s q

pub put_self : (p : String) (v : Option (Option ℕ)) (s : Disk) → put p v s p ≡ v
unfolding put
put_self p v s = rw (beq_self p) refl

pub put_other : (p q : String) (v : Option (Option ℕ)) (s : Disk) → p ≢ q → put p v s q ≡ s q
unfolding put
put_other p q v s h = rw (beq_ne p q h) refl

abbrev pub opened : Option (Option ℕ) → String → Disk → Disk × Option ℕ
opened none p s = (put p (some none) s, none)
opened (some _) p s = (s, none)

abbrev pub bytes : Option ℕ → ℕ
bytes none = 0
bytes (some _) = 1

abbrev pub measured : Option (Option ℕ) → ℕ ⊎ ℕ
measured none = inl 2
measured (some d) = inr (bytes d)

abbrev pub found : Option (Option ℕ) → ℕ ⊎ Option ℕ
found none = inl 2
found (some d) = inr d

abbrev pub made : Option (Option ℕ) → Disk → Disk × (ℕ ⊎ String)
made none s = (put "tmp" (some none) s, inr "tmp")
made (some _) s = (s, inl 17)

abbrev pub moved : Option (Option ℕ) → String → String → Disk → Disk × Option ℕ
moved none a b s = (s, some 2)
moved (some d) a b s = (put b (some d) (put a none s), none)

abbrev pub disk : FileSystem (Option ℕ) ℕ
disk = record {
  S = Disk;
  dir_of = λ p. "/var";
  open_or_create = λ p s. opened (s p) p s;
  stat_size = λ p s. (s, measured (s p));
  read = λ p s. (s, found (s p));
  create_temp = λ dir pattern s. made (s "tmp") s;
  write = λ name d s. (put name (some d) s, none);
  rename = λ a b s. moved (s a) a b s;
}

pub opened_there :
    (o : Option (Option ℕ)) (p : String) (s : Disk) (d : Option ℕ)
    → s p ≡ o
    → o ≡ some d
    → (opened o p s).0 p ≡ some d
opened_there none p s d e h = ground arith
opened_there (some x) p s d e h = e ∙ h

pub opened_new :
    (o : Option (Option ℕ)) (p : String) (s : Disk)
    → o ≡ none
    → ((opened o p s).0 p ≡ none) ⊎ ((opened o p s).0 p ≡ some none)
opened_new none p s h = inr (put_self p (some none) s)
opened_new (some x) p s h = ground arith

pub measured-inr :
    (o : Option (Option ℕ)) (n : ℕ)
    → measured o ≡ inr n
    → (d : Option ℕ) × (o ≡ some d) × (bytes d ≡ n)
measured-inr none n h = ground arith
measured-inr (some d) n h = (d, refl, cc h)

pub found-inr : (o : Option (Option ℕ)) (d : Option ℕ) → found o ≡ inr d → o ≡ some d
found-inr none d h = ground arith
found-inr (some x) d h = cc h

pub made_keeps :
    (o : Option (Option ℕ)) (s : Disk) (q : String) (d : Option ℕ)
    → s "tmp" ≡ o
    → s q ≡ some d
    → (made o s).0 q ≡ some d
made_keeps (some x) s q d e h = h
made_keeps none s q d e h =
    put_other "tmp" q (some none) s
      (λ same. let bad : some d ≡ none = sym h ∙ ap s (sym same) ∙ e in ground arith)
    ∙ h

pub made_fresh :
    (o : Option (Option ℕ)) (s : Disk) (name : String)
    → s "tmp" ≡ o
    → (made o s).1 ≡ inr name
    → s name ≡ none
made_fresh (some x) s name e h = ground arith
made_fresh none s name e h = let it : "tmp" ≡ name = cc h in ap s (sym it) ∙ e

pub moved_failed :
    (o : Option (Option ℕ)) (a b : String) (s : Disk) (e : ℕ) (q : String)
    → (moved o a b s).1 ≡ some e
    → (moved o a b s).0 q ≡ s q
moved_failed none a b s e q h = refl
moved_failed (some d) a b s e q h = ground arith

pub moved_there :
    (o : Option (Option ℕ)) (a b : String) (s : Disk) (d : Option ℕ)
    → o ≡ some d
    → (moved o a b s).0 b ≡ some d
moved_there none a b s d h = ground arith
moved_there (some x) a b s d h = put_self b (some x) (put a none s) ∙ h

abbrev pub disk_laws : Documented disk
disk_laws = record {
  contents = λ s. s;
  size = bytes;
  empty = none;
  empty_size = refl;
  open_there = λ p s d h. opened_there (s p) p s d refl h;
  open_new = λ p s h. opened_new (s p) p s h;
  stat_keeps = λ p s q. refl;
  stat_measures = λ p s n h. measured-inr (s p) n h;
  read_keeps = λ p s q. refl;
  read_whole = λ p s d h. found-inr (s p) d h;
  create_keeps = λ dir pattern s q d h. made_keeps (s "tmp") s q d refl h;
  create_fresh = λ dir pattern s name h. made_fresh (s "tmp") s name refl h;
  write_other = λ name d s q h. put_other name q (some d) s h;
  write_whole = λ name d s h. put_self name (some d) s;
  rename_failed = λ a b s e q h. moved_failed (s a) a b s e q h;
  rename_moves = λ a b s d h there. moved_there (s a) a b s d there;
}

abbrev pub decoded : Option ℕ → ℕ → ℕ ⊎ ℕ
decoded none default = inl 3
decoded (some n) default = inr n

abbrev pub json : Json ℕ (Option ℕ) ℕ
json = record { encode = λ t. inr (some t); decode = decoded }

abbrev pub file : SyncJsonFile ℕ
file = record { path = "state.json"; default_val = 10 }
