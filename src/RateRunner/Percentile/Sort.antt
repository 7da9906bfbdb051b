-- ===== src/RateRunner/Percentile/Sort.antt =====
-- The sort of a snapshot of values.
use govnilo.Prelude.{ℕ, suc, ◌≤◌, ◌≡◌, refl, nat_beq, if◌then◌else◌, List, [], ◌∷◌, All, arith}
use govnilo.RateRunner.Percentile.{sort, insert_sorted}

abbrev pub IsSorted : List ℕ → Type 0
IsSorted [] = Unit
IsSorted (v ∷ vs) = All (λ w. v ≤ w) vs × IsSorted vs

unfoldable pub count : ℕ → List ℕ → ℕ
count a [] = 0
count a (v ∷ vs) = if nat_beq a v then suc (count a vs) else count a vs

insert_sorted-All :
    (u v : ℕ) (vs : List ℕ) → u ≤ v → All (λ w. u ≤ w) vs → All (λ w. u ≤ w) (insert_sorted v vs)
unfolding insert_sorted
insert_sorted-All u v [] h a = (h, tt)
insert_sorted-All u v (w ∷ ws) h a = ground (arith, insert_sorted-All u v ws h a.1)

All-le_trans : (u v : ℕ) (ws : List ℕ) → u ≤ v → All (λ w. v ≤ w) ws → All (λ w. u ≤ w) ws
All-le_trans u v [] h a = tt
All-le_trans u v (w ∷ ws) h a = (omega arith, All-le_trans u v ws h a.1)

insert_sorted-IsSorted : (v : ℕ) (vs : List ℕ) → IsSorted vs → IsSorted (insert_sorted v vs)
unfolding insert_sorted
insert_sorted-IsSorted v [] h = (tt, tt)
insert_sorted-IsSorted v (w ∷ ws) h =
    ground (arith, insert_sorted-IsSorted v ws h.1, insert_sorted-All w v ws, All-le_trans v w ws)

count-insert_sorted : (a v : ℕ) (vs : List ℕ) → count a (insert_sorted v vs) ≡ count a (v ∷ vs)
unfolding insert_sorted count
count-insert_sorted a v [] = refl
count-insert_sorted a v (w ∷ ws) = ground (arith, count-insert_sorted a v ws)

sort-IsSorted : (vs : List ℕ) → IsSorted (sort vs)
unfolding sort
sort-IsSorted [] = tt
sort-IsSorted (v ∷ vs) = insert_sorted-IsSorted v (sort vs) (sort-IsSorted vs)

count-sort : (a : ℕ) (vs : List ℕ) → count a (sort vs) ≡ count a vs
unfolding sort count
count-sort a [] = refl
count-sort a (v ∷ vs) = ground (arith, count-insert_sorted a v (sort vs), count-sort a vs)

-- The values handed to the quantile rise, and each occurs as often as it was observed.
pub sort_sorts : (vs : List ℕ) → IsSorted (sort vs) × ((a : ℕ) → count a (sort vs) ≡ count a vs)
sort_sorts vs = (sort-IsSorted vs, λ a. count-sort a vs)
