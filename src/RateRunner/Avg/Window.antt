-- ===== src/RateRunner/Avg/Window.antt =====
-- The counter holds the last values and their sum.
use govnilo.Prelude.{
  ℕ, zero, suc, ◌+◌, ◌-◌, ◌^◌, ◌≤◌, ◌<◌, ◌≡◌, refl, sym, ap, ◌∙◌, ◌⊎◌, int_of_u64, true, false,
  List, [], ◌∷◌, ◌++◌, length, length-append, drop, none, some, All, All-append, arith,
}
use mathlib.Core.Path.{subst}
use mathlib.Core.List.{append-nil, append_assoc}
use native.Mathlib.Decide.{dec_le}
use govnilo.RateRunner.Avg.{AvgCounter, u64, is_full, new_avg_counter, evict, append, append_all}

pub total : List ℕ → ℕ
total [] = 0
total (v ∷ vs) = v + total vs

-- The last `n` values of a history.
unfoldable pub last_n : ℕ → List ℕ → List ℕ
last_n n vs = drop (length vs - n) vs

-- The counter holds the last values of a history, as many as fit, and their sum.
pub record Holds (c : AvgCounter) (w : ℕ) (history : List ℕ) : Type 0 where
  pub sized : c.window_size ≡ w
  pub window : c.vals ≡ last_n w history
  pub summed : c.sum ≡ u64 (total (last_n w history))

last_n_short : (n : ℕ) (vs : List ℕ) → length vs ≤ n → last_n n vs ≡ vs
unfolding last_n
last_n_short n vs h = let none_left : length vs - n ≡ 0 = omega arith in rw none_left

last_n_full : (n v : ℕ) (vs : List ℕ) → n ≤ length vs → last_n n (v ∷ vs) ≡ last_n n vs
unfolding last_n
last_n_full n v vs h =
    let one_more : length (v ∷ vs) - n ≡ suc (length vs - n) = omega arith in rw one_more

last_n-last_n : (m n : ℕ) (vs : List ℕ) → m ≤ n → last_n m (last_n n vs) ≡ last_n m vs
last_n-last_n m n [] h = ap (last_n m) (last_n_short n [] (omega arith))
last_n-last_n m n (v ∷ vs) h = elim (dec_le (suc (length vs)) n) [
  | yes fits ↦ ap (last_n m) (last_n_short n (v ∷ vs) fits)
  | no over ↦
      ap (last_n m) (last_n_full n v vs (omega arith))
      ∙ last_n-last_n m n vs h
      ∙ sym (last_n_full m v vs (omega arith))
]

last_n-snoc : (m x : ℕ) (vs : List ℕ) → last_n (suc m) (vs ++ x ∷ []) ≡ last_n m vs ++ x ∷ []
last_n-snoc m x [] =
    last_n_short (suc m) (x ∷ []) (omega arith)
    ∙ sym (ap (λ (l : List ℕ). l ++ x ∷ []) (last_n_short m [] (omega arith)))
last_n-snoc m x (v ∷ vs) = elim (dec_le m (length vs)) [
  | yes full ↦
      last_n_full (suc m) v (vs ++ x ∷ []) (omega (arith, length-append vs (x ∷ [])))
      ∙ last_n-snoc m x vs
      ∙ sym (ap (λ (l : List ℕ). l ++ x ∷ []) (last_n_full m v vs full))
  | no short ↦
      last_n_short (suc m) (v ∷ (vs ++ x ∷ [])) (omega (arith, length-append vs (x ∷ [])))
      ∙ sym (ap (λ (l : List ℕ). l ++ x ∷ []) (last_n_short m (v ∷ vs) (omega arith)))
]

abbrev pub AreU64 : List ℕ → Type 0
AreU64 = All (λ v. v < 2 ^ 64)

drop-AreU64 : (n : ℕ) (vs : List ℕ) → AreU64 vs → AreU64 (drop n vs)
drop-AreU64 zero vs h = h
drop-AreU64 (suc n) [] h = tt
drop-AreU64 (suc n) (v ∷ vs) h = drop-AreU64 n vs h.1

last_n-AreU64 : (n : ℕ) (vs : List ℕ) → AreU64 vs → AreU64 (last_n n vs)
unfolding last_n
last_n-AreU64 n vs h = drop-AreU64 (length vs - n) vs h

evict_lem :
    (w : ℕ) (vals : List ℕ)
    → 0 < w
    → w < 2 ^ 63
    → AreU64 vals
    → evict w vals (u64 (total vals))
      ≡ some (last_n (w - 1) vals, u64 (total (last_n (w - 1) vals)))
unfolding evict
evict_lem w [] h k u =
    let keeps : is_full 0 (int_of_u64 w) ≡ false = ground arith in
    rw (keeps, last_n_short (w - 1) [] (omega arith))
evict_lem w (v ∷ vals) h k u = elim (dec_le w (suc (length vals))) [
  | yes full ↦
      let drops : is_full (suc (length vals)) (int_of_u64 w) ≡ true = ground arith in
      let left : u64 (u64 (total (v ∷ vals)) + 2 ^ 64 - v) ≡ u64 (total vals) =
        unfold total in omega arith in
      rw (drops, left, last_n_full (w - 1) v vals (omega arith)) (evict_lem w vals h k u.1)
  | no short ↦
      let keeps : is_full (suc (length vals)) (int_of_u64 w) ≡ false = ground arith in
      rw (keeps, last_n_short (w - 1) (v ∷ vals) (omega arith))
]

total-snoc : (vs : List ℕ) (x : ℕ) → total (vs ++ x ∷ []) ≡ total vs + x
unfolding total
total-snoc [] x = omega arith
total-snoc (v ∷ vs) x = omega (arith, total-snoc vs x)

-- One more value, on a counter whose window is neither 0 nor too large for an `int`.
append-Holds :
    (w : ℕ) (history : List ℕ) (v : ℕ) (c : AvgCounter)
    → 0 < w
    → w < 2 ^ 63
    → AreU64 history
    → Holds c w history
    → (c' : AvgCounter) × (append c v ≡ some c') × Holds c' w (history ++ v ∷ [])
unfolding append
append-Holds w history v c h k u held =
    let kept = last_n (w - 1) history in
    let evicted : evict c.window_size c.vals c.sum ≡ some (kept, u64 (total kept)) =
      rw (held.sized, held.window, held.summed)
        (evict_lem w (last_n w history) h k (last_n-AreU64 w history u)
          ∙ ap (λ l. some (l, u64 (total l))) (last_n-last_n (w - 1) w history (omega arith))) in
    let grown : last_n w (history ++ v ∷ []) ≡ kept ++ v ∷ [] =
      subst (λ n. last_n n (history ++ v ∷ []) ≡ kept ++ v ∷ []) (omega arith)
        (last_n-snoc (w - 1) v history) in
    (
      record c { vals = kept ++ v ∷ []; sum = u64 (u64 (total kept) + v) },
      rw (evicted, append),
      record {
        sized = held.sized;
        window = sym grown;
        summed = rw grown (omega (arith, total-snoc kept v));
      },
    )

append_all-Holds :
    (w : ℕ) (history vs : List ℕ) (c : AvgCounter)
    → 0 < w
    → w < 2 ^ 63
    → AreU64 history
    → AreU64 vs
    → Holds c w history
    → (c' : AvgCounter) × (append_all c vs ≡ some c') × Holds c' w (history ++ vs)
unfolding append_all
append_all-Holds w history [] c h k u t held = (c, refl, rw (append-nil history) held)
append_all-Holds w history (v ∷ vs) c h k u t held =
    let (c', now, held') = append-Holds w history v c h k u held in
    let (c'', later, held'') =
      append_all-Holds w (history ++ v ∷ []) vs c' h k (All-append _ history (v ∷ []) u (t.0, tt))
        t.1 held' in
    (c'', rw (now, append_all) later, rw (← append_assoc history (v ∷ []) vs) held'')

-- A counter whose window is neither 0 nor too large for an `int` takes any history of values: it
-- holds the last ones, as many as the window has room for, and their sum modulo 2^64.
pub append_all_window :
    (w : ℕ) (history : List ℕ)
    → 0 < w
    → w < 2 ^ 63
    → AreU64 history
    → (c : AvgCounter) × (append_all (new_avg_counter w) history ≡ some c) × Holds c w history
unfolding new_avg_counter
append_all_window w history h k u = append_all-Holds w [] history (new_avg_counter w) h k tt u (
    unfold last_n total in
    record {
      sized = refl;
      window = sym (last_n_short w [] (omega arith));
      summed = ap (λ l. u64 (total l)) (sym (last_n_short w [] (omega arith)));
    })

evict_panics :
    (w : ℕ) (vals : List ℕ) (sum : ℕ)
    → w < 2 ^ 64
    → (w ≡ 0) ⊎ (2 ^ 63 ≤ w)
    → evict w vals sum ≡ none
unfolding evict
evict_panics w [] sum k h = ground arith
evict_panics w (v ∷ vals) sum k h = ground (arith, evict_panics w vals (u64 (sum + 2 ^ 64 - v)))

-- With a window of 0, or one that an `int` cannot hold, every append panics.
pub append_panics :
    (c : AvgCounter) (v : ℕ)
    → c.window_size < 2 ^ 64
    → (c.window_size ≡ 0) ⊎ (2 ^ 63 ≤ c.window_size)
    → append c v ≡ none
unfolding append
append_panics c v k h = rw (evict_panics c.window_size c.vals c.sum k h, append)
