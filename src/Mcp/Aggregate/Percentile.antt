-- ===== src/Mcp/Aggregate/Percentile.antt =====
-- Mcp/Aggregate/Percentile: a nearest-rank percentile is an observed value, and the right one.
use whyrouted.Prelude.{
  ℕ, zero, suc, ◌+◌, ◌-◌, ◌*◌, ◌/◌, ◌<◌, ◌≤◌, ltb, leb, false, some, List, [], ◌∷◌, length,
  get_elem?, filter, All, IsSorted, Memᴰ, ◌≡◌, refl, subst, arith, if◌then◌else◌,
}
use native.Mathlib.Nat.{one-le-mul, mul-le-mul_right}
use whyrouted.Mcp.Aggregate.{Asked, p50, p95, p99, percent, rank, nearest_rank}

abbrev pub count_le : ℕ → List ℕ → ℕ
count_le v xs = length (filter (λ x. leb x v) xs)

abbrev pub count_lt : ℕ → List ℕ → ℕ
count_lt v xs = length (filter (λ x. ltb x v) xs)

get_elem?-some :
    (xs : List ℕ) (i : ℕ) → i < length xs → (v : ℕ) × (get_elem? xs i ≡ some v) × Memᴰ v xs
get_elem?-some [] i h = elim h [ ]
get_elem?-some (x ∷ xs) zero h = (x, refl, Memᴰ.head refl)
get_elem?-some (x ∷ xs) (suc i) h =
    let (v, e, m) = get_elem?-some xs i (omega arith) in (v, e, Memᴰ.tail m)

get_elem?-above :
    (x : ℕ) (xs : List ℕ) (i v : ℕ)
    → All (λ y. ltb y x ≡ false) xs
    → get_elem? xs i ≡ some v
    → x ≤ v
get_elem?-above x [] i v h e = cc
get_elem?-above x (y ∷ ys) zero v h e = ground arith
get_elem?-above x (y ∷ ys) (suc i) v h e = get_elem?-above x ys i v h.1 e

count_lt-zero : (v : ℕ) (xs : List ℕ) → All (λ y. ltb y v ≡ false) xs → count_lt v xs ≡ 0
count_lt-zero v [] h = refl
count_lt-zero v (x ∷ xs) h = rw h.0 (count_lt-zero v xs h.1)

some-inj : {a b : ℕ} → some a ≡ some b → a ≡ b
some-inj e = cc

-- In an ascending list, more than `i` values are at most the one at `i`, and at most `i` are below it.
at_rank :
    (xs : List ℕ) (i v : ℕ)
    → IsSorted ltb xs
    → get_elem? xs i ≡ some v
    → (i + 1 ≤ count_le v xs) × (count_lt v xs ≤ i)
at_rank [] i v s e = cc
at_rank (x ∷ xs) zero v s e =
    subst (λ w. (1 ≤ count_le w (x ∷ xs)) × (count_lt w (x ∷ xs) ≤ 0)) (some-inj e)
      (ground arith, ground (arith, count_lt-zero x xs s.0))
at_rank (x ∷ xs) (suc i) v s e =
    let above = get_elem?-above x xs i v s.0 e in
    let (more, less) = at_rank xs i v s.1 e in ground arith

rank_at :
    (m n : ℕ)
    → 1 ≤ m
    → m ≤ 100 * n
    → let k = (m + 99) / 100 in
      let r = if ltb k 1 then 1 else k in (1 ≤ r) × (r ≤ n) × (m ≤ 100 * r) × (100 * (r - 1) < m)
rank_at m n low high =
    let k = (m + 99) / 100 in
    let b : ltb k 1 ≡ false = ground arith in
    rw b (omega arith, omega arith, omega arith, omega arith)

percent-bounds : (p : Asked) → (1 ≤ percent p) × (percent p ≤ 100)
percent-bounds p50 = (omega arith, omega arith)
percent-bounds p95 = (omega arith, omega arith)
percent-bounds p99 = (omega arith, omega arith)

rank-bounds :
    (p : Asked) (n : ℕ)
    → 0 < n
    → (1 ≤ rank p n)
      × (rank p n ≤ n)
      × (percent p * n ≤ 100 * rank p n)
      × (100 * (rank p n - 1) < percent p * n)
rank-bounds p n some_there =
    let (low, high) = percent-bounds p in
    rank_at (percent p * n) n (one-le-mul low some_there) (mul-le-mul_right n high)

-- Of an ascending sample that is not empty, and for each of the percentages 50, 95 and 99 that the program
-- asks for, the result is one of its values: at least that share of them are at most as large, and
-- fewer than that are smaller.
pub nearest_rank_lem :
    (xs : List ℕ) (p : Asked)
    → IsSorted ltb xs
    → 0 < length xs
    → (v : ℕ) × (nearest_rank xs p ≡ some v)
      × Memᴰ v xs
      × (percent p * length xs ≤ 100 * count_le v xs)
      × (100 * count_lt v xs < percent p * length xs)
unfolding nearest_rank
nearest_rank_lem xs p s some_there =
    let (one, top, enough, tight) = rank-bounds p (length xs) some_there in
    let (v, e, m) = get_elem?-some xs (rank p (length xs) - 1) (omega arith) in
    let (more, less) = at_rank xs (rank p (length xs) - 1) v s e in
    (v, e, m, omega arith, omega arith)
