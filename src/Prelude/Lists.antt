-- ===== src/Prelude/Lists.antt =====
-- Lists measured by native numbers, tests on lists, and predicates on all members.
use Prim.Native.Nat.{ℕ, zero, suc, ◌+◌}
use mathlib.Core.Path.{◌≡◌, refl, sym, ap, ◌∙◌, subst}
use mathlib.Core.Logic.{inl, inr}
use mathlib.Core.Bool.{Bool, true, false, ◌||◌}
use mathlib.Core.List.{List, [], ◌∷◌, ◌++◌, Memᴰ}
use mathlib.Core.Option.{Option, none, some}
use native.Mathlib.Omega.{arith}
use whyrouted.Prelude.Tests.{if◌then◌else◌, Bool-cases}

module _ {ℓ} {A : Type ℓ} where
  abbrev pub length : List A → ℕ
  length [] = 0
  length (x ∷ xs) = suc (length xs)

  abbrev pub get_elem? : List A → ℕ → Option A
  get_elem? [] i = none
  get_elem? (x ∷ xs) zero = some x
  get_elem? (x ∷ xs) (suc i) = get_elem? xs i

  -- `filter`, `find` and `some` of an array, by a Boolean test.
  abbrev pub filter : (A → Bool) → List A → List A
  filter p [] = []
  filter p (x ∷ xs) = let rest = filter p xs in if p x then x ∷ rest else rest

  abbrev pub find? : (A → Bool) → List A → Option A
  find? p [] = none
  find? p (x ∷ xs) = if p x then some x else find? p xs

  abbrev pub any : (A → Bool) → List A → Bool
  any p [] = false
  any p (x ∷ xs) = p x || any p xs

  abbrev pub All {κ} : (A → Type κ) → List A → Type κ
  All P [] = Unit
  All P (x ∷ xs) = P x × All P xs

  pub length-append : (xs ys : List A) → length (xs ++ ys) ≡ length xs + length ys
  length-append [] ys = omega arith
  length-append (x ∷ xs) ys = omega (arith, length-append xs ys)

module _ {ℓ κ} {A : Type ℓ} (P : A → Type κ) where
  pub All-append : (xs ys : List A) → All P xs → All P ys → All P (xs ++ ys)
  All-append [] ys hx hy = hy
  All-append (x ∷ xs) ys hx hy = (hx.0, All-append xs ys hx.1 hy)

  pub All_of_mem : {a : A} (xs : List A) → All P xs → Memᴰ a xs → P a
  All_of_mem [] h m = elim m [ ]
  All_of_mem (x ∷ xs) h (Memᴰ.head e) = subst P (sym e) h.0
  All_of_mem (x ∷ xs) h (Memᴰ.tail m) = All_of_mem xs h.1 m

module _ {ℓ} {A : Type ℓ} (p : A → Bool) where
  pub filter-mem : {a : A} (xs : List A) → Memᴰ a (filter p xs) → Memᴰ a xs × (p a ≡ true)
  filter-mem [] m = elim m [ ]
  filter-mem {a} (x ∷ xs) m = elim (Bool-cases (p x)) [
    | inl e ↦ here (λ n. filter-mem xs n) e (rw e at m)
    | inr e ↦ let (n, q) = filter-mem xs (rw e at m) in (Memᴰ.tail n, q)
  ]
    where
      here :
          (Memᴰ a (filter p xs) → Memᴰ a xs × (p a ≡ true))
          → p x ≡ true
          → Memᴰ a (x ∷ filter p xs)
          → Memᴰ a (x ∷ xs) × (p a ≡ true)
      here rec e (Memᴰ.head i) = (Memᴰ.head i, ap p i ∙ e)
      here rec e (Memᴰ.tail n) = let (k, q) = rec n in (Memᴰ.tail k, q)

  pub filter-append : (xs ys : List A) → filter p (xs ++ ys) ≡ filter p xs ++ filter p ys
  filter-append [] ys = refl
  filter-append (x ∷ xs) ys = ground (arith, filter-append xs ys)

  pub mem-filter : {a : A} (xs : List A) → Memᴰ a xs → p a ≡ true → Memᴰ a (filter p xs)
  mem-filter [] m h = elim m [ ]
  mem-filter (x ∷ xs) (Memᴰ.head i) h = rw (sym (ap p i) ∙ h) (Memᴰ.head i)
  mem-filter (x ∷ xs) (Memᴰ.tail n) h = elim (Bool-cases (p x)) [
    | inl e ↦ rw e (Memᴰ.tail (mem-filter xs n h))
    | inr e ↦ rw e (mem-filter xs n h)
  ]

module _ {ℓ κ} {A : Type ℓ} (P : A → Type κ) (p : A → Bool) where
  pub All-filter : (xs : List A) → All P xs → All P (filter p xs)
  All-filter [] h = tt
  All-filter (x ∷ xs) h = ground (arith, All-filter xs h.1)

  pub find?-All : (xs : List A) (a : A) → All P xs → find? p xs ≡ some a → P a
  find?-All [] a h e = cc
  find?-All (x ∷ xs) a h e = elim (Bool-cases (p x)) [
    | inl q ↦ subst P (ground (arith, e, q)) h.0
    | inr q ↦ find?-All xs a h.1 (ground (arith, e, q))
  ]
