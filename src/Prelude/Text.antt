-- ===== src/Prelude/Text.antt =====
-- Texts as JavaScript compares them: `===`, and `<` by UTF-16 code units.
use Prim.Native.Char.{code}
use Prim.Native.Nat.{ℕ, zero, suc, ◌+◌, ◌-◌, ◌/◌, ◌%◌}
use Prim.Native.String.{String}
use mathlib.Core.Path.{◌≡◌, refl, ap₂}
use mathlib.Core.Bool.{Bool, true, false}
use mathlib.Core.List.{List, [], ◌∷◌}
use native.Mathlib.Omega.{arith}
use text.Mathlib.TextEquality.{Char-path}
use whyrouted.Prelude.Tests.{ltb, ◌==◌, if◌then◌else◌}
use whyrouted.Prelude.Sort.{IsWeakOrder}
pub use Prim.Native.String.{◌++◌ as str_append}
pub use text.Mathlib.Text.{◌==◌ as str_eq}
pub use text.Mathlib.TextEquality.{eq_iff as str_eq_iff}
pub use text.Mathlib.TextPositions.{eq_refl as str_eq_refl}

-- The rank of a code point in the order of UTF-16: one above 0xffff is written with surrogates,
-- which come before the code units from 0xe000 on.
utf16_rank : ℕ → ℕ
utf16_rank c =
    if ltb c 0xe000
    then c
    else if ltb c 0x10000
    then c + 0x100000
    else if ltb c 0x110000
    then c - 0x2000
    else c

utf16_rank_inj : (c d : ℕ) → utf16_rank c ≡ utf16_rank d → c ≡ d
unfolding utf16_rank
utf16_rank_inj c d h = ground arith

ranks : String → List ℕ
unfolding utf16_rank
ranks String.[] = []
ranks (String.◌∷◌ c s) = utf16_rank (code c) ∷ ranks s

lex_lt : List ℕ → List ℕ → Bool
lex_lt _ [] = false
lex_lt [] (y ∷ ys) = true
lex_lt (x ∷ xs) (y ∷ ys) = if ltb x y then true else if x == y then lex_lt xs ys else false

-- `a < b` on strings.
unfoldable pub str_lt : String → String → Bool
unfolding ranks lex_lt
str_lt a b = lex_lt (ranks a) (ranks b)

lex_lt_asym : (xs ys : List ℕ) → lex_lt xs ys ≡ true → lex_lt ys xs ≡ false
unfolding lex_lt
lex_lt_asym [] [] h = refl
lex_lt_asym [] (y ∷ ys) h = refl
lex_lt_asym (x ∷ xs) [] h = cc
lex_lt_asym (x ∷ xs) (y ∷ ys) h = ground (arith, lex_lt_asym xs ys)

lex_lt_neg_trans :
    (xs ys zs : List ℕ) → lex_lt ys xs ≡ false → lex_lt zs ys ≡ false → lex_lt zs xs ≡ false
unfolding lex_lt
lex_lt_neg_trans [] ys [] h k = refl
lex_lt_neg_trans [] ys (z ∷ zs) h k = refl
lex_lt_neg_trans (x ∷ xs) [] zs h k = cc
lex_lt_neg_trans (x ∷ xs) (y ∷ ys) [] h k = cc
lex_lt_neg_trans (x ∷ xs) (y ∷ ys) (z ∷ zs) h k = ground (arith, lex_lt_neg_trans xs ys zs)

lex_lt_total : (xs ys : List ℕ) → lex_lt xs ys ≡ false → lex_lt ys xs ≡ false → xs ≡ ys
unfolding lex_lt
lex_lt_total [] [] h k = refl
lex_lt_total [] (y ∷ ys) h k = cc
lex_lt_total (x ∷ xs) [] h k = cc
lex_lt_total (x ∷ xs) (y ∷ ys) h k = ground (arith, lex_lt_total xs ys)

ranks_inj : (a b : String) → ranks a ≡ ranks b → a ≡ b
unfolding ranks
ranks_inj String.[] String.[] h = refl
ranks_inj String.[] (String.◌∷◌ d t) h = cc
ranks_inj (String.◌∷◌ c s) String.[] h = cc
ranks_inj (String.◌∷◌ c s) (String.◌∷◌ d t) h =
    ap₂ String.◌∷◌ (Char-path c d (utf16_rank_inj (code c) (code d) (cc))) (ranks_inj s t (cc))

pub str_lt-IsWeakOrder : IsWeakOrder str_lt
unfolding str_lt
str_lt-IsWeakOrder = record {
  asym = λ a b. lex_lt_asym (ranks a) (ranks b);
  neg_trans = λ a b c. lex_lt_neg_trans (ranks a) (ranks b) (ranks c);
}

pub str_lt_total : (a b : String) → str_lt a b ≡ false → str_lt b a ≡ false → a ≡ b
unfolding str_lt
str_lt_total a b h k = ranks_inj a b (lex_lt_total (ranks a) (ranks b) h k)

replica_order : str_lt "replica-10" "replica-2" ≡ true
unfolding str_lt
replica_order = refl

unfoldable pub digit : ℕ → String
digit d =
    if d == 0
    then "0"
    else if d == 1
    then "1"
    else if d == 2
    then "2"
    else if d == 3
    then "3"
    else if d == 4
    then "4"
    else if d == 5
    then "5"
    else if d == 6
    then "6"
    else if d == 7
    then "7"
    else if d == 8
    then "8"
    else "9"

unfoldable pub decimal_from : ℕ → ℕ → String → String
decimal_from zero n rest = rest
decimal_from (suc fuel) n rest =
    let text = str_append (digit (n % 10)) rest in
    let more = decimal_from fuel (n / 10) text in if n / 10 == 0 then text else more

-- A whole number in a template: `n + 1` rounds are enough for its digits.
unfoldable pub decimal : ℕ → String
unfolding decimal_from digit
decimal n = decimal_from (suc n) n ""

decimal_503 : decimal 503 ≡ "503"
unfolding decimal
decimal_503 = refl
