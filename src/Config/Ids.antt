-- ===== src/Config/Ids.antt =====
-- Config/Ids: the ids that `fleetReplicas` gives are distinct, since a number can be read back from its
-- decimal text.
use Prim.Native.Char.{Char, code}
use text.Mathlib.TextLemmas.{cons-append, nil-append, append_cancel_left}
use whyrouted.Prelude.{
  ℕ, zero, suc, ◌+◌, ◌-◌, ◌*◌, ◌/◌, ◌%◌, ◌<◌, ◌==◌, String, str_append, decimal, digit,
  decimal_from, ◌≡◌, refl, sym, ap, ◌∙◌, arith, Bool-cases, inl, inr,
}
use whyrouted.Regex.{digits_from, number_of}

digit_char : (d : ℕ) → d < 10 → (c : Char) × (digit d ≡ String.◌∷◌ c String.[]) × (code c ≡ 48 + d)
unfolding digit
digit_char zero h = ("0", refl, refl)
digit_char (suc zero) h = ("1", refl, refl)
digit_char (suc (suc zero)) h = ("2", refl, refl)
digit_char (suc (suc (suc zero))) h = ("3", refl, refl)
digit_char (suc (suc (suc (suc zero)))) h = ("4", refl, refl)
digit_char (suc (suc (suc (suc (suc zero))))) h = ("5", refl, refl)
digit_char (suc (suc (suc (suc (suc (suc zero)))))) h = ("6", refl, refl)
digit_char (suc (suc (suc (suc (suc (suc (suc zero))))))) h = ("7", refl, refl)
digit_char (suc (suc (suc (suc (suc (suc (suc (suc zero)))))))) h = ("8", refl, refl)
digit_char (suc (suc (suc (suc (suc (suc (suc (suc (suc zero))))))))) h = ("9", refl, refl)
digit_char (suc (suc (suc (suc (suc (suc (suc (suc (suc (suc d)))))))))) h = absurd (omega arith)

-- A digit that is read first is the last one of the number so far.
digits_from-digit :
    (acc d : ℕ) (rest : String)
    → d < 10
    → digits_from acc (str_append (digit d) rest) ≡ digits_from (acc * 10 + d) rest
digits_from-digit acc d rest h =
    let (c, e, k) = digit_char d h in
    ap (λ t. digits_from acc (str_append t rest)) e
    ∙ ap (digits_from acc) (cons-append c String.[] rest ∙ ap (String.◌∷◌ c) (nil-append rest))
    ∙ ap (λ n. digits_from (acc * 10 + (n - 48)) rest) k
    ∙ ap (λ n. digits_from n rest) (omega arith)

digits_from-decimal_from :
    (fuel n : ℕ) (rest : String)
    → n < fuel
    → digits_from 0 (decimal_from fuel n rest) ≡ digits_from n rest
unfolding decimal_from
digits_from-decimal_from zero n rest h = absurd (omega arith)
digits_from-decimal_from (suc fuel) n rest h = elim (Bool-cases (n / 10 == 0)) [
  | inl e ↦ rw e (
      digits_from-digit 0 (n % 10) rest (omega arith)
      ∙ ap (λ k. digits_from k rest) (ground (arith, e)))
  | inr e ↦ rw e (
      digits_from-decimal_from fuel (n / 10) (str_append (digit (n % 10)) rest) (ground (arith, e))
      ∙ digits_from-digit (n / 10) (n % 10) rest (omega arith)
      ∙ ap (λ k. digits_from k rest) (omega arith))
]

-- The number that a decimal text stands for is the one that was printed.
pub number_of-decimal : (n : ℕ) → number_of (decimal n) ≡ n
unfolding decimal
number_of-decimal n = digits_from-decimal_from (suc n) n "" (omega arith)

pub decimal_inj : (m n : ℕ) → decimal m ≡ decimal n → m ≡ n
decimal_inj m n e = sym (number_of-decimal m) ∙ ap number_of e ∙ number_of-decimal n

-- The id of the replica at index `i`, from 0.
abbrev pub id_at : ℕ → String
id_at i = str_append "replica-" (decimal (i + 1))

pub id_at_inj : (i j : ℕ) → id_at i ≡ id_at j → i ≡ j
id_at_inj i j e = omega (
  arith,
  decimal_inj (i + 1) (j + 1) (append_cancel_left "replica-" (decimal (i + 1)) (decimal (j + 1)) e),
)
