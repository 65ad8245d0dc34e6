-- ===== src/Regex.antt =====
-- JavaScript's regular expressions, as far as src/mcp/ uses them: classes, sequences, alternatives, options,
-- greedy and lazy repetition, capture groups and the assertions `^`, `$` and `\b`. The matcher
-- tries the alternatives in JavaScript's order. The patterns written in the source are data here.
use Prim.Native.Char.{Char, code}
use whyrouted.Prelude.{
  ℕ, zero, suc, ◌+◌, ◌-◌, ◌*◌, ltb, leb, ◌==◌, String, Bool, true, false, not, ◌&&◌, ◌||◌, Option,
  none, some, List, [], ◌∷◌, ◌≡◌, refl, if◌then◌else◌,
}

pub data Regex : Type 0 where
  empty : Regex
  class : (ℕ → Bool) → Regex
  sequence either : Regex → Regex → Regex
  optional star lazy_star : Regex → Regex
  group : ℕ → Regex → Regex
  text_start text_end word_boundary : Regex

-- A place in the text: the character before it, what follows it, and the groups captured.
pub record Cursor : Type 0 where
  pub before : Option ℕ
  pub rest : String
  pub groups : List (ℕ × String)

abbrev pub size : String → ℕ
size String.[] = 0
size (String.◌∷◌ c s) = suc (size s)

abbrev pub str_take : ℕ → String → String
str_take zero s = String.[]
str_take (suc n) String.[] = String.[]
str_take (suc n) (String.◌∷◌ c s) = String.◌∷◌ c (str_take n s)

abbrev within : ℕ → ℕ → ℕ → Bool
within lo hi c = leb lo c && leb c hi

abbrev pub is_digit : ℕ → Bool
is_digit c = within 48 57 c

-- `[a-z]` under the flag `i`.
abbrev pub is_letter : ℕ → Bool
is_letter c = within 97 122 c || within 65 90 c

-- `[0-9a-f]` under the flag `i`.
abbrev pub is_hex : ℕ → Bool
is_hex c = is_digit c || within 97 102 c || within 65 70 c

-- `\w`
abbrev is_word : ℕ → Bool
is_word c = is_digit c || is_letter c || c == 95

-- `\s`, and what `trim` removes.
abbrev pub is_space : ℕ → Bool
is_space c =
    within 9 13 c
    || c == 32
    || c == 160
    || c == 0x1680
    || within 0x2000 0x200a c
    || within 0x2028 0x2029 c
    || c == 0x202f
    || c == 0x205f
    || c == 0x3000
    || c == 0xfeff

abbrev starts_word : String → Bool
starts_word String.[] = false
starts_word (String.◌∷◌ c s) = is_word (code c)

abbrev ends_word : Option ℕ → Bool
ends_word none = false
ends_word (some c) = is_word c

abbrev differ : Bool → Bool → Bool
differ a b = if a then not b else b

abbrev is_empty : String → Bool
is_empty String.[] = true
is_empty (String.◌∷◌ c s) = false

abbrev is_first : Option ℕ → Bool
is_first none = true
is_first (some c) = false

abbrev Next : Type 0
Next = Cursor → Option Cursor

-- As often as the text is long: an iteration has to take a character.
abbrev repeat : ℕ → (Cursor → Next → Option Cursor) → Cursor → Next → Option Cursor
repeat zero step c next = next c
repeat (suc n) step c next =
    elim (step c (λ d. elim (ltb (size d.rest) (size c.rest)) [
      | true ↦ repeat n step d next
      | false ↦ none
    ])) [ some d ↦ some d | none ↦ next c ]

abbrev repeat_lazily : ℕ → (Cursor → Next → Option Cursor) → Cursor → Next → Option Cursor
repeat_lazily zero step c next = next c
repeat_lazily (suc n) step c next = elim (next c) [
  | some d ↦ some d
  | none ↦ step c (λ d. elim (ltb (size d.rest) (size c.rest)) [
    | true ↦ repeat_lazily n step d next
    | false ↦ none
  ])
]

abbrev take_class : (ℕ → Bool) → Cursor → String → Next → Option Cursor
take_class p c String.[] next = none
take_class p c (String.◌∷◌ x s) next =
    if p (code x) then next (record c { before = some (code x); rest = s }) else none

unfoldable pub match : Regex → Cursor → Next → Option Cursor
match empty c next = next c
match (class p) c next = take_class p c c.rest next
match (sequence r q) c next = match r c (λ d. match q d next)
match (either r q) c next = elim (match r c next) [ some d ↦ some d | none ↦ match q c next ]
match (optional r) c next = elim (match r c next) [ some d ↦ some d | none ↦ next c ]
match (star r) c next = repeat (size c.rest) (match r) c next
match (lazy_star r) c next = repeat_lazily (size c.rest) (match r) c next
match (group n r) c next =
    match r c (λ d.
      next (record d { groups = (n, str_take (size c.rest - size d.rest) c.rest) ∷ d.groups }))
match text_start c next = if is_first c.before then next c else none
match text_end c next = if is_empty c.rest then next c else none
match word_boundary c next =
    if differ (ends_word c.before) (starts_word c.rest) then next c else none

-- The first place from here on where the pattern matches, with the whole match as group 0.
scan : Regex → Option ℕ → String → Option Cursor
unfolding match
scan r before String.[] =
    match (group 0 r) (record { before = before; rest = String.[]; groups = [] }) some
scan r before (String.◌∷◌ x s) =
    elim (match (group 0 r) (record { before = before; rest = String.◌∷◌ x s; groups = [] }) some) [
      | some d ↦ some d
      | none ↦ scan r (some (code x)) s
    ]

-- `r.exec(text)`, and `r.test(text)` where it gives a match.
unfoldable pub exec : Regex → String → Option Cursor
unfolding scan
exec r text = scan r none text

abbrev pub captured : ℕ → List (ℕ × String) → Option String
captured n [] = none
captured n ((m, s) ∷ groups) = if n == m then some s else captured n groups

abbrev pub whole : Cursor → String
whole c = elim (captured 0 c.groups) [ some s ↦ s | none ↦ "" ]

-- `text.matchAll(r)` for a pattern with no empty match: the whole matches, each from the end of the last.
matches : ℕ → Regex → Option ℕ → String → List String
unfolding scan
matches zero r before s = []
matches (suc fuel) r before s = elim (scan r before s) [
  | none ↦ []
  | some d ↦ whole d ∷ matches fuel r d.before d.rest
]

unfoldable pub match_all : Regex → String → List String
unfolding matches
match_all r text = matches (suc (size text)) r none text

-- The characters of a text, letters in either case. A pattern's letters are small.
abbrev same_letter : ℕ → ℕ → Bool
same_letter x c = c == x || (is_letter x && c + 32 == x)

abbrev pub literal : String → Regex
literal String.[] = empty
literal (String.◌∷◌ x s) = sequence (class (same_letter (code x))) (literal s)

abbrev pub plus : Regex → Regex
plus r = sequence r (star r)

abbrev pub lazy_plus : Regex → Regex
lazy_plus r = sequence r (lazy_star r)

abbrev pub times : ℕ → Regex → Regex
times zero r = empty
times (suc n) r = sequence r (times n r)

abbrev pub any_of : List Regex → Regex
any_of [] = class (λ c. false)
any_of (r ∷ []) = r
any_of (r ∷ q ∷ rs) = either r (any_of (q ∷ rs))

abbrev pub all_of : List Regex → Regex
all_of [] = empty
all_of (r ∷ []) = r
all_of (r ∷ q ∷ rs) = sequence r (all_of (q ∷ rs))

abbrev trim_start : String → String
trim_start String.[] = String.[]
trim_start (String.◌∷◌ c s) =
    let less = trim_start s in if is_space (code c) then less else String.◌∷◌ c s

abbrev trim_end : String → String
trim_end String.[] = String.[]
trim_end (String.◌∷◌ c s) =
    let kept = trim_end s in
    if is_space (code c) && is_empty kept then String.[] else String.◌∷◌ c kept

-- `text.trim()`
unfoldable pub trim : String → String
trim text = trim_end (trim_start text)

-- `Number(text)` of a text of digits.
abbrev pub digits_from : ℕ → String → ℕ
digits_from n String.[] = n
digits_from n (String.◌∷◌ c s) = digits_from (n * 10 + (code c - 48)) s

abbrev pub number_of : String → ℕ
number_of text = digits_from 0 text

abbrev nth_char : ℕ → String → Char → Char
nth_char n String.[] other = other
nth_char zero (String.◌∷◌ c s) other = c
nth_char (suc n) (String.◌∷◌ c s) other = nth_char n s other

abbrev lower_char : Char → Char
lower_char c =
    if within 65 90 (code c) then nth_char (code c - 65) "abcdefghijklmnopqrstuvwxyz" c else c

-- `text.toLowerCase()` of a text of ASCII characters.
unfoldable pub to_lower : String → String
to_lower String.[] = String.[]
to_lower (String.◌∷◌ c s) = String.◌∷◌ (lower_char c) (to_lower s)

lazy_then_s :
    exec
      (all_of (
        text_start
        ∷ group 1 (lazy_plus (class is_letter))
        ∷ optional (literal "s")
        ∷ text_end
        ∷ []))
      "Hours"
    ≡ some (record { before = some 115; rest = ""; groups = (0, "Hours") ∷ (1, "Hour") ∷ [] })
unfolding exec
lazy_then_s = refl
