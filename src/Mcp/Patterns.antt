-- ===== src/Mcp/Patterns.antt =====
-- src/mcp/time-range.ts: its regular expressions, for the matcher of Regex, where a letter stands for both cases.
use whyrouted.Prelude.{◌==◌, ◌||◌, [], ◌∷◌}
use whyrouted.Regex.{
  Regex, class, sequence, either, optional, star, group, text_start, text_end, word_boundary,
  literal, plus, lazy_plus, times, any_of, all_of, is_digit, is_letter, is_space,
}

abbrev pub digit : Regex
digit = class is_digit

abbrev pub spaces : Regex
spaces = plus (class is_space)

abbrev pub colon : Regex
colon = literal ":"

-- `(?:last|past|previous)\s+`
abbrev pub last_word : Regex
last_word = sequence (any_of (literal "last" ∷ literal "past" ∷ literal "previous" ∷ [])) spaces

-- `(\d+\s*)?([a-z]+?)s?`
abbrev pub amount : Regex
amount = all_of (
    optional (group 1 (sequence (plus digit) (star (class is_space))))
    ∷ group 2 (lazy_plus (class is_letter))
    ∷ optional (literal "s")
    ∷ [])

-- `/^(?:(?:last|past|previous)\s+)?(\d+\s*)?([a-z]+?)s?$/i`
abbrev pub phrase_re : Regex
phrase_re = all_of (text_start ∷ optional last_word ∷ amount ∷ text_end ∷ [])

-- `/\b(?:last|past|previous)\s+(\d+\s*)?([a-z]+?)s?\b/i`
abbrev pub relative_re : Regex
relative_re = all_of (word_boundary ∷ last_word ∷ amount ∷ word_boundary ∷ [])

-- `\d{4}-\d{2}-\d{2}T\d{2}:\d{2}(?::\d{2}(?:\.\d+)?)?(?:Z|[+-]\d{2}:?\d{2})?`
abbrev pub iso_time : Regex
iso_time = all_of (
    times 4 digit
    ∷ literal "-"
    ∷ times 2 digit
    ∷ literal "-"
    ∷ times 2 digit
    ∷ literal "t"
    ∷ times 2 digit
    ∷ colon
    ∷ times 2 digit
    ∷ optional
        (all_of (colon ∷ times 2 digit ∷ optional (sequence (literal ".") (plus digit)) ∷ []))
    ∷ optional (
        either (literal "z") (
          all_of (
            class (λ c. c == 43 || c == 45) ∷ times 2 digit ∷ optional colon ∷ times 2 digit ∷ [])))
    ∷ [])

abbrev pub one_or_two_digits : Regex
one_or_two_digits = sequence digit (optional digit)

abbrev pub a_or_p : Regex
a_or_p = either (literal "a") (literal "p")

-- `\d{1,2}:\d{2}(?::\d{2})?(?:\s*[ap]m)?`
abbrev pub clock : Regex
clock = all_of (
    one_or_two_digits
    ∷ colon
    ∷ times 2 digit
    ∷ optional (sequence colon (times 2 digit))
    ∷ optional (all_of (star (class is_space) ∷ a_or_p ∷ literal "m" ∷ []))
    ∷ [])

-- `\b(?:between|from)\s+(t)\s+(?:and|to)\s+(t)`
abbrev pub pair_of : Regex → Regex
pair_of t = all_of (
    word_boundary
    ∷ either (literal "between") (literal "from")
    ∷ spaces
    ∷ group 1 t
    ∷ spaces
    ∷ either (literal "and") (literal "to")
    ∷ spaces
    ∷ group 2 t
    ∷ [])

-- `/^(\d{1,2}):(\d{2})(?::(\d{2}))?(?:\s*([ap])m)?$/i`
abbrev pub clock_re : Regex
clock_re = all_of (
    text_start
    ∷ group 1 one_or_two_digits
    ∷ colon
    ∷ group 2 (times 2 digit)
    ∷ optional (sequence colon (group 3 (times 2 digit)))
    ∷ optional (all_of (star (class is_space) ∷ group 4 a_or_p ∷ literal "m" ∷ []))
    ∷ text_end
    ∷ [])
