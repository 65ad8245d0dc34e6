-- ===== src/Mcp/TimeRange.antt =====
-- src/mcp/time-range.ts: the windows of time that callers write. The clock, the local time zone and what
-- JavaScript reads and prints as ISO 8601 are a `TimeReader`.
pub mod Laws
pub mod Search
use whyrouted.Prelude.{
  ℕ, ◌+◌, ◌*◌, ◌%◌, ltb, leb, ◌==◌, String, str_append, str_eq, Bool, true, false, ◌&&◌, ◌||◌,
  Option, none, some, List, [], ◌∷◌, if◌then◌else◌, Result, ok, throw,
}
use whyrouted.Regex.{
  Regex, class, sequence, to_lower, either, optional, star, group, text_start, text_end,
  word_boundary, Cursor, exec, captured, whole, literal, plus, lazy_plus, times, any_of, all_of,
  is_digit, is_letter, is_space, trim, number_of, size,
}
use whyrouted.Mcp.Patterns.{phrase_re, relative_re, iso_time, clock, pair_of, clock_re}

pub record TimeReader (T : Type 0) : Type 0 where
  -- `now()`
  pub now : T
  -- `new Date(t.getTime() - span)`
  pub minus : T → ℕ → T
  -- `toISOString`
  pub to_iso : T → String
  -- `Date.parse`, without the NaN
  pub parse : String → Option T
  -- `setHours` with the hours, minutes, seconds and milliseconds of the local time
  pub at_time : T → ℕ → ℕ → ℕ → ℕ → T
  -- `a > b` of two times
  pub is_later : T → T → Bool

-- What the table of units holds under a name: milliseconds, nothing, or what every object inherits
-- under the name of its constructor, which is not a number.
pub data UnitEntry : Type 0 where
  missing inherited : UnitEntry
  millis : ℕ → UnitEntry

unfoldable pub unit_entry : String → UnitEntry
unit_entry unit =
    if str_eq unit "second" || str_eq unit "sec"
    then millis 1000
    else if str_eq unit "minute" || str_eq unit "min"
    then millis 60000
    else if str_eq unit "hour" || str_eq unit "hr"
    then millis 3600000
    else if str_eq unit "day"
    then millis 86400000
    else if str_eq unit "constructor"
    then inherited
    else missing

unfoldable pub unit_ms : String → UnitEntry
unit_ms raw = unit_entry (to_lower raw)

-- Why there is no window: a reason to answer with, or the `RangeError` of `toISOString` on a NaN.
pub data Refusal : Type 0 where
  unreadable : String → Refusal
  range_error : Refusal

pub record Window : Type 0 where
  pub from : String
  pub to : String

-- Thirty days.
abbrev pub max_span : ℕ
max_span = 30 * 86400000

-- The two groups of `amount`, the first as a number.
abbrev count_in : Option String → Option ℕ
count_in none = none
count_in (some digits) = some (number_of (trim digits))

abbrev amount_of : Option Cursor → Option (Option ℕ × String)
amount_of none = none
amount_of (some m) = elim (captured 2 m.groups) [
  | none ↦ none
  | some unit ↦ some (count_in (captured 1 m.groups), unit)
]

unfoldable pub relative : String → Option (Option ℕ × String)
relative text = amount_of (exec phrase_re (trim text))

abbrev pub count_of : Option ℕ → ℕ
count_of none = 1
count_of (some n) = n

abbrev could_not_read : String → String → String
could_not_read phrase why =
    str_append "could not read a time range from \"" (str_append phrase (str_append "\": " why))

-- `hour` and `meridiem` of a clock time, as the hour of the day.
abbrev pub hour_of_day : ℕ → Option String → Option ℕ
hour_of_day hour none = if ltb 23 hour then none else some hour
hour_of_day hour (some meridiem) =
    if ltb hour 1 || ltb 12 hour
    then none
    else some (hour % 12 + (if str_eq (to_lower meridiem) "p" then 12 else 0))

pub data RangeSearch : Type 0 where
  no_range : RangeSearch
  ranged : Window → String → RangeSearch
  misread : String → RangeSearch

abbrev pub group_text : ℕ → Cursor → String
group_text n m = elim (captured n m.groups) [ none ↦ "" | some text ↦ text ]

abbrev group_number : ℕ → Cursor → ℕ
group_number n m = elim (captured n m.groups) [ none ↦ 0 | some digits ↦ number_of digits ]

abbrev group_count : Option String → Option ℕ
group_count none = none
group_count (some digits) = some (number_of digits)

abbrev pub too_large : Option ℕ → Bool
too_large none = false
too_large (some second) = ltb 59 second

abbrev pub second_of : Option ℕ → Bool → ℕ
second_of (some second) end_of_minute = second
second_of none end_of_minute = if end_of_minute then 59 else 0

abbrev pub milli_of : Option ℕ → Bool → ℕ
milli_of (some second) end_of_minute = 0
milli_of none end_of_minute = if end_of_minute then 999 else 0

module _ {T : Type 0} (x : TimeReader T) where
  abbrev pub span_window : ℕ → Window
  span_window span = record { from = x.to_iso (x.minus x.now span); to = x.to_iso x.now }

  abbrev pub spanned : String → ℕ → UnitEntry → Result Refusal Window
  spanned phrase count missing =
      throw
        (unreadable (could_not_read phrase "expected something like \"10 minutes\" or \"1 hour\""))
  spanned phrase count inherited =
      if ltb count 1
      then throw (unreadable (could_not_read phrase "the count must be at least 1"))
      else throw range_error
  spanned phrase count (millis ms) =
      if ltb count 1
      then throw (unreadable (could_not_read phrase "the count must be at least 1"))
      else if ltb max_span (count * ms)
      then throw (unreadable (could_not_read phrase "at most 30 days back"))
      else ok (span_window (count * ms))

  abbrev pub counted : String → Option (Option ℕ × String) → Result Refusal Window
  counted phrase none =
      throw
        (unreadable (could_not_read phrase "expected something like \"10 minutes\" or \"1 hour\""))
  counted phrase (some (count, unit)) = spanned phrase (count_of count) (unit_ms unit)

  unfoldable pub resolve_last : String → Result Refusal Window
  resolve_last phrase = counted phrase (relative phrase)

  abbrev printed : Option T → Option String
  printed none = none
  printed (some t) = some (x.to_iso t)

  unfoldable pub normalize_iso : String → Option String
  normalize_iso text = printed (x.parse (trim text))

  abbrev pub clock_at : ℕ → ℕ → Option ℕ → Option String → Bool → Option T
  clock_at hour minute second meridiem end_of_minute =
      if ltb 59 minute || too_large second then none else (elim (hour_of_day hour meridiem) [
        | none ↦ none
        | some h ↦ some (
            x.at_time x.now h minute (second_of second end_of_minute)
              (milli_of second end_of_minute))
      ])

  abbrev clock_of : Option Cursor → Bool → Option T
  clock_of none end_of_minute = none
  clock_of (some m) end_of_minute =
      clock_at (group_number 1 m) (group_number 2 m) (group_count (captured 3 m.groups))
        (captured 4 m.groups) end_of_minute

  unfoldable pub clock_ms : String → Bool → Option T
  clock_ms text end_of_minute = clock_of (exec clock_re (trim text)) end_of_minute

  abbrev pub ordered : Option T → Option T → String → Result Refusal Window
  ordered (some from) (some to) label =
      if x.is_later from to
      then throw (unreadable (could_not_read label "the start is after the end"))
      else ok (record { from = x.to_iso from; to = x.to_iso to })
  ordered _ _ label = throw (unreadable (could_not_read label "not a valid time"))

  abbrev pub searched : String → Result Refusal Window → Result String RangeSearch
  searched matched (ok window) = ok (ranged window matched)
  searched matched (throw (unreadable reason)) = ok (misread reason)
  searched matched (throw range_error) = throw "Invalid time value"

  abbrev pub in_relative : Option Cursor → Result String RangeSearch
  in_relative none = ok no_range
  in_relative (some m) = elim (unit_ms (group_text 2 m)) [
    | missing ↦ ok no_range
    | inherited ↦ searched (whole m) (resolve_last (whole m))
    | millis ms ↦ searched (whole m) (resolve_last (whole m))
  ]

  abbrev pub in_clock : String → Option Cursor → Result String RangeSearch
  in_clock text none = in_relative (exec relative_re text)
  in_clock text (some m) =
      searched (whole m)
        (ordered (clock_ms (group_text 1 m) false) (clock_ms (group_text 2 m) true) (whole m))

  abbrev pub in_iso : String → Option Cursor → Result String RangeSearch
  in_iso text none = in_clock text (exec (pair_of clock) text)
  in_iso text (some m) =
      searched (whole m) (ordered (x.parse (group_text 1 m)) (x.parse (group_text 2 m)) (whole m))

  unfoldable pub find_range : String → Result String RangeSearch
  find_range text = in_iso text (exec (pair_of iso_time) text)
