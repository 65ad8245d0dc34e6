-- ===== src/Mcp/TimeRange/Laws.antt =====
-- Mcp/TimeRange/Laws: what the phrases and the pairs of times stand for.
use whyrouted.Prelude.{
  ℕ, ◌*◌, ◌≤◌, ltb, String, str_eq, str_eq_iff, Option, none, some, ok, throw, ◌≡◌, ◌↔◌, inl, inr,
  refl, arith, Bool-cases,
}
use whyrouted.Regex.{to_lower}
use whyrouted.Mcp.TimeRange.{
  TimeReader, UnitEntry, missing, inherited, millis, unit_entry, unit_ms, range_error, Window,
  max_span, relative, count_of, span_window, spanned, counted, resolve_last,
}

unit_ms-inherited : (unit : String) → unit_ms unit ≡ inherited → to_lower unit ≡ "constructor"
unfolding unit_ms unit_entry
unit_ms-inherited unit h = elim (Bool-cases (str_eq (to_lower unit) "constructor")) [
  | inl e ↦ (str_eq_iff (to_lower unit) "constructor").0 e
  | inr e ↦ absurd (ground (arith, h, e))
]

inherited-unit_ms : (unit : String) → to_lower unit ≡ "constructor" → unit_ms unit ≡ inherited
unfolding unit_ms unit_entry
inherited-unit_ms unit h = rw h

module _ {T : Type 0} (x : TimeReader T) where
  -- The phrase is a positive count of a known unit, one if no count is written, of at most thirty
  -- days; the window is that long and ends now.
  abbrev pub Spans : String → Window → Type 0
  Spans phrase window =
      (count : Option ℕ) × (unit : String) × (ms : ℕ) × (relative phrase ≡ some (count, unit))
      × (unit_ms unit ≡ millis ms)
      × (1 ≤ count_of count)
      × (count_of count * ms ≤ max_span)
      × (window ≡ span_window x (count_of count * ms))

  -- The phrase is a positive count of a unit whose name every object inherits, so that its span is not
  -- a number.
  abbrev pub IsInherited : String → Type 0
  IsInherited phrase =
      (count : Option ℕ) × (unit : String) × (relative phrase ≡ some (count, unit))
      × (to_lower unit ≡ "constructor")
      × (1 ≤ count_of count)

  spanned-Spans :
      (phrase : String) (count : Option ℕ) (unit : String) (o : UnitEntry) (window : Window)
      → relative phrase ≡ some (count, unit)
      → unit_ms unit ≡ o
      → spanned x phrase (count_of count) o ≡ ok window
      → Spans phrase window
  spanned-Spans phrase count unit missing window e q h = cc
  spanned-Spans phrase count unit inherited window e q h = absurd (ground (arith, h))
  spanned-Spans phrase count unit (millis ms) window e q h =
      elim (Bool-cases (ltb (count_of count) 1)) [
        | inl c ↦ absurd (ground (arith, h, c))
        | inr c ↦ elim (Bool-cases (ltb max_span (count_of count * ms))) [
          | inl b ↦ absurd (ground (arith, h, c, b))
          | inr b ↦
              (count, unit, ms, e, q, ground (arith, c), ground (arith, b), ground (arith, h, c, b))
        ]
      ]

  counted-Spans :
      (phrase : String) (o : Option (Option ℕ × String)) (window : Window)
      → relative phrase ≡ o
      → counted x phrase o ≡ ok window
      → Spans phrase window
  counted-Spans phrase none window e h = cc
  counted-Spans phrase (some (count, unit)) window e h =
      spanned-Spans phrase count unit (unit_ms unit) window e refl h

  Spans-counted :
      (phrase : String) (window : Window)
      → Spans phrase window
      → counted x phrase (relative phrase) ≡ ok window
  Spans-counted phrase window (count, unit, ms, e, q, c, b, w) = rw (e, q, w) (ground (arith, c, b))

  -- `resolve_last` gives a window exactly where the phrase spans it.
  pub resolve_last_iff :
      (phrase : String) (window : Window)
      → (resolve_last x phrase ≡ ok window) ↔ Spans phrase window
  unfolding resolve_last
  resolve_last_iff phrase window =
      (counted-Spans phrase (relative phrase) window refl, Spans-counted phrase window)

  spanned-range_error :
      (phrase : String) (count : ℕ) (o : UnitEntry)
      → spanned x phrase count o ≡ throw range_error
      → (o ≡ inherited) × (1 ≤ count)
  spanned-range_error phrase count missing h = cc
  spanned-range_error phrase count inherited h = (refl, ground (arith, h))
  spanned-range_error phrase count (millis ms) h = absurd (ground (arith, h))

  counted-range_error :
      (phrase : String) (o : Option (Option ℕ × String))
      → relative phrase ≡ o
      → counted x phrase o ≡ throw range_error
      → IsInherited phrase
  counted-range_error phrase none e h = cc
  counted-range_error phrase (some (count, unit)) e h =
      let (q, c) = spanned-range_error phrase (count_of count) (unit_ms unit) h in
      (count, unit, e, unit_ms-inherited unit q, c)

  IsInherited-counted :
      (phrase : String)
      → IsInherited phrase
      → counted x phrase (relative phrase) ≡ throw range_error
  IsInherited-counted phrase (count, unit, e, u, c) =
      rw (e, inherited-unit_ms unit u) (ground (arith, c))

  -- It throws exactly where the span is not a number.
  pub resolve_last-range_error_iff :
      (phrase : String) → (resolve_last x phrase ≡ throw range_error) ↔ IsInherited phrase
  unfolding resolve_last
  resolve_last-range_error_iff phrase =
      (counted-range_error phrase (relative phrase) refl, IsInherited-counted phrase)
