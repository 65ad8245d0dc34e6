-- ===== src/Mcp/TimeRange/Search.antt =====
-- Mcp/TimeRange/Search: the windows found in a question are in order, and the hours of clock times.
use whyrouted.Prelude.{
  ℕ, ◌+◌, ◌*◌, if◌then◌else◌, ◌%◌, ◌≤◌, ◌<◌, ltb, String, str_eq, str_eq_iff, Bool, true, false,
  Option, none, some, Result, ok, throw, ◌≡◌, ◌↔◌, ◌||◌, inl, inr, refl, arith, Bool-cases,
}
use whyrouted.Regex.{Cursor, exec, to_lower, whole}
use whyrouted.Mcp.Patterns.{pair_of, clock, iso_time, relative_re}
use whyrouted.Mcp.TimeRange.{
  TimeReader, UnitEntry, missing, inherited, millis, unit_ms, Refusal, unreadable, range_error,
  Window, resolve_last, count_of, hour_of_day, ordered, no_range, ranged, searched, in_relative,
  in_clock, in_iso, group_text, clock_ms, find_range,
}
use whyrouted.Mcp.TimeRange.Laws.{Spans, resolve_last_iff}

dial :
    (hour r : ℕ) (pm : Bool)
    → ((if ltb hour 1 || ltb 12 hour then none else some (hour % 12 + (if pm then 12 else 0)))
        ≡ some r)
      ↔ ((1 ≤ hour) × (hour ≤ 12) × (r < 24) × (r % 12 ≡ hour % 12) × ((12 ≤ r) ↔ (pm ≡ true)))
dial hour r true = (
  λ h. (
    ground (arith, h),
    ground (arith, h),
    ground (arith, h),
    ground (arith, h),
    (λ k. refl, λ k. ground (arith, h)),
  ),
  λ (lo, hi, day, same, late). let k : 12 ≤ r = late.1 refl in ground (arith, k),
)
dial hour r false = (
  λ h. (
    ground (arith, h),
    ground (arith, h),
    ground (arith, h),
    ground (arith, h),
    (λ k. absurd (ground (arith, h, k)), λ k. cc),
  ),
  λ (lo, hi, day, same, late). let k : ¬ (12 ≤ r) = λ q. ff (late.0 q) in ground (arith, k),
)
  where
    ff : false ≡ true → ⊥
    ff e = cc

-- With `am` or `pm` an hour is read from 1 to 12: it stands for the hour of the day with that place on the
-- dial, before noon exactly without `pm`. Without them it is read from 0 to 23, as it is.
pub hour_of_day_lem :
    (hour r : ℕ)
    → ((hour_of_day hour none ≡ some r) ↔ ((hour < 24) × (r ≡ hour)))
      × ((meridiem : String)
          → (hour_of_day hour (some meridiem) ≡ some r) ↔ (
              (1 ≤ hour)
              × (hour ≤ 12)
              × (r < 24)
              × (r % 12 ≡ hour % 12)
              × ((12 ≤ r) ↔ (to_lower meridiem ≡ "p"))))
hour_of_day_lem hour r = (
  (λ h. (ground (arith, h), ground (arith, h)), λ h. ground (arith, h)),
  λ meridiem.
      let (to, from) = str_eq_iff (to_lower meridiem) "p" in
      let (d, e) = dial hour r (str_eq (to_lower meridiem) "p") in
      (
        λ h.
            let (lo, hi, day, same, late) = d h in
            (lo, hi, day, same, (λ k. to (late.0 k), λ k. late.1 (from k))),
        λ (lo, hi, day, same, late).
            e (lo, hi, day, same, (λ k. from (late.0 k), λ k. late.1 (to k))),
      ),
)

module _ {T : Type 0} (x : TimeReader T) where
  abbrev pub IsInOrder : Window → Type 0
  IsInOrder window =
      (a : T) × (b : T) × (window ≡ record { from = x.to_iso a; to = x.to_iso b })
      × (x.is_later a b ≡ false)

  module _ (past : (span : ℕ) → x.is_later (x.minus x.now span) x.now ≡ false) where
    Spans-IsInOrder : (phrase : String) (window : Window) → Spans x phrase window → IsInOrder window
    Spans-IsInOrder phrase window (count, unit, ms, e, q, c, b, w) =
        (x.minus x.now (count_of count * ms), x.now, w, past (count_of count * ms))

    ordered-IsInOrder :
        (a b : Option T) (label : String) (window : Window)
        → ordered x a b label ≡ ok window
        → IsInOrder window
    ordered-IsInOrder none b label window h = cc
    ordered-IsInOrder (some a) none label window h = cc
    ordered-IsInOrder (some a) (some b) label window h = elim (Bool-cases (x.is_later a b)) [
      | inl e ↦ absurd (ground (arith, h, e))
      | inr e ↦ (a, b, ground (arith, h, e), e)
    ]

    resolve_last-IsInOrder :
        (phrase : String) (window : Window) → resolve_last x phrase ≡ ok window → IsInOrder window
    resolve_last-IsInOrder phrase window h =
        Spans-IsInOrder phrase window ((resolve_last_iff x phrase window).0 h)

    module _ (window : Window) (matched : String) where
      searched-IsInOrder :
          (label : String) (r : Result Refusal Window)
          → ((w : Window) → r ≡ ok w → IsInOrder w)
          → searched x label r ≡ ok (ranged window matched)
          → IsInOrder window
      searched-IsInOrder label (ok w) k h = k window (cc)
      searched-IsInOrder label (throw (unreadable reason)) k h = cc
      searched-IsInOrder label (throw range_error) k h = cc

      in_relative-IsInOrder :
          (m : Option Cursor) → in_relative x m ≡ ok (ranged window matched) → IsInOrder window
      in_relative-IsInOrder none h = cc
      in_relative-IsInOrder (some m) h = of_unit (unit_ms (group_text 2 m)) h
        where
          of_unit :
              (o : UnitEntry)
              → elim o [
                | missing ↦ ok no_range
                | inherited ↦ searched x (whole m) (resolve_last x (whole m))
                | millis ms ↦ searched x (whole m) (resolve_last x (whole m))
              ]
                ≡ ok (ranged window matched)
              → IsInOrder window
          of_unit missing q = cc
          of_unit inherited q =
              searched-IsInOrder (whole m) (resolve_last x (whole m))
                (resolve_last-IsInOrder (whole m)) q
          of_unit (millis ms) q =
              searched-IsInOrder (whole m) (resolve_last x (whole m))
                (resolve_last-IsInOrder (whole m)) q

      in_clock-IsInOrder :
          (text : String) (m : Option Cursor)
          → in_clock x text m ≡ ok (ranged window matched)
          → IsInOrder window
      in_clock-IsInOrder text none h = in_relative-IsInOrder (exec relative_re text) h
      in_clock-IsInOrder text (some m) h =
          let a = clock_ms x (group_text 1 m) false in
          let b = clock_ms x (group_text 2 m) true in
          searched-IsInOrder (whole m) (ordered x a b (whole m)) (ordered-IsInOrder a b (whole m)) h

      in_iso-IsInOrder :
          (text : String) (m : Option Cursor)
          → in_iso x text m ≡ ok (ranged window matched)
          → IsInOrder window
      in_iso-IsInOrder text none h = in_clock-IsInOrder text (exec (pair_of clock) text) h
      in_iso-IsInOrder text (some m) h =
          let a = x.parse (group_text 1 m) in
          let b = x.parse (group_text 2 m) in
          searched-IsInOrder (whole m) (ordered x a b (whole m)) (ordered-IsInOrder a b (whole m)) h

      -- A window found in a question is printed from two times of which the first is not later than the
      -- second, provided that going back from now leads to no later time.
      pub find_range-IsInOrder :
          (text : String) → find_range x text ≡ ok (ranged window matched) → IsInOrder window
      unfolding find_range
      find_range-IsInOrder text h = in_iso-IsInOrder text (exec (pair_of iso_time) text) h
