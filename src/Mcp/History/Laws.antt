-- ===== src/Mcp/History/Laws.antt =====
-- Mcp/History/Laws: which arguments have a window, and what the tool gives for it.
use whyrouted.Prelude.{
  String, false, Option, none, some, List, [], ◌∷◌, map, Result, ok, throw, ◌≡◌, ◌≢◌, ◌⊎◌, inl, inr,
  refl, sym, ap, ◌∙◌, arith, Bool-cases, Option-cases, Result-cases, subst,
}
use whyrouted.Timeline.{Range}
use whyrouted.Events.{FailoverEvent, query}
use whyrouted.Mcp.TimeRange.{
  TimeReader, Refusal, unreadable, range_error, Window, resolve_last, normalize_iso,
}
use whyrouted.Mcp.TimeRange.Laws.{
  Spans, IsInherited, resolve_last_iff, resolve_last-range_error_iff,
}
use whyrouted.Mcp.Dispatch.{ToolOutput, data_read, found_nothing, bad_input, failover_log}
use whyrouted.Mcp.History.{
  HistoryArgs, range_of, is_inverted, read_bound, bounded, read_range, event_id, found, history_of,
  get_failover_history,
}

module _ {T : Type 0} (x : TimeReader T) where
  -- The bound that an optional argument stands for.
  abbrev pub IsBound : Option String → Option String → Type 0
  IsBound none b = b ≡ none
  IsBound (some value) b = (iso : String) × (b ≡ some iso) × (normalize_iso x value ≡ some iso)

  -- The windows that `last`, `from` and `to` stand for.
  pub data Reads (last from to : Option String) : Range → Type 0 where
    last_span :
        (phrase : String) (window : Window)
        → last ≡ some phrase
        → from ≡ none
        → to ≡ none
        → Spans x phrase window
        → Reads last from to (record { from = some window.from; to = some window.to })
    two_bounds :
        (f t : Option String)
        → last ≡ none
        → IsBound from f
        → IsBound to t
        → is_inverted f t ≡ false
        → Reads last from to (record { from = f; to = t })

  last-Reads :
      (phrase : String) (r : Result Refusal Window) (range : Range)
      → resolve_last x phrase ≡ r
      → range_of r ≡ ok range
      → Reads (some phrase) none none range
  last-Reads phrase (throw refusal) range e h = cc
  last-Reads phrase (ok window) range e h =
      subst (Reads (some phrase) none none)
        (let p : record { from = some window.from; to = some window.to } ≡ range = cc in p)
        (last_span phrase window refl refl refl ((resolve_last_iff x phrase window).0 e))

  read_bound-IsBound :
      (key : String) (value b : Option String) → read_bound x key value ≡ ok b → IsBound value b
  read_bound-IsBound key none b h = cc
  read_bound-IsBound key (some value) b h = elim (Option-cases (normalize_iso x value)) [
    | inl e ↦ absurd (ground (arith, h, e))
    | inr (iso, e) ↦ (iso, ground (arith, h, e), e)
  ]

  bounded-Reads :
      (from to : Option String) (range : Range) (f t : Result Refusal (Option String))
      → read_bound x "from" from ≡ f
      → read_bound x "to" to ≡ t
      → bounded f t ≡ ok range
      → Reads none from to range
  bounded-Reads from to range (throw reason) t e q h = cc
  bounded-Reads from to range (ok f) (throw reason) e q h = cc
  bounded-Reads from to range (ok f) (ok t) e q h = elim (Bool-cases (is_inverted f t)) [
    | inl b ↦ absurd (ground (arith, h, b))
    | inr b ↦
        subst (Reads none from to)
          (let p : record { from = f; to = t } ≡ range = ground (arith, h, b) in p)
          (two_bounds f t refl (read_bound-IsBound "from" from f e) (read_bound-IsBound "to" to t q)
            b)
  ]

  read_range-Reads :
      (last from to : Option String) (range : Range)
      → read_range x last from to ≡ ok range
      → Reads last from to range
  unfolding read_range
  read_range-Reads none from to range h =
      bounded-Reads from to range (read_bound x "from" from) (read_bound x "to" to) refl refl h
  read_range-Reads (some phrase) none none range h =
      last-Reads phrase (resolve_last x phrase) range refl h
  read_range-Reads (some phrase) none (some to) range h = cc
  read_range-Reads (some phrase) (some from) to range h = cc

  IsBound-read_bound :
      (key : String) (value b : Option String) → IsBound value b → read_bound x key value ≡ ok b
  IsBound-read_bound key none b h = ap ok (sym h)
  IsBound-read_bound key (some value) b (iso, h, e) = rw e (ap ok (sym h))

  Reads-read_range :
      (last from to : Option String) (range : Range)
      → Reads last from to range
      → read_range x last from to ≡ ok range
  unfolding read_range
  Reads-read_range last from to range (last_span phrase window l f t e) =
      rw (l, f, t, (resolve_last_iff x phrase window).1 e) refl
  Reads-read_range last from to range (two_bounds f t l hf ht b) =
      rw (l, IsBound-read_bound "from" from f hf, IsBound-read_bound "to" to t ht, b) refl

  found-branches :
      (range : Range) (events : List FailoverEvent)
      → ((events ≡ [])
          × (reason : String) × (◌≡◌ {A = Result String (ToolOutput (Range × List FailoverEvent))}
              (ok (found range events))
              (ok (found_nothing reason))))
        ⊎ ((events ≢ [])
            × (◌≡◌ {A = Result String (ToolOutput (Range × List FailoverEvent))}
                (ok (found range events))
                (ok (data_read (range, events) failover_log (map event_id events)))))
  found-branches range [] = inl (refl, _, refl)
  found-branches range (e ∷ es) = inr (λ q. cc, refl)

  -- Only `last` is given, as a positive count of a unit whose name every object inherits.
  abbrev pub Fails : Option String → Option String → Option String → Type 0
  Fails last from to =
      (phrase : String) × (last ≡ some phrase) × (from ≡ none) × (to ≡ none) × IsInherited x phrase

  last-Fails :
      (phrase : String) (r : Result Refusal Window)
      → resolve_last x phrase ≡ r
      → range_of r ≡ throw range_error
      → Fails (some phrase) none none
  last-Fails phrase (ok window) e h = cc
  last-Fails phrase (throw (unreadable reason)) e h = cc
  last-Fails phrase (throw range_error) e h =
      (phrase, refl, refl, refl, (resolve_last-range_error_iff x phrase).0 e)

  read_bound-range_error :
      (key : String) (value : Option String) → read_bound x key value ≢ throw range_error
  read_bound-range_error key none h = cc
  read_bound-range_error key (some value) h = ground (arith, h)

  bounded-range_error :
      (f t : Result Refusal (Option String))
      → bounded f t ≡ throw range_error
      → (f ≡ throw range_error) ⊎ (t ≡ throw range_error)
  bounded-range_error (throw range_error) t h = inl refl
  bounded-range_error (throw (unreadable reason)) t h = cc
  bounded-range_error (ok f) (throw range_error) h = inr refl
  bounded-range_error (ok f) (throw (unreadable reason)) h = cc
  bounded-range_error (ok f) (ok t) h = absurd (ground (arith, h))

  read_range-range_error :
      (last from to : Option String)
      → read_range x last from to ≡ throw range_error
      → Fails last from to
  unfolding read_range
  read_range-range_error none from to h =
      elim (bounded-range_error (read_bound x "from" from) (read_bound x "to" to) h) [
        | inl e ↦ absurd (read_bound-range_error "from" from e)
        | inr e ↦ absurd (read_bound-range_error "to" to e)
      ]
  read_range-range_error (some phrase) none none h =
      last-Fails phrase (resolve_last x phrase) refl h
  read_range-range_error (some phrase) none (some to) h = cc
  read_range-range_error (some phrase) (some from) to h = cc

  Fails-read_range :
      (last from to : Option String)
      → Fails last from to
      → read_range x last from to ≡ throw range_error
  unfolding read_range
  Fails-read_range last from to (phrase, l, f, t, i) =
      rw (l, f, t, (resolve_last-range_error_iff x phrase).1 i) refl

  -- What the tool gives where the arguments stand for no window.
  abbrev pub IsDeclined :
      HistoryArgs → Result String (ToolOutput (Range × List FailoverEvent)) → Type 0
  IsDeclined args out =
      ((¬ Fails args.last args.from args.to) × (reason : String) × (out ≡ ok (bad_input reason)))
      ⊎ (Fails args.last args.from args.to × (out ≡ throw "Invalid time value"))

  declined :
      (log : List FailoverEvent) (args : HistoryArgs) (refusal : Refusal)
      → read_range x args.last args.from args.to ≡ throw refusal
      → IsDeclined args (history_of log (read_range x args.last args.from args.to))
  declined log args (unreadable reason) e = inl (
    λ i. unreadable-range_error reason (sym e ∙ Fails-read_range args.last args.from args.to i),
    reason,
    rw e,
  )
    where
      unreadable-range_error :
          (why : String)
          → ◌≢◌ {A = Result Refusal Range} (throw (unreadable why)) (throw range_error)
      unreadable-range_error why q = cc
  declined log args range_error e = inr (read_range-range_error args.last args.from args.to e, rw e)

  ok-throw :
      (range : Range) (refusal : Refusal)
      → ◌≢◌ {A = Result Refusal Range} (ok range) (throw refusal)
  ok-throw range refusal e = cc

  -- Either the arguments stand for a window, which is then the range queried: an answer carries that
  -- window, all that the failover log has in it and the ids of just those events, and is given exactly
  -- when there is such an event. Or they stand for none, and then the input is refused, except that the
  -- tool throws exactly when only `last` is given, as a positive count of the unit "constructor". They
  -- stand for a window when only `last` is given, as a positive count of a known unit (one, if no count
  -- is written) of at most thirty days, which ends now; or when `last` is not given, each given bound
  -- is a time, and `from` is not after `to`.
  pub get_failover_history_lem :
      (log : List FailoverEvent) (args : HistoryArgs)
      → ((range : Range) × Reads args.last args.from args.to range
          × (((query range log ≡ [])
                × (reason : String) × (get_failover_history x log args ≡ ok (found_nothing reason)))
              ⊎ ((query range log ≢ [])
                  × (get_failover_history x log args
                      ≡ ok (
                          data_read
                            (range, query range log)
                            failover_log
                            (map event_id (query range log)))))))
        ⊎ (((range : Range) → ¬ Reads args.last args.from args.to range)
            × IsDeclined args (get_failover_history x log args))
  unfolding get_failover_history
  get_failover_history_lem log args =
      elim (Result-cases (read_range x args.last args.from args.to)) [
        | inl (range, e) ↦ inl (
          range,
          read_range-Reads args.last args.from args.to range e,
          rw e (found-branches range (query range log)),
        )
        | inr (refusal, e) ↦ inr (
          λ range r.
              ok-throw range refusal
                (sym (Reads-read_range args.last args.from args.to range r) ∙ e),
          declined log args refusal e,
        )
      ]
