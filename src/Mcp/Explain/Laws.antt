-- ===== src/Mcp/Explain/Laws.antt =====
-- Mcp/Explain/Laws: no sentence of an explanation is without evidence.
use whyrouted.Prelude.{
  ℕ, suc, ◌+◌, ◌==◌, String, str_eq, true, not, Option, none, some, List, [], ◌∷◌, ◌++◌, map,
  length, get_elem?, All, All-append, All-filter, All-sort, find?-All, ◌≡◌, ◌≢◌, refl, ap, ◌∙◌,
  subst, arith, inl, inr, Bool-cases,
}
use whyrouted.Routing.Score.{CandidateScore, ExcludedCandidate}
use whyrouted.Decisions.{
  Decision, DecisionRound, FailureReason, RoundOutcome, picked, no_routable_replica,
  no_healthy_replicas,
}
use whyrouted.Mcp.Explain.{
  RoundField, in_round, ExplanationLine, is_there, has_pick, has_status, status_field, overview_of,
  has_field, found_field, resolves, overview, excluded_fields, failure_fields, Ranked, indexed,
  ranks_before, ranked, winner, others, winner_fields, others_fields, fields_of, round_line,
  round_lines, explain_decision,
}

-- A sentence cites something, and all that it cites is in the decision.
abbrev pub IsGrounded : Decision → ExplanationLine → Type 0
IsGrounded d line = (line.cites ≢ []) × All (λ c. resolves d c ≡ true) line.cites

-- A list whose part from index `k` on is `rest`.
abbrev IsPart {ℓ} : {A : Type ℓ} → List A → ℕ → List A → Type ℓ
IsPart all k [] = Unit
IsPart all k (x ∷ rest) = (get_elem? all k ≡ some x) × IsPart all (k + 1) rest

module _ (r : DecisionRound) where
  abbrev Has : RoundField → Type 0
  Has f = has_field r f ≡ true

  excluded_fields-Has :
      (k : ℕ) (es : List ExcludedCandidate)
      → IsPart r.excluded k es
      → All Has (excluded_fields k es)
  unfolding excluded_fields
  excluded_fields-Has k [] h = tt
  excluded_fields-Has k (e ∷ es) h =
      (ap is_there h.0, (ap is_there h.0, excluded_fields-Has (k + 1) es h.1))

  failure_fields-Has :
      (o : Option FailureReason) → r.failure_reason ≡ o → All Has (failure_fields o)
  failure_fields-Has none e = tt
  failure_fields-Has (some f) e = (ap is_there e, status_field-Has f.status refl)
    where
      status_field-Has : (s : Option ℕ) → f.status ≡ s → All Has (status_field s)
      status_field-Has none q = tt
      status_field-Has (some status) q = (ap has_status e ∙ ap is_there q, tt)

  -- The entry stands in the round under its index.
  abbrev IsEntry : Ranked → Type 0
  IsEntry e = get_elem? r.candidates e.1 ≡ some e.0

  indexed-IsEntry :
      (j : ℕ) (cs : List CandidateScore) → IsPart r.candidates j cs → All IsEntry (indexed j cs)
  unfolding indexed
  indexed-IsEntry j [] h = tt
  indexed-IsEntry j (c ∷ cs) h = (h.0, indexed-IsEntry (j + 1) cs h.1)

  others_fields-Has : (es : List Ranked) → All IsEntry es → All Has (others_fields es)
  unfolding others_fields
  others_fields-Has [] h = tt
  others_fields-Has (e ∷ es) h = (ap is_there h.0, (ap is_there h.0, others_fields-Has es h.1))

  module _ (whole : IsPart r.candidates 0 r.candidates) where
    ranked-IsEntry : All IsEntry (ranked r)
    ranked-IsEntry =
        All-sort ranks_before IsEntry (indexed 0 r.candidates)
          (indexed-IsEntry 0 r.candidates whole)

    others-IsEntry : (w : Option Ranked) → All IsEntry (others r w)
    others-IsEntry none = ranked-IsEntry
    others-IsEntry (some w) =
        All-filter IsEntry (λ (e : Ranked). not (e.1 == w.1)) (ranked r) ranked-IsEntry

    winner_fields-Has :
        (id : String) (w : Option Ranked) → winner id r ≡ w → All Has (winner_fields w)
    winner_fields-Has id none e = tt
    winner_fields-Has id (some w) e = (
      ap is_there (
          find?-All IsEntry (λ (x : Ranked). str_eq x.0.replica_id id) (ranked r) w ranked-IsEntry
            e),
      tt,
    )

    module _ (excluded_whole : IsPart r.excluded 0 r.excluded) where
      closing-Has :
          (fs : List RoundField)
          → All Has fs
          → All Has (fs ++ excluded_fields 0 r.excluded ++ failure_fields r.failure_reason)
      closing-Has fs h =
          All-append Has (fs ++ excluded_fields 0 r.excluded) (failure_fields r.failure_reason)
            (All-append Has fs (excluded_fields 0 r.excluded) h
              (excluded_fields-Has 0 r.excluded excluded_whole))
            (failure_fields-Has r.failure_reason refl)

      picked_fields-Has :
          (id : String)
          → All Has (winner_fields (winner id r) ++ others_fields (others r (winner id r)))
      picked_fields-Has id =
          All-append Has (winner_fields (winner id r)) (others_fields (others r (winner id r)))
            (winner_fields-Has id (winner id r) refl)
            (others_fields-Has (others r (winner id r)) (others-IsEntry (winner id r)))

      fields_of-Has : (o : RoundOutcome) → r.outcome ≡ o → All Has (fields_of r o)
      fields_of-Has no_healthy_replicas e = (refl, excluded_fields-Has 0 r.excluded excluded_whole)
      fields_of-Has no_routable_replica e = (refl, (refl, (refl, closing-Has [] tt)))
      fields_of-Has (picked id) e = (
        refl,
        (
          refl,
          (
            ap has_pick e,
            closing-Has (winner_fields (winner id r) ++ others_fields (others r (winner id r)))
                (picked_fields-Has id),
          ),
        ),
      )

module _ {ℓ} {A : Type ℓ} where
  IsPart-cons :
      (x : A) (all : List A) (k : ℕ) (rest : List A)
      → IsPart all k rest
      → IsPart (x ∷ all) (suc k) rest
  IsPart-cons x all k [] h = tt
  IsPart-cons x all k (y ∷ rest) h =
      (h.0, subst (λ n. IsPart (x ∷ all) n rest) (omega arith) (IsPart-cons x all (k + 1) rest h.1))

  IsPart-whole : (all : List A) → IsPart all 0 all
  IsPart-whole [] = tt
  IsPart-whole (x ∷ all) = (refl, IsPart-cons x all 0 all (IsPart-whole all))

module _ (d : Decision) where
  map-resolves :
      (i : ℕ) (r : DecisionRound)
      → get_elem? d.rounds i ≡ some r
      → (fs : List RoundField) → All (Has r) fs
      → All (λ c. resolves d c ≡ true) (map (in_round i) fs)
  unfolding resolves
  map-resolves i r e [] h = tt
  map-resolves i r e (f ∷ fs) h = (ap (found_field f) e ∙ h.0, map-resolves i r e fs h.1)

  fields_of_nonempty :
      (i : ℕ) (r : DecisionRound) (o : RoundOutcome) → map (in_round i) (fields_of r o) ≢ []
  fields_of_nonempty i r (picked id) = λ e. cc
  fields_of_nonempty i r no_routable_replica = λ e. cc
  fields_of_nonempty i r no_healthy_replicas = λ e. cc

  round_line-IsGrounded :
      (i : ℕ) (r : DecisionRound) → get_elem? d.rounds i ≡ some r → IsGrounded d (round_line i r)
  unfolding round_line
  round_line-IsGrounded i r e = (
    fields_of_nonempty i r r.outcome,
    map-resolves i r e (fields_of r r.outcome)
        (fields_of-Has r (IsPart-whole r.candidates) (IsPart-whole r.excluded) r.outcome refl),
  )

  round_lines-IsGrounded :
      (i : ℕ) (rs : List DecisionRound)
      → IsPart d.rounds i rs
      → All (IsGrounded d) (round_lines i rs)
  unfolding round_lines
  round_lines-IsGrounded i [] h = tt
  round_lines-IsGrounded i (r ∷ rs) h =
      (round_line-IsGrounded i r h.0, round_lines-IsGrounded (i + 1) rs h.1)

  overview_of-IsGrounded : (o : Option String) → IsGrounded d (overview_of d o)
  unfolding overview_of resolves
  overview_of-IsGrounded none = (λ e. cc, (refl, (refl, tt)))
  overview_of-IsGrounded (some id) = (λ e. cc, (refl, (refl, tt)))

  overview-IsGrounded : IsGrounded d (overview d)
  unfolding overview overview_of resolves
  overview-IsGrounded = elim (Bool-cases (length d.rounds == 0)) [
    | inl e ↦ rw e (λ q. cc, (refl, tt))
    | inr e ↦ rw e (overview_of-IsGrounded d.chosen_replica_id)
  ]

  length-round_lines : (i : ℕ) (rs : List DecisionRound) → length (round_lines i rs) ≡ length rs
  unfolding round_lines
  length-round_lines i [] = refl
  length-round_lines i (r ∷ rs) = ap suc (length-round_lines (i + 1) rs)

  -- The explanation of a decision has an overview and then one sentence for each round. Each sentence cites
  -- at least one path, and each path that a sentence cites leads to a value of that decision: the
  -- cited round exists, the cited candidate or exclusion is an entry of that round, and the picked
  -- replica, the failure and its status are cited only where they are recorded.
  pub explain-IsGrounded :
      (length (explain_decision d) ≡ suc (length d.rounds))
      × All (IsGrounded d) (explain_decision d)
  unfolding explain_decision
  explain-IsGrounded = (
    ap suc (length-round_lines 0 d.rounds),
    (overview-IsGrounded, round_lines-IsGrounded 0 d.rounds (IsPart-whole d.rounds)),
  )
