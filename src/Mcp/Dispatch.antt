-- ===== src/Mcp/Dispatch.antt =====
-- src/mcp/types.ts: the wrapper around every tool that reads. What the handler returned or threw is an
-- argument, and so is the clock.
use whyrouted.Prelude.{
  String, str_append, List, [], ◌∷◌, Result, ok, throw, ◌≡◌, ◌≢◌, ◌⊎◌, inl, inr, refl,
}

pub data GroundingSource : Type 0 where
  registry failover_log decision_log : GroundingSource

pub record Grounding : Type 0 where
  pub source : GroundingSource
  pub queried_at : String
  pub record_ids : List String

pub data ToolFailureCode : Type 0 where
  no_data invalid_input internal_error : ToolFailureCode

pub data ToolResult (T : Type 0) : Type 0 where
  answered : T → Grounding → ToolResult T
  refused : ToolFailureCode → String → ToolResult T

pub data ToolOutput (T : Type 0) : Type 0 where
  data_read : T → GroundingSource → List String → ToolOutput T
  found_nothing : String → ToolOutput T
  bad_input : String → ToolOutput T

abbrev pub source_text : GroundingSource → String
source_text registry = "registry"
source_text failover_log = "failover_log"
source_text decision_log = "decision_log"

module _ {T : Type 0} where
  unfoldable pub dispatch : String → Result String (ToolOutput T) → ToolResult T
  dispatch now (throw message) = refused internal_error message
  dispatch now (ok (found_nothing reason)) = refused no_data reason
  dispatch now (ok (bad_input reason)) = refused invalid_input reason
  dispatch now (ok (data_read t source [])) =
      refused no_data (str_append "no records found in " (source_text source))
  dispatch now (ok (data_read t source (id ∷ ids))) =
      answered t (record { source = source; queried_at = now; record_ids = id ∷ ids })

  -- An answer is never without records: it is what the handler read, with the records that it named, of
  -- which there is at least one; and every other outcome, a throw included, is a refusal.
  pub dispatch_lem :
      (now : String) (out : Result String (ToolOutput T))
      → ((t : T) × (g : Grounding) × (dispatch now out ≡ answered t g)
          × (out ≡ ok (data_read t g.source g.record_ids))
          × (g.record_ids ≢ [])
          × (g.queried_at ≡ now))
        ⊎ ((code : ToolFailureCode) × (reason : String) × (dispatch now out ≡ refused code reason)
            × ((t : T) (source : GroundingSource) (id : String) (ids : List String)
                → out ≢ ok (data_read t source (id ∷ ids))))
  unfolding dispatch
  dispatch_lem now (throw message) = inr (internal_error, message, refl, λ t s i l e. cc)
  dispatch_lem now (ok (found_nothing reason)) = inr (no_data, reason, refl, λ t s i l e. cc)
  dispatch_lem now (ok (bad_input reason)) = inr (invalid_input, reason, refl, λ t s i l e. cc)
  dispatch_lem now (ok (data_read t source [])) =
      inr (no_data, str_append "no records found in " (source_text source), refl, λ u s i l e. cc)
  dispatch_lem now (ok (data_read t source (id ∷ ids))) = inl (
    t,
    record { source = source; queried_at = now; record_ids = id ∷ ids },
    refl,
    refl,
    (λ e. cc),
    refl,
  )
