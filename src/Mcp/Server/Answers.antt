-- ===== src/Mcp/Server/Answers.antt =====
-- Mcp/Server/Answers: when a call of a tool is an error for the protocol.
use whyrouted.Prelude.{
  String, Bool, true, [], ◌∷◌, Result, ok, throw, ◌≡◌, ◌⊎◌, ◌↔◌, inl, inr, refl,
}
use whyrouted.Mcp.Action.{ActionOutput, ActionResult, FailureKind, applied, failed, perform_action}
use whyrouted.Mcp.Dispatch.{ToolOutput, ToolResult, data_read, found_nothing, bad_input, dispatch}
use whyrouted.Mcp.Server.{
  ToolBase, define_tool, define_action_tool, registration, to_call_tool_result,
  to_action_call_tool_result,
}

-- The handler of a tool threw or would not take the arguments.
abbrev pub IsReadError : {J : Type 0} → Result String (ToolOutput J) → Type 0
IsReadError out =
    ((message : String) × (out ≡ throw message))
    ⊎ ((reason : String) × (out ≡ ok (bad_input reason)))

-- The handler of an action threw or did not apply it.
abbrev pub IsActionError : {J : Type 0} → Result String (ActionOutput J) → Type 0
IsActionError out =
    ((message : String) × (out ≡ throw message))
    ⊎ ((kind : FailureKind) × (reason : String) × (out ≡ ok (failed kind reason)))

module _ {J : Type 0} where
  read-is_error :
      (text : ToolResult J → String) (now : String) (out : Result String (ToolOutput J))
      → ((to_call_tool_result text (dispatch now out)).is_error ≡ true) ↔ IsReadError out
  unfolding to_call_tool_result dispatch
  read-is_error text now (throw message) = (λ h. inl (message, refl), λ h. refl)
  read-is_error text now (ok (bad_input reason)) = (λ h. inr (reason, refl), λ h. refl)
  read-is_error text now (ok (found_nothing reason)) =
      (λ h. cc, λ h. elim h [ inl (m, e) ↦ cc | inr (m, e) ↦ cc ])
  read-is_error text now (ok (data_read t source [])) =
      (λ h. cc, λ h. elim h [ inl (m, e) ↦ cc | inr (m, e) ↦ cc ])
  read-is_error text now (ok (data_read t source (id ∷ ids))) =
      (λ h. cc, λ h. elim h [ inl (m, e) ↦ cc | inr (m, e) ↦ cc ])

  action-is_error :
      (text : ActionResult J → String) (equal : J → J → Bool) (now : String)
      (out : Result String (ActionOutput J))
      → ((to_action_call_tool_result text (perform_action equal now out)).is_error ≡ true)
        ↔ IsActionError out
  unfolding to_action_call_tool_result perform_action
  action-is_error text equal now (throw message) = (λ h. inl (message, refl), λ h. refl)
  action-is_error text equal now (ok (failed kind reason)) =
      (λ h. inr (kind, reason, refl), λ h. refl)
  action-is_error text equal now (ok (applied before after notes)) =
      (λ h. cc, λ h. elim h [ inl (m, e) ↦ cc | inr (k, m, e) ↦ cc ])

-- A call of a tool that reads leaves the state as it is, and is an error exactly when the handler threw
-- or refused its arguments: to find no records is an answer. A call of an action leaves the state that
-- its handler left, and is an error exactly when the handler threw or did not apply the action.
pub callbacks_lem :
    {Z A J W : Type 0} (read_text : ToolResult J → String) (action_text : ActionResult J → String)
    (equal : J → J → Bool) (base : ToolBase Z) (read : A → W → Result String (ToolOutput J))
    (act : A → W → Result String (ActionOutput J) × W) (now : String) (args : A) (w : W)
    → let call = (registration read_text action_text (define_tool base read)).callback now args w in
      let acted =
        (registration read_text action_text (define_action_tool equal base act)).callback now args
          w in
      ((call.0.is_error ≡ true) ↔ IsReadError (read args w))
      × (call.1 ≡ w)
      × ((acted.0.is_error ≡ true) ↔ IsActionError (act args w).0)
      × (acted.1 ≡ (act args w).1)
callbacks_lem read_text action_text equal base read act now args w = (
  read-is_error read_text now (read args w),
  refl,
  action-is_error action_text equal now (act args w).0,
  refl,
)
