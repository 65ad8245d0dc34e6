-- ===== src/Mcp/Action.antt =====
-- src/mcp/action.ts: the wrapper around every action. What the handler returned or threw is an argument,
-- and so are `isDeepStrictEqual`, which is Node's, and the clock.
use whyrouted.Prelude.{String, Bool, not, Option, none, some, List, Result, ok, throw}

pub data FailureKind : Type 0 where
  unknown_replica invalid_input unsupported : FailureKind

pub data ActionFailureCode : Type 0 where
  declined : FailureKind → ActionFailureCode
  internal_error : ActionFailureCode

-- `notes` that are absent or empty are the empty list.
pub data ActionResult (S : Type 0) : Type 0 where
  succeeded : Option Bool → Option S → S → String → List String → ActionResult S
  refused : ActionFailureCode → String → ActionResult S

pub data ActionOutput (S : Type 0) : Type 0 where
  applied : Option S → S → List String → ActionOutput S
  failed : FailureKind → String → ActionOutput S

module _ {S : Type 0} where
  abbrev changed : (S → S → Bool) → Option S → S → Option Bool
  changed equal none after = none
  changed equal (some before) after = some (not (equal before after))

  unfoldable pub perform_action :
      (S → S → Bool) → String → Result String (ActionOutput S) → ActionResult S
  perform_action equal now (throw message) = refused internal_error message
  perform_action equal now (ok (failed kind reason)) = refused (declined kind) reason
  perform_action equal now (ok (applied before after notes)) =
      succeeded (changed equal before after) before after now notes
