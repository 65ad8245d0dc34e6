-- ===== src/Mcp/Server.antt =====
-- src/mcp/server.ts and the middleware of src/mcp/auth.ts: the tools as the protocol sees them, and the HTTP app
-- that serves them. The MCP SDK's transport, Express and JSON.stringify are arguments; listening is I/O.
pub mod Access
pub mod Answers
pub mod Endpoint
use whyrouted.Prelude.{
  String, Bool, true, false, Option, none, some, List, [], ◌∷◌, map, Result, ok, throw, Memᴰ,
  if◌then◌else◌,
}
use whyrouted.Config.{ℤ, negsuc}
use whyrouted.Http.{
  get, post, delete, HttpRequest, HttpResponse, Turn, passed, sent, silent, Registered, on_all,
  on_route, json_parser,
}
use whyrouted.Mcp.Action
use whyrouted.Mcp.Action.{ActionResult, ActionOutput, perform_action}
use whyrouted.Mcp.Dispatch
use whyrouted.Mcp.Dispatch.{ToolResult, ToolOutput, no_data, dispatch}
use whyrouted.Mcp.Auth.{bearer_matches}

-- `input_schema` is the SDK's own.
pub record ToolBase (Z : Type 0) : Type 0 where
  pub name : String
  pub description : String
  pub input_schema : Z

-- A call takes the reading of the clock, the arguments and the state; only an action leaves another state.
pub data ToolDefinition (Z A J W : Type 0) : Type 0 where
  read_tool : ToolBase Z → (String → A → W → ToolResult J) → ToolDefinition Z A J W
  action_tool : ToolBase Z → (String → A → W → ActionResult J × W) → ToolDefinition Z A J W

abbrev pub define_tool :
    {Z A J W : Type 0}
    → ToolBase Z
    → (A → W → Result String (ToolOutput J))
    → ToolDefinition Z A J W
define_tool base handler = read_tool base (λ now args w. dispatch now (handler args w))

abbrev performed :
    {J W : Type 0}
    → (J → J → Bool)
    → String
    → Result String (ActionOutput J) × W
    → ActionResult J × W
performed equal now (out, w) = (perform_action equal now out, w)

abbrev pub define_action_tool :
    {Z A J W : Type 0}
    → (J → J → Bool)
    → ToolBase Z
    → (A → W → Result String (ActionOutput J) × W)
    → ToolDefinition Z A J W
define_action_tool equal base handler =
    action_tool base (λ now args w. performed equal now (handler args w))

-- One block of text.
pub record CallToolResult : Type 0 where
  pub text : String
  pub is_error : Bool

abbrev is_failure : {J : Type 0} → ToolResult J → Bool
is_failure (Dispatch.answered t g) = false
is_failure (Dispatch.refused no_data reason) = false
is_failure (Dispatch.refused code reason) = true

abbrev is_refused : {J : Type 0} → ActionResult J → Bool
is_refused (Action.succeeded changed before after at notes) = false
is_refused (Action.refused code reason) = true

pub record Registration (Z A W : Type 0) : Type 0 where
  pub base : ToolBase Z
  pub callback : String → A → W → CallToolResult × W

pub record McpServer (Z A W : Type 0) : Type 0 where
  pub name : String
  pub version : String
  pub tools : List (Registration Z A W)

unfoldable pub to_call_tool_result :
    {J : Type 0} → (ToolResult J → String) → ToolResult J → CallToolResult
to_call_tool_result read_text result = record {
  text = read_text result;
  is_error = is_failure result;
}

unfoldable pub to_action_call_tool_result :
    {J : Type 0} → (ActionResult J → String) → ActionResult J → CallToolResult
to_action_call_tool_result action_text result = record {
  text = action_text result;
  is_error = is_refused result;
}

abbrev action_answer :
    {J W : Type 0} → (ActionResult J → String) → ActionResult J × W → CallToolResult × W
action_answer action_text (result, w) = (to_action_call_tool_result action_text result, w)

-- `read_text` and `action_text` are JSON.stringify.
module _ {Z A J W : Type 0} (read_text : ToolResult J → String)
    (action_text : ActionResult J → String) where
  abbrev pub registration : ToolDefinition Z A J W → Registration Z A W
  registration (read_tool base call) = record {
    base = base;
    callback = λ now args w. (to_call_tool_result read_text (call now args w), w);
  }
  registration (action_tool base call) = record {
    base = base;
    callback = λ now args w. action_answer action_text (call now args w);
  }

  unfoldable pub create_mcp_server : List (ToolDefinition Z A J W) → McpServer Z A W
  create_mcp_server tools = record {
    name = "whyrouted";
    version = "0.1.0";
    tools = map registration tools;
  }

-- The bodies of the endpoint's answers: the middleware's, JSON-RPC errors without an id, and what the
-- transport sends, of type `R`.
pub data McpBody (R : Type 0) : Type 0 where
  unauthorized : McpBody R
  rpc_error : ℤ → String → McpBody R
  protocol : R → McpBody R

-- What `connect` and `handleRequest` have done: the answer sent, if any, the error thrown, if any.
pub record Handled (R W : Type 0) : Type 0 where
  pub reply : Option (HttpResponse (McpBody R))
  pub thrown : Option String
  pub after : W

abbrev pub not_authorized : {R : Type 0} → HttpResponse (McpBody R)
not_authorized = record { status = 401; challenge = some "Bearer"; body = unauthorized }

abbrev pub method_not_allowed : {R : Type 0} → HttpResponse (McpBody R)
method_not_allowed = record {
  status = 405;
  challenge = none;
  body = rpc_error (negsuc 31999) "Method not allowed.";
}

abbrev pub internal_error : {R : Type 0} → HttpResponse (McpBody R)
internal_error = record {
  status = 500;
  challenge = none;
  body = rpc_error (negsuc 32602) "Internal server error";
}

module _ {E D R W : Type 0} where
  unfoldable pub auth_middleware :
      (String → String) → String → HttpRequest → Option D → W → Turn (McpBody R) E D W
  auth_middleware sha256 token q j w =
      if bearer_matches sha256 q.authorization token then passed j w else sent not_authorized w

  abbrev post_outcome :
      Option String → Option (HttpResponse (McpBody R)) → W → Turn (McpBody R) E D W
  post_outcome none none w = silent w
  post_outcome none (some r) w = sent r w
  post_outcome (some e) (some r) w = sent r w
  post_outcome (some e) none w = sent internal_error w

  abbrev post_turn : Handled R W → Turn (McpBody R) E D W
  post_turn h = post_outcome h.thrown h.reply h.after

  abbrev with_auth :
      (String → String)
      → Option String
      → List (Registered (McpBody R) E D W)
      → List (Registered (McpBody R) E D W)
  with_auth sha256 none routes = routes
  with_auth sha256 (some token) routes = on_all (auth_middleware sha256 token) ∷ routes

  -- `handle` is the transport over a new server.
  abbrev pub mcp_routes :
      (HttpRequest → Result E (Option D))
      → (HttpRequest → Option D → W → Handled R W)
      → List (Registered (McpBody R) E D W)
  mcp_routes json handle =
      json_parser json
      ∷ on_route post "/mcp" (λ q j w. post_turn (handle q j w))
      ∷ on_route get "/mcp" (λ q j w. sent method_not_allowed w)
      ∷ on_route delete "/mcp" (λ q j w. sent method_not_allowed w)
      ∷ []

module _ {Z A J E D R W : Type 0} (read_text : ToolResult J → String)
    (action_text : ActionResult J → String) (sha256 : String → String)
    (json : HttpRequest → Result E (Option D))
    (handle_request : McpServer Z A W → HttpRequest → Option D → W → Handled R W) where
  unfoldable pub create_mcp_app :
      List (ToolDefinition Z A J W) → Option String → List (Registered (McpBody R) E D W)
  create_mcp_app tools token =
      with_auth sha256 token
        (mcp_routes json (handle_request (create_mcp_server read_text action_text tools)))
