-- ===== src/Mcp/Server/Access.antt =====
-- Mcp/Server/Access: who can change anything through the MCP endpoint, and what it answers.
use whyrouted.Prelude.{
  String, true, false, Option, none, some, List, [], ◌∷◌, map, All, Memᴰ, Result, ◌≡◌, ◌⊎◌, inl,
  inr, refl, sym, ap, ◌∙◌, subst, Bool-cases,
}
use whyrouted.Http.{HttpRequest, HttpResponse, Registered, Express, replied_with}
use whyrouted.Http.Keeps.{turn_after, IsKept, serve-IsKept, json_parser-KeepsState}
use whyrouted.Mcp.Action.{ActionResult}
use whyrouted.Mcp.Dispatch.{ToolResult}
use whyrouted.Mcp.Auth.{bearer_matches, is_loopback_host, action_tools_allowed}
use whyrouted.Mcp.ToolSet.{Tool, is_action, read_tools, create_mcp_tools}
use whyrouted.Mcp.Server.{
  ToolBase, ToolDefinition, read_tool, Registration, registration, McpServer, create_mcp_server,
  McpBody, Handled, not_authorized, auth_middleware, post_outcome, mcp_routes, create_mcp_app,
}

-- What calls of registered tools can make of a state.
pub data Calls {Z A W : Type 0} (tools : List (Registration Z A W)) : W → W → Type 0 where
  no_call : {w : W} → Calls tools w w
  then_call :
      {w w' : W} {r : Registration Z A W}
      → Calls tools w w'
      → Memᴰ r tools
      → (now : String) → (args : A) → Calls tools w (r.callback now args w').1

-- The SDK's transport changes the state by calls of the server's tools only.
abbrev pub IsTransport :
    {Z A D R W : Type 0} → (McpServer Z A W → HttpRequest → Option D → W → Handled R W) → Type 0
IsTransport {Z} {A} {D} {R} {W} handle =
    (server : McpServer Z A W) (q : HttpRequest) (j : Option D) (w : W)
    → Calls server.tools w (handle server q j w).after

-- The tools that the names stand for: those that read are defined as such.
abbrev pub AreDefined : {Z A J W : Type 0} → (Tool → ToolDefinition Z A J W) → Type 0
AreDefined {Z} {A} {J} {W} define =
    (t : Tool)
    → is_action t ≡ false
    → (base : ToolBase Z) × (call : String → A → W → ToolResult J) × (define t
        ≡ read_tool base call)

-- A request with the token, where there is one; any request to a loopback address, where there is none.
abbrev pub IsAllowed :
    (String → String) → (String → String) → String → Option String → HttpRequest → Type 0
IsAllowed normalized sha256 host none q = is_loopback_host normalized host ≡ true
IsAllowed normalized sha256 host (some token) q = bearer_matches sha256 q.authorization token ≡ true

-- A registered tool that reads.
abbrev Reads : {Z A W : Type 0} → Registration Z A W → Type 0
Reads {A = A} {W = W} r = (now : String) (args : A) (w : W) → (r.callback now args w).1 ≡ w

Reads-mem :
    {Z A W : Type 0} (rs : List (Registration Z A W)) (r : Registration Z A W)
    → All Reads rs
    → Memᴰ r rs
    → Reads r
Reads-mem [] r h m = elim m [ ]
Reads-mem (x ∷ rs) r h (Memᴰ.head e) = subst Reads (sym e) h.0
Reads-mem (x ∷ rs) r h (Memᴰ.tail m) = Reads-mem rs r h.1 m

Reads-Calls :
    {Z A W : Type 0} (rs : List (Registration Z A W)) (w w' : W)
    → All Reads rs
    → Calls rs w w'
    → w' ≡ w
Reads-Calls rs w w' h no_call = refl
Reads-Calls rs w w' h (then_call {w' = v} {r = r} c m now args) =
    Reads-mem rs r h m now args v ∙ Reads-Calls rs w v h c

module _ {Z A J E D R W : Type 0} (read_text : ToolResult J → String)
    (action_text : ActionResult J → String) (sha256 : String → String)
    (json : HttpRequest → Result E (Option D))
    (handle_request : McpServer Z A W → HttpRequest → Option D → W → Handled R W)
    (x : Express (McpBody R) E D W) where
  abbrev pub endpoint :
      List (ToolDefinition Z A J W) → Option String → List (Registered (McpBody R) E D W)
  endpoint = create_mcp_app read_text action_text sha256 json handle_request

  registration-Reads :
      (define : Tool → ToolDefinition Z A J W) (t : Tool)
      → AreDefined define
      → is_action t ≡ false
      → Reads (registration read_text action_text (define t))
  registration-Reads define t defined e =
      let (base, call, same) = defined t e in
      subst (λ d. Reads (registration read_text action_text d)) (sym same) (λ now args w. refl)

  post-after :
      (thrown : Option String) (reply : Option (HttpResponse (McpBody R))) (after w : W)
      → after ≡ w
      → turn_after x w (post_outcome thrown reply after) ≡ w
  post-after none none after w h = h
  post-after none (some r) after w h = h
  post-after (some e) none after w h = h
  post-after (some e) (some r) after w h = h

  read_only :
      (define : Tool → ToolDefinition Z A J W)
      → AreDefined define
      → IsTransport handle_request
      → (q : HttpRequest) (j : Option D) (w : W)
      → (x.serve (endpoint (map define read_tools) none) q j w).after ≡ w
  unfolding create_mcp_app create_mcp_server
  read_only define defined transport q j w =
      let tools = map define read_tools in
      let server = create_mcp_server read_text action_text tools in
      let reads : All Reads server.tools = (
        registration-Reads define Tool.fleet_status defined refl,
        (
          registration-Reads define Tool.failover_history defined refl,
          (
            registration-Reads define Tool.explain_decision defined refl,
            (registration-Reads define Tool.query_decisions defined refl, tt),
          ),
        ),
      ) in
      let kept : IsKept x w (mcp_routes json (handle_request server)) =
        serve-IsKept x w (mcp_routes json (handle_request server)) (
          json_parser-KeepsState x w json,
          (
            (λ p b.
                post-after (handle_request server p b w).thrown (handle_request server p b w).reply
                  (handle_request server p b w).after w
                  (Reads-Calls server.tools w _ reads (transport server p b w))),
            ((λ p b. refl), ((λ p b. refl), tt)),
          ),
        ) in
      kept.0 q j

  pub turned_away :
      (tools : List (ToolDefinition Z A J W)) (token : String) (q : HttpRequest) (j : Option D)
      (w : W)
      → bearer_matches sha256 q.authorization token ≡ false
      → x.serve (endpoint tools (some token)) q j w ≡ replied_with not_authorized w
  unfolding create_mcp_app auth_middleware
  turned_away tools token q j w h = x.all_runs (auth_middleware sha256 token) _ q j w ∙ rw h refl

  -- With the tools that `createMcpTools` registers for the host and the token, a request to the MCP app
  -- either is allowed, by the token or, where none is set, by a loopback address, or leaves the state as
  -- it is, whatever its method, path and body. The transport is taken to change the state by calls of
  -- registered tools only, and the tools that read to be defined as such.
  pub changes-IsAllowed :
      (normalized : String → String) (define : Tool → ToolDefinition Z A J W)
      → AreDefined define
      → IsTransport handle_request
      → (host : String) (token : Option String) (q : HttpRequest) (j : Option D) (w : W)
      → IsAllowed normalized sha256 host token q
        ⊎ ((x.serve
              (endpoint (map define (create_mcp_tools normalized host token).tools) token)
              q
              j
              w).after
            ≡ w)
  unfolding create_mcp_tools action_tools_allowed
  changes-IsAllowed normalized define defined transport host none q j w =
      elim (Bool-cases (is_loopback_host normalized host)) [
        | inl near ↦ inl near
        | inr far ↦ inr (rw far (read_only define defined transport q j w))
      ]
  changes-IsAllowed normalized define defined transport host (some token) q j w =
      elim (Bool-cases (bearer_matches sha256 q.authorization token)) [
        | inl known ↦ inl known
        | inr unknown_ ↦ inr (
            ap (λ s. s.after)
              (turned_away (map define (create_mcp_tools normalized host (some token)).tools) token
                q j w unknown_))
      ]
