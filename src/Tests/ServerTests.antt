-- ===== src/Tests/ServerTests.antt =====
-- The MCP app over a small transport that calls the tool whose number is the request's body.
use whyrouted.Prelude.{
  throw, ℕ, zero, suc, String, Bool, true, false, Option, none, some, List, [], ◌∷◌, map, Memᴰ,
  Result, ok, ◌≡◌, ◌⊎◌, ◌↔◌, refl,
}
use whyrouted.Registry.{Registry}
use whyrouted.Http.{post, Registered, HttpRequest, HttpResponse, Express}
use whyrouted.Api.App.{
  ApiServerDeps, some_given, all_given, AppError, needs_all_or_none, ApiBody, invalid_json_body,
  ApiCall, posts_route, CallServed, create_status_app, create_status_app_lem,
}
use whyrouted.Traffic.{Settings, Traffic, idle}
use whyrouted.Tests.RouteTests.{thresholds, world}
use whyrouted.Tests.MainTests.{stamp}
use whyrouted.Mcp.Action.{ActionOutput, ActionResult}
use whyrouted.Mcp.Actions.{ReplicaAdminState, drain_replica}
use whyrouted.Mcp.Dispatch.{ToolResult, ToolOutput, found_nothing}
use whyrouted.Mcp.ToolSet
use whyrouted.Mcp.ToolSet.{Tool, is_action, create_mcp_tools}
use whyrouted.Mcp.Server.{
  ToolBase, ToolDefinition, define_tool, define_action_tool, Registration, registration, McpServer,
  create_mcp_server, McpBody, protocol, Handled, create_mcp_app,
}
use whyrouted.Mcp.Server.Access.{
  Calls, no_call, then_call, IsTransport, AreDefined, IsAllowed, changes-IsAllowed,
}
use whyrouted.Mcp.Server.Answers.{IsReadError, IsActionError, callbacks_lem}
use whyrouted.Mcp.Server.Endpoint.{admitted, Expected, create_mcp_app_lem}
use whyrouted.Tests.Fixtures.{fleet_registry}
use whyrouted.Tests.Direct.{direct}

abbrev as_is : String → String
as_is text = text

abbrev equal_states : ReplicaAdminState → ReplicaAdminState → Bool
equal_states a b = false

abbrev base : ToolBase String
base = record { name = "tool"; description = "a tool"; input_schema = "{}" }

abbrev looks : String → Registry → Result String (ToolOutput ReplicaAdminState)
looks args store = ok (found_nothing "nothing")

abbrev drains : String → Registry → Result String (ActionOutput ReplicaAdminState) × Registry
drains args store = drain_replica store args

abbrev defined : Tool → ToolDefinition String String ReplicaAdminState Registry
defined ToolSet.drain = define_action_tool equal_states base drains
defined _ = define_tool base looks

defined-AreDefined : AreDefined defined
defined-AreDefined ToolSet.drain h = cc
defined-AreDefined ToolSet.fleet_status h = (base, _, refl)
defined-AreDefined ToolSet.failover_history h = (base, _, refl)
defined-AreDefined ToolSet.explain_decision h = (base, _, refl)
defined-AreDefined ToolSet.query_decisions h = (base, _, refl)
defined-AreDefined ToolSet.restore h = (base, _, refl)
defined-AreDefined ToolSet.simulate h = (base, _, refl)
defined-AreDefined ToolSet.set_strategy h = (base, _, refl)
defined-AreDefined ToolSet.set_weights h = (base, _, refl)

abbrev call_at : ℕ → List (Registration String String Registry) → Registry → Registry
call_at n [] store = store
call_at zero (r ∷ rs) store = (r.callback "t1" "replica-1" store).1
call_at (suc n) (r ∷ rs) store = call_at n rs store

abbrev called : Option ℕ → List (Registration String String Registry) → Registry → Registry
called none rs store = store
called (some n) rs store = call_at n rs store

abbrev transport :
    McpServer String String Registry → HttpRequest → Option ℕ → Registry → Handled String Registry
transport server q j store = record {
  reply = some (record { status = 200; challenge = none; body = protocol "done" });
  thrown = none;
  after = called j server.tools store;
}

call_at-Calls :
    (all rs : List (Registration String String Registry))
    → ((r : Registration String String Registry) → Memᴰ r rs → Memᴰ r all)
    → (n : ℕ) (store : Registry) → Calls all store (call_at n rs store)
call_at-Calls all [] within n store = no_call
call_at-Calls all (r ∷ rs) within zero store =
    then_call no_call (within r (Memᴰ.head refl)) "t1" "replica-1"
call_at-Calls all (r ∷ rs) within (suc n) store =
    call_at-Calls all rs (λ s m. within s (Memᴰ.tail m)) n store

called-Calls :
    (rs : List (Registration String String Registry)) (j : Option ℕ) (store : Registry)
    → Calls rs store (called j rs store)
called-Calls rs none store = no_call
called-Calls rs (some n) store = call_at-Calls rs rs (λ r m. m) n store

transport-IsTransport : IsTransport transport
transport-IsTransport server q j store = called-Calls server.tools j store

-- Tool 4 is the first action.
abbrev read_body : HttpRequest → Result String (Option ℕ)
read_body q = ok (some 4)

abbrev read_text : ToolResult ReplicaAdminState → String
read_text r = "read"

abbrev action_text : ActionResult ReplicaAdminState → String
action_text r = "action"

abbrev plain : HttpResponse (McpBody String)
plain = record { status = 404; challenge = none; body = protocol "none" }

abbrev express : Express (McpBody String) String ℕ Registry
express = direct plain plain

abbrev asks : Option String → HttpRequest
asks header = record { method = post; path = "/mcp"; authorization = header; text = "4" }

abbrev outsider : HttpRequest
outsider = asks (some "Bearer guess")

changes-IsAllowed_example :
    IsAllowed as_is as_is "0.0.0.0" (some "secret") outsider
    ⊎ ((express.serve
          (create_mcp_app read_text action_text as_is read_body transport
            (map defined (create_mcp_tools as_is "0.0.0.0" (some "secret")).tools)
            (some "secret"))
          outsider
          none
          fleet_registry).after
        ≡ fleet_registry)
changes-IsAllowed_example =
    changes-IsAllowed read_text action_text as_is read_body transport express as_is defined
      defined-AreDefined transport-IsTransport "0.0.0.0" (some "secret") outsider none
      fleet_registry

create_mcp_app_lem_example :
    Expected read_text action_text as_is read_body transport express
      (create_mcp_server read_text action_text (map defined ToolSet.read_tools))
      outsider
      fleet_registry
      (admitted as_is (some "secret") outsider)
      (read_body outsider)
      post
      (express.serve
        (create_mcp_app read_text action_text as_is read_body transport
          (map defined ToolSet.read_tools)
          (some "secret"))
        outsider
        none
        fleet_registry)
create_mcp_app_lem_example =
    create_mcp_app_lem read_text action_text as_is read_body transport express
      (map defined ToolSet.read_tools) (some "secret") outsider none fleet_registry refl

callbacks_lem_example :
    let call =
      (registration read_text action_text (define_tool base looks)).callback "t1" "replica-1"
        fleet_registry in
    let acted =
      (registration read_text action_text (define_action_tool equal_states base drains)).callback
        "t1" "replica-1" fleet_registry in
    ((call.0.is_error ≡ true) ↔ IsReadError (looks "replica-1" fleet_registry))
    × (call.1 ≡ fleet_registry)
    × ((acted.0.is_error ≡ true) ↔ IsActionError (drains "replica-1" fleet_registry).0)
    × (acted.1 ≡ (drains "replica-1" fleet_registry).1)
callbacks_lem_example =
    callbacks_lem read_text action_text equal_states base looks drains "t1" "replica-1"
      fleet_registry

abbrev complete : ApiServerDeps
complete = record {
  engine = true;
  adapter = true;
  scheduler = true;
  failover_log = true;
  decision_log = true;
}

abbrev garbled : HttpRequest → Result String (Option ℕ)
garbled q = throw "Unexpected token"

abbrev of_body : String → Bool
of_body e = true

abbrev no_page : HttpResponse ApiBody
no_page = record { status = 404; challenge = none; body = invalid_json_body }

abbrev api_express : Express ApiBody String ℕ (Traffic String)
api_express = direct no_page no_page

abbrev settings : Settings
settings = record {
  thresholds = thresholds;
  log_options = record { unhealthy_threshold = 3; healthy_threshold = 3 };
  max_retries = 2;
}

abbrev posted : HttpRequest
posted = record { method = post; path = "/route"; authorization = none; text = "{" }

abbrev app_of :
    ApiServerDeps → Result AppError (List (Registered ApiBody String ℕ (Traffic String)))
app_of = create_status_app settings "t1" "request-1" stamp garbled of_body

abbrev posts : ApiCall posted
posts = posts_route refl refl

create_status_app_lem_example :
    ((app_of complete ≡ throw needs_all_or_none)
      × (some_given complete ≡ true)
      × (all_given complete ≡ false))
    ⊎ ((app : List (Registered ApiBody String ℕ (Traffic String))) × (app_of complete ≡ ok app)
        × (some_given complete ≡ all_given complete)
        × CallServed settings "t1" "request-1" stamp garbled of_body api_express
            (all_given complete)
            posted
            posts
            none
            (idle world)
            (api_express.serve app posted none (idle world)))
create_status_app_lem_example =
    create_status_app_lem settings "t1" "request-1" stamp garbled of_body api_express complete
      posted posts none (idle world)
