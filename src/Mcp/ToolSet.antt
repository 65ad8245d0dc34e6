-- ===== src/Mcp/ToolSet.antt =====
-- src/mcp/tools/index.ts and src/mcp/tools/get-fleet-status.ts: the tools that the server registers for its
-- host and token, and the lines it logs; and the tool that reads the registry. A tool is its name.
use whyrouted.Prelude.{
  String, Bool, true, false, Option, List, [], ◌∷◌, ◌++◌, map, if◌then◌else◌, ◌≡◌, ◌⊎◌, ◌↔◌, inl,
  inr, refl, Memᴰ, All_of_mem, arith, Bool-cases,
}
use whyrouted.Types.{ReplicaState, RegistrySnapshot}
use whyrouted.Registry.{Registry, get_snapshot}
use whyrouted.Mcp.Auth.{
  ActionPolicy, allowed, denied, no_token_reason, has_token, is_loopback_host, action_tools_allowed,
}
use whyrouted.Mcp.Dispatch.{ToolOutput, data_read, found_nothing, registry}

abbrev snapshot_output : RegistrySnapshot → List ReplicaState → ToolOutput RegistrySnapshot
snapshot_output snapshot [] = found_nothing "the registry has no replicas registered"
snapshot_output snapshot (r ∷ rs) = data_read snapshot registry (map (λ s. s.id) (r ∷ rs))

unfoldable pub get_fleet_status : Registry → String → ToolOutput RegistrySnapshot
get_fleet_status store now =
    let snapshot = get_snapshot store now in snapshot_output snapshot snapshot.replicas

pub data Tool : Type 0 where
  fleet_status failover_history explain_decision query_decisions : Tool
  drain restore simulate set_strategy set_weights : Tool

abbrev pub is_action : Tool → Bool
is_action fleet_status = false
is_action failover_history = false
is_action explain_decision = false
is_action query_decisions = false
is_action _ = true

abbrev pub read_tools : List Tool
read_tools = fleet_status ∷ failover_history ∷ explain_decision ∷ query_decisions ∷ []

abbrev pub action_tools : List Tool
action_tools = drain ∷ restore ∷ simulate ∷ set_strategy ∷ set_weights ∷ []

pub record McpTools : Type 0 where
  pub tools : List Tool
  pub notices : List String

module _ (normalized : String → String) where
  abbrev pub auth_banner : String → Option String → List String
  auth_banner host token =
      if has_token token
      then (if is_loopback_host normalized host
          then "auth: token required" ∷ []
          else "auth: token required" ∷ "plain http: token is readable on the network" ∷ [])
      else if is_loopback_host normalized host
      then "auth: none (loopback only)" ∷ []
      else "auth: none, read tools only (action tools are not registered)" ∷ []

  abbrev tools_of : ActionPolicy → List String → McpTools
  tools_of allowed notices = record { tools = read_tools ++ action_tools; notices = notices }
  tools_of (denied why) notices = record { tools = read_tools; notices = notices ++ why ∷ [] }

  unfoldable pub create_mcp_tools : String → Option String → McpTools
  create_mcp_tools host token =
      tools_of (action_tools_allowed normalized host token) (auth_banner host token)

  read-there : (t : Tool) → is_action t ≡ false → Memᴰ t read_tools
  read-there fleet_status h = Memᴰ.head refl
  read-there failover_history h = Memᴰ.tail (Memᴰ.head refl)
  read-there explain_decision h = Memᴰ.tail (Memᴰ.tail (Memᴰ.head refl))
  read-there query_decisions h = Memᴰ.tail (Memᴰ.tail (Memᴰ.tail (Memᴰ.head refl)))
  read-there drain h = cc
  read-there restore h = cc
  read-there simulate h = cc
  read-there set_strategy h = cc
  read-there set_weights h = cc

  mem-front : {t : Tool} (ts us : List Tool) → Memᴰ t ts → Memᴰ t (ts ++ us)
  mem-front [] us m = elim m [ ]
  mem-front (x ∷ ts) us (Memᴰ.head e) = Memᴰ.head e
  mem-front (x ∷ ts) us (Memᴰ.tail m) = Memᴰ.tail (mem-front ts us m)

  mem-back : {t : Tool} (ts us : List Tool) → Memᴰ t us → Memᴰ t (ts ++ us)
  mem-back [] us m = m
  mem-back (x ∷ ts) us m = Memᴰ.tail (mem-back ts us m)

  action-there : (t : Tool) → is_action t ≡ true → Memᴰ t action_tools
  action-there drain h = Memᴰ.head refl
  action-there restore h = Memᴰ.tail (Memᴰ.head refl)
  action-there simulate h = Memᴰ.tail (Memᴰ.tail (Memᴰ.head refl))
  action-there set_strategy h = Memᴰ.tail (Memᴰ.tail (Memᴰ.tail (Memᴰ.head refl)))
  action-there set_weights h = Memᴰ.tail (Memᴰ.tail (Memᴰ.tail (Memᴰ.tail (Memᴰ.head refl))))
  action-there fleet_status h = cc
  action-there failover_history h = cc
  action-there explain_decision h = cc
  action-there query_decisions h = cc

  read-no_action : (t : Tool) → is_action t ≡ true → ¬ Memᴰ t read_tools
  read-no_action t h m = absurd (
      ground (
        arith,
        h,
        All_of_mem (λ u. is_action u ≡ false) read_tools (refl, (refl, (refl, (refl, tt)))) m,
      ))

  -- Every tool that reads is always registered. A tool that acts is registered exactly when there is a
  -- token, which is not empty, or the host is a loopback address; and where it is not, the notices
  -- say why.
  pub create_mcp_tools_lem :
      (host : String) (token : Option String) (t : Tool)
      → (is_action t ≡ false → Memᴰ t (create_mcp_tools host token).tools)
        × (is_action t ≡ true
            → (Memᴰ t (create_mcp_tools host token).tools)
              ↔ ((has_token token ≡ true) ⊎ (is_loopback_host normalized host ≡ true)))
        × (is_action t ≡ true
            → (Memᴰ t (create_mcp_tools host token).tools)
              ⊎ Memᴰ (no_token_reason host) (create_mcp_tools host token).notices)
  unfolding create_mcp_tools action_tools_allowed
  create_mcp_tools_lem host token t = elim (Bool-cases (has_token token)) [
    | inl e ↦ rw e (
      λ h. mem-front read_tools action_tools (read-there t h),
      λ h. (λ m. inl refl, λ p. mem-back read_tools action_tools (action-there t h)),
      λ h. inl (mem-back read_tools action_tools (action-there t h)),
    )
    | inr e ↦ elim (Bool-cases (is_loopback_host normalized host)) [
      | inl l ↦
          rw (e, l)
            (
              λ h. mem-front read_tools action_tools (read-there t h),
              λ h. (λ m. inr refl, λ p. mem-back read_tools action_tools (action-there t h)),
              λ h. inl (mem-back read_tools action_tools (action-there t h)),
            )
      | inr l ↦
          rw (e, l)
            (
              λ h. read-there t h,
              λ h. (λ m. absurd (read-no_action t h m), λ p. elim p [ inl q ↦ cc | inr q ↦ cc ]),
              λ h. inr (Memᴰ.tail (Memᴰ.head refl)),
            )
    ]
  ]
