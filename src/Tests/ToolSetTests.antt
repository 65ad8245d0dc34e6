-- ===== src/Tests/ToolSetTests.antt =====
-- The tools of a server on an open address without a token.
use whyrouted.Prelude.{String, none, [], ◌≡◌, refl}
use whyrouted.Registry.{get_snapshot}
use whyrouted.Mcp.Auth.{is_loopback_host, action_tools_allowed}
use whyrouted.Mcp.Dispatch.{found_nothing}
use whyrouted.Mcp.ToolSet.{read_tools, create_mcp_tools, get_fleet_status}

abbrev as_is : String → String
as_is host = host

open_address_reads : (create_mcp_tools as_is "0.0.0.0" none).tools ≡ read_tools
unfolding create_mcp_tools action_tools_allowed is_loopback_host
open_address_reads = refl

empty_fleet :
    get_fleet_status (record { replicas = [] }) "t1"
    ≡ found_nothing "the registry has no replicas registered"
unfolding get_fleet_status get_snapshot
empty_fleet = refl
