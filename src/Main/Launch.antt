-- ===== src/Main/Launch.antt =====
-- Main/Launch: the processes that `launchFleet` starts are the replicas that the router knows.
use whyrouted.Prelude.{
  ℕ, zero, suc, ◌+◌, ◌≤◌, ◌<◌, str_append, decimal, ◌∷◌, map, All, ok, ◌≡◌, ◌≢◌, refl, sym, ap, ◌∙◌,
  length, arith,
}
use whyrouted.Types.{Replica}
use whyrouted.Config.{pos, Config, natural, fleet_replicas, replicas_from, validate}
use whyrouted.Config.Laws.{IsUsable, validate_iff}
use whyrouted.Main.{Spawn, spawns_from, launch_fleet}

-- The replica that a process is, seen from the router.
abbrev pub served_as : Spawn → Replica
served_as s = record {
  id = s.id;
  url = str_append "http://" (str_append s.host (str_append ":" (decimal s.port)));
}

module _ (c : Config) where
  spawns-served_as :
      (n i : ℕ)
      → map served_as (spawns_from c i (replicas_from c.host (natural c.base_port) n i))
        ≡ replicas_from c.host (natural c.base_port) n i
  unfolding spawns_from replicas_from
  spawns-served_as zero i = refl
  spawns-served_as (suc n) i =
      ap
        (λ rs.
          record {
            id = str_append "replica-" (decimal (i + 1));
            url =
                str_append "http://"
                  (str_append c.host (str_append ":" (decimal (natural c.base_port + i))));
          }
          ∷ rs)
        (spawns-served_as n (i + 1))

  -- A port that can be bound and is neither of the two servers'.
  abbrev pub HasOwnPort : Spawn → Type 0
  HasOwnPort s =
      (1 ≤ s.port) × (s.port ≤ 65535) × (c.status_port ≢ pos s.port) × (c.mcp_port ≢ pos s.port)

  own_port :
      (u : IsUsable c) (p : ℕ)
      → u.base ≤ p
      → p < u.base + u.size
      → (1 ≤ p) × (p ≤ 65535) × (c.status_port ≢ pos p) × (c.mcp_port ≢ pos p)
  own_port u p lo hi =
      let (_, base_low, top) = u.base_port in
      let (status, _, _, status_apart) = u.status_port in
      let (mcp, _, _, mcp_apart) = u.mcp_port in
      (
        omega arith,
        omega arith,
        λ e. let same : u.status ≡ p = cc in omega arith,
        λ e. let same : u.mcp ≡ p = cc in omega arith,
      )

  length-spawns :
      (n i : ℕ) → length (spawns_from c i (replicas_from c.host (natural c.base_port) n i)) ≡ n
  unfolding spawns_from replicas_from
  length-spawns zero i = refl
  length-spawns (suc n) i = ap suc (length-spawns n (i + 1))

  spawns-HasOwnPort :
      (u : IsUsable c) (n i : ℕ)
      → i + n ≤ u.size
      → All HasOwnPort (spawns_from c i (replicas_from c.host (natural c.base_port) n i))
  unfolding spawns_from replicas_from
  spawns-HasOwnPort u zero i h = tt
  spawns-HasOwnPort u (suc n) i h =
      let base : natural c.base_port ≡ u.base = ap natural u.base_port.0 in
      (
        own_port u (natural c.base_port + i) (omega arith) (omega arith),
        spawns-HasOwnPort u n (i + 1) (omega arith),
      )

  -- The processes started for a valid configuration are the replicas that are registered: the same ids
  -- in the same order, each on the port that its replica's URL names. There are as many as the fleet's
  -- size, and each has a port that can be bound and is neither the API server's nor the MCP
  -- server's.
  pub launch_fleet_lem :
      validate c ≡ ok c
      → (map served_as (launch_fleet c) ≡ fleet_replicas c)
        × All HasOwnPort (launch_fleet c)
        × (c.fleet_size ≡ pos (length (launch_fleet c)))
  unfolding launch_fleet fleet_replicas
  launch_fleet_lem h =
      let u = (validate_iff c).0 h in
      let size : natural c.fleet_size ≡ u.size = ap natural u.fleet_size.0 in
      (
        spawns-served_as (natural c.fleet_size) 0,
        spawns-HasOwnPort u (natural c.fleet_size) 0 (omega arith),
        u.fleet_size.0 ∙ ap pos (sym size ∙ sym (length-spawns (natural c.fleet_size) 0)),
      )
