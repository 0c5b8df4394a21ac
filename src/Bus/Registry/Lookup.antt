-- ===== src/Bus/Registry/Lookup.antt =====
-- The two indexes of src/bus/registry.rs, and the configuration that they were built from.
use guigu_agent_bridge.Prelude.{
  ℕ, ◌≡◌, ◌≢◌, ◌⊎◌, refl, Option, none, some, Bool, false, not, [], ◌∷◌, Result, ok, err,
  if◌then◌else◌, ◌==◌, is_some, All, arith, inl, inr, Option-cases,
}
use guigu_agent_bridge.Prelude.Texts.{Text, TextMap, get, put, get-put, text_eq_iff, text_eq_refl}
use guigu_agent_bridge.Prelude.Maps.{lookup, insert, lookup-insert}
use guigu_agent_bridge.Models.Task.{EndpointId}
use mathlib.Core.Option
use guigu_agent_bridge.Models.Agent.{TransportType, acp, matrix, http, a2a}
use guigu_agent_bridge.Bus.Error.{BusError, unknown_target, target_disabled, address_unavailable}
use guigu_agent_bridge.Bus.Registry.{
  AgentEndpointConfig, RegisteredEndpoint, EndpointRegistry, derive_endpoint_id, register,
  register_all, from_config, get_by_agent_id, get_by_id, resolve_agent_id, validate_target,
  derive_address,
}

abbrev empty : EndpointRegistry
empty = record { by_agent_id = []; by_id = [] }

lookup_empty : (id : EndpointId) → lookup {V = Text} id [] ≡ none
unfolding lookup
lookup_empty id = refl

get_empty : (k : Text) → get {V = RegisteredEndpoint} k [] ≡ none
unfolding get
get_empty k = refl

-- The transports that a bus task can be sent over, with the field that each needs.
abbrev reachable_over : TransportType → AgentEndpointConfig → Bool
reachable_over acp d = is_some d.command
reachable_over a2a d = is_some d.peer
reachable_over matrix d = false
reachable_over http d = false

abbrev pub reachable : AgentEndpointConfig → Bool
reachable d = reachable_over d.transport d

reachable-address : (d : AgentEndpointConfig) → is_some (derive_address d) ≡ reachable d
unfolding derive_address
reachable-address d = ground arith

module _ (new_v5 : ℕ → Text → ℕ) (namespace_url : ℕ) where
  -- No two declared agents share a derived identifier.
  abbrev pub IdsApart : TextMap AgentEndpointConfig → Type 0
  IdsApart [] = Unit {0}
  IdsApart ((a, d) ∷ rest) =
      All
        (λ p.
          derive_endpoint_id new_v5 namespace_url p.0 ≢ derive_endpoint_id new_v5 namespace_url a)
        rest
      × IdsApart rest

  -- The declared agent with this identifier, read from the configuration alone.
  abbrev pub declared_as :
      EndpointId → TextMap AgentEndpointConfig → Option (Text × AgentEndpointConfig)
  declared_as id [] = none
  declared_as id ((a, d) ∷ rest) =
      if derive_endpoint_id new_v5 namespace_url a == id then some (a, d) else declared_as id rest

  abbrev by_id_after : Option (Text × AgentEndpointConfig) → Option Text → Option Text
  by_id_after none before = before
  by_id_after (some p) before = some p.0

  abbrev by_agent_after :
      Text → Option AgentEndpointConfig → Option RegisteredEndpoint → Option RegisteredEndpoint
  by_agent_after k none before = before
  by_agent_after k (some d) before = some (register new_v5 namespace_url k d)

  declared_as-apart :
      (id : EndpointId) (rest : TextMap AgentEndpointConfig)
      → All (λ p. derive_endpoint_id new_v5 namespace_url p.0 ≢ id) rest
      → declared_as id rest ≡ none
  declared_as-apart id [] h = refl
  declared_as-apart id ((b, d) ∷ rest) h = ground (arith, declared_as-apart id rest h.1)

  get-apart :
      (a : Text) (rest : TextMap AgentEndpointConfig)
      → All
          (λ p.
            derive_endpoint_id new_v5 namespace_url p.0 ≢ derive_endpoint_id new_v5 namespace_url a)
          rest
      → get a rest ≡ none
  unfolding get
  get-apart a [] h = refl
  get-apart a ((b, d) ∷ rest) h = ground (arith, get-apart a rest h.1, text_eq_iff b a)

  by_id-register_all :
      (r : EndpointRegistry) (agents : TextMap AgentEndpointConfig) (id : EndpointId)
      → IdsApart agents
      → lookup id (register_all new_v5 namespace_url r agents).by_id
        ≡ by_id_after (declared_as id agents) (lookup id r.by_id)
  unfolding register_all
  by_id-register_all r [] id h = refl
  by_id-register_all r ((a, d) ∷ rest) id h = ground (
    arith,
    by_id-register_all
        (record {
          by_agent_id = put a (register new_v5 namespace_url a d) r.by_agent_id;
          by_id = insert (derive_endpoint_id new_v5 namespace_url a) a r.by_id;
        })
        rest id h.1,
    declared_as-apart (derive_endpoint_id new_v5 namespace_url a) rest h.0,
    lookup-insert (derive_endpoint_id new_v5 namespace_url a) id a r.by_id,
  )

  by_agent_id-register_all :
      (r : EndpointRegistry) (agents : TextMap AgentEndpointConfig) (k : Text)
      → IdsApart agents
      → get k (register_all new_v5 namespace_url r agents).by_agent_id
        ≡ by_agent_after k (get k agents) (get k r.by_agent_id)
  unfolding register_all get
  by_agent_id-register_all r [] k h = refl
  by_agent_id-register_all r ((a, d) ∷ rest) k h = ground (
    arith,
    by_agent_id-register_all
        (record {
          by_agent_id = put a (register new_v5 namespace_url a d) r.by_agent_id;
          by_id = insert (derive_endpoint_id new_v5 namespace_url a) a r.by_id;
        })
        rest k h.1,
    get-apart a rest h.0,
    get-put a k (register new_v5 namespace_url a d) r.by_agent_id,
    text_eq_iff a k,
  )

  declared_as_found :
      (id : EndpointId) (agents : TextMap AgentEndpointConfig) (k : Text) (d : AgentEndpointConfig)
      → declared_as id agents ≡ some (k, d)
      → (derive_endpoint_id new_v5 namespace_url k ≡ id) × (get k agents ≡ some d)
  unfolding get
  declared_as_found id [] k d h = ground arith
  declared_as_found id ((a, c) ∷ rest) k d h =
      ground (arith, declared_as_found id rest k d, text_eq_iff a k, text_eq_refl k)

  apart_of_get :
      (id : EndpointId) (rest : TextMap AgentEndpointConfig) (k : Text) (d : AgentEndpointConfig)
      → All (λ p. derive_endpoint_id new_v5 namespace_url p.0 ≢ id) rest
      → get k rest ≡ some d
      → derive_endpoint_id new_v5 namespace_url k ≢ id
  unfolding get
  apart_of_get id [] k d h e = ground arith
  apart_of_get id ((b, c) ∷ rest) k d h e =
      ground (arith, apart_of_get id rest k d h.1, text_eq_iff b k)

  declared_as_of_get :
      (agents : TextMap AgentEndpointConfig) (k : Text) (d : AgentEndpointConfig)
      → IdsApart agents
      → get k agents ≡ some d
      → declared_as (derive_endpoint_id new_v5 namespace_url k) agents ≡ some (k, d)
  unfolding get
  declared_as_of_get [] k d h e = ground arith
  declared_as_of_get ((a, c) ∷ rest) k d h e = ground (
    arith,
    declared_as_of_get rest k d h.1,
    text_eq_iff a k,
    apart_of_get (derive_endpoint_id new_v5 namespace_url a) rest k d h.0,
  )

  get_by_id_lem :
      (agents : TextMap AgentEndpointConfig) (id : EndpointId)
      → IdsApart agents
      → get_by_id (from_config new_v5 namespace_url agents) id
        ≡ Option.map (λ p. register new_v5 namespace_url p.0 p.1) (declared_as id agents)
  unfolding get_by_id from_config
  get_by_id_lem agents id h = elim (Option-cases (declared_as id agents)) [
    | inl e ↦ ground (arith, e, by_id-register_all empty agents id h, lookup_empty id)
    | inr (p, e) ↦ ground (
      arith,
      e,
      by_id-register_all empty agents id h,
      by_agent_id-register_all empty agents p.0 h,
      declared_as_found id agents p.0 p.1,
    )
  ]

  -- What the configuration alone says of a task's target.
  abbrev pub verdict :
      EndpointId → Option (Text × AgentEndpointConfig) → Result RegisteredEndpoint BusError
  verdict id none = err (unknown_target id)
  verdict id (some p) =
      if not p.1.enabled
      then err (target_disabled id)
      else if reachable p.1
      then ok (register new_v5 namespace_url p.0 p.1)
      else err (address_unavailable id)

  -- For a configuration whose agents have distinct derived identifiers, a target is validated
  -- exactly as the configuration says: unknown if no agent has the identifier, then disabled, then
  -- unavailable unless it is an ACP agent with a command or an A2A agent with a peer, and otherwise
  -- accepted with the entry registered for that agent.
  pub validate_target-from_config :
      (agents : TextMap AgentEndpointConfig) (id : EndpointId)
      → IdsApart agents
      → validate_target (from_config new_v5 namespace_url agents) id
        ≡ verdict id (declared_as id agents)
  unfolding validate_target register
  validate_target-from_config agents id h = elim (Option-cases (declared_as id agents)) [
    | inl e ↦ ground (arith, e, get_by_id_lem agents id h)
    | inr (p, e) ↦ ground (arith, e, get_by_id_lem agents id h, reachable-address p.1)
  ]

  -- For such a configuration, the identifier resolved for an agent leads back to its entry, and only
  -- declared agents are resolved.
  pub resolve-get_by_id :
      (agents : TextMap AgentEndpointConfig) (k : Text)
      → IdsApart agents
      → let r = from_config new_v5 namespace_url agents in
        ((get k agents ≡ none) × (resolve_agent_id r k ≡ none))
        ⊎ ((d : AgentEndpointConfig) × (id : EndpointId) × (get k agents ≡ some d)
            × (resolve_agent_id r k ≡ some id)
            × (get_by_id r id ≡ some (register new_v5 namespace_url k d))
            × (get_by_agent_id r k ≡ get_by_id r id))
  unfolding resolve_agent_id register from_config
  resolve-get_by_id agents k h = elim (Option-cases (get k agents)) [
    | inl e ↦ inl (e, ground (arith, by_agent_id-register_all empty agents k h, get_empty k))
    | inr (d, e) ↦
        let found = declared_as_of_get agents k d h e in
        let entry = by_agent_id-register_all empty agents k h in
        let back = get_by_id_lem agents (derive_endpoint_id new_v5 namespace_url k) h in
        inr (
          d,
          derive_endpoint_id new_v5 namespace_url k,
          e,
          ground arith,
          ground arith,
          ground arith,
        )
  ]
