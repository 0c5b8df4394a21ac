-- ===== src/Bus/Registry/Examples.antt =====
-- A small configuration for src/bus/registry.rs. Derived identifiers are sums here.
use guigu_agent_bridge.Prelude.{ℕ, ◌+◌, ◌≡◌, ◌⊎◌, none, some, true, false, [], ◌∷◌, arith}
use guigu_agent_bridge.Prelude.Texts.{Text, codes, TextMap, get}
use guigu_agent_bridge.Models.Task.{EndpointId}
use guigu_agent_bridge.Models.Agent.{TransportType}
use guigu_agent_bridge.Bus.Registry.{
  AgentEndpointConfig, derive_endpoint_id, endpoint_namespace, register, from_config,
  get_by_agent_id, get_by_id, resolve_agent_id, validate_target,
}
use guigu_agent_bridge.Bus.Registry.Lookup.{
  IdsApart, declared_as, verdict, validate_target-from_config, resolve-get_by_id,
}

abbrev pub checksum : ℕ → Text → ℕ
checksum n [] = n
checksum n (b ∷ s) = checksum (n + b) s

abbrev pub coder : AgentEndpointConfig
coder = record {
  transport = TransportType.acp;
  enabled = true;
  command = some (codes "codex");
  args = [];
  peer = none;
}

abbrev remote : AgentEndpointConfig
remote = record {
  transport = TransportType.a2a;
  enabled = false;
  command = none;
  args = [];
  peer = some (codes "peer");
}

abbrev agents : TextMap AgentEndpointConfig
agents = (codes "a", coder) ∷ (codes "b", remote) ∷ []

ids_apart : IdsApart checksum 0 agents
unfolding derive_endpoint_id endpoint_namespace
ids_apart = ground arith

validate_target-from_config_example :
    validate_target (from_config checksum 0 agents) 5
    ≡ verdict checksum 0 5 (declared_as checksum 0 5 agents)
validate_target-from_config_example = validate_target-from_config checksum 0 agents 5 ids_apart

resolve-get_by_id_example :
    let r = from_config checksum 0 agents in
    let k = codes "a" in
    ((get k agents ≡ none) × (resolve_agent_id r k ≡ none))
    ⊎ ((d : AgentEndpointConfig) × (id : EndpointId) × (get k agents ≡ some d)
        × (resolve_agent_id r k ≡ some id)
        × (get_by_id r id ≡ some (register checksum 0 k d))
        × (get_by_agent_id r k ≡ get_by_id r id))
resolve-get_by_id_example = resolve-get_by_id checksum 0 agents (codes "a") ids_apart
