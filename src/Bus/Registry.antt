-- ===== src/Bus/Registry.antt =====
-- The endpoint registry of src/bus/registry.rs. UUIDv5 is a parameter, `new_v5 namespace bytes`.
pub mod Lookup
pub mod Examples
use guigu_agent_bridge.Prelude.{
  ℕ, Option, none, some, Bool, true, false, not, List, [], ◌∷◌, Result, ok, err, if◌then◌else◌,
  is_some,
}
use guigu_agent_bridge.Prelude.Texts.{Text, codes, TextMap, get, put}
use guigu_agent_bridge.Prelude.Maps.{Map, lookup, insert, contains_key}
use guigu_agent_bridge.Models.Task.{EndpointId}
use guigu_agent_bridge.Models.Agent.{
  TransportType, EndpointAddress, AgentEndpoint, acp, matrix, http, a2a,
}
use guigu_agent_bridge.Bus.Error.{BusError, unknown_target, target_disabled, address_unavailable}

-- The fields of an agent's configuration that the registry reads (src/config.rs).
pub record AgentEndpointConfig : Type 0 where
  pub transport : TransportType
  pub enabled : Bool
  pub command : Option Text
  pub args : List Text
  pub peer : Option Text

pub record RegisteredEndpoint : Type 0 where
  pub id : EndpointId
  pub agent_id : Text
  pub transport : TransportType
  pub enabled : Bool
  pub address : Option EndpointAddress

abbrev pub is_addressable : RegisteredEndpoint → Bool
is_addressable e = is_some e.address

unfoldable pub agent_endpoint : RegisteredEndpoint → Option AgentEndpoint
agent_endpoint e = elim (e.address) [
  | none ↦ none
  | some address ↦ some (record {
    id = e.id;
    transport = e.transport;
    address = address;
    enabled = e.enabled;
    capabilities = [];
  })
]

pub record EndpointRegistry : Type 0 where
  pub by_agent_id : TextMap RegisteredEndpoint
  pub by_id : Map Text

abbrev acp_address : Option Text → List Text → Option EndpointAddress
acp_address none args = none
acp_address (some command) args = some (EndpointAddress.acp command args)

abbrev a2a_address : Option Text → Option EndpointAddress
a2a_address none = none
a2a_address (some peer) = some (EndpointAddress.a2a peer)

abbrev address_for : TransportType → AgentEndpointConfig → Option EndpointAddress
address_for TransportType.acp declared = acp_address declared.command declared.args
address_for TransportType.a2a declared = a2a_address declared.peer
address_for TransportType.matrix declared = none
address_for TransportType.http declared = none

unfoldable pub derive_address : AgentEndpointConfig → Option EndpointAddress
derive_address declared = address_for declared.transport declared

module _ (new_v5 : ℕ → Text → ℕ) (namespace_url : ℕ) where
  unfoldable pub endpoint_namespace : ℕ
  endpoint_namespace = new_v5 namespace_url (codes "guigu-agent-bridge/agent/v1")

  unfoldable pub derive_endpoint_id : Text → EndpointId
  derive_endpoint_id agent_id = new_v5 endpoint_namespace agent_id

  unfoldable pub register : Text → AgentEndpointConfig → RegisteredEndpoint
  register agent_id declared = record {
    id = derive_endpoint_id agent_id;
    agent_id = agent_id;
    transport = declared.transport;
    enabled = declared.enabled;
    address = derive_address declared;
  }

  -- The loop of `from_config` over the configured agents.
  unfoldable pub register_all : EndpointRegistry → TextMap AgentEndpointConfig → EndpointRegistry
  register_all r [] = r
  register_all r ((agent_id, declared) ∷ rest) =
      register_all
        (record {
          by_agent_id = put agent_id (register agent_id declared) r.by_agent_id;
          by_id = insert (derive_endpoint_id agent_id) agent_id r.by_id;
        })
        rest

  unfoldable pub from_config : TextMap AgentEndpointConfig → EndpointRegistry
  from_config agents = register_all (record { by_agent_id = []; by_id = [] }) agents

unfoldable pub get_by_agent_id : EndpointRegistry → Text → Option RegisteredEndpoint
get_by_agent_id r agent_id = get agent_id r.by_agent_id

unfoldable pub get_by_id : EndpointRegistry → EndpointId → Option RegisteredEndpoint
unfolding get_by_agent_id
get_by_id r id = elim (lookup id r.by_id) [
  | none ↦ none
  | some agent_id ↦ get_by_agent_id r agent_id
]

unfoldable pub resolve_agent_id : EndpointRegistry → Text → Option EndpointId
unfolding get_by_agent_id
resolve_agent_id r agent_id = elim (get_by_agent_id r agent_id) [ none ↦ none | some e ↦ some e.id ]

unfoldable pub contains : EndpointRegistry → EndpointId → Bool
contains r id = contains_key id r.by_id

-- The guards of `validate_target` on a registered endpoint.
unfoldable pub validate_endpoint :
    EndpointId → RegisteredEndpoint → Result RegisteredEndpoint BusError
validate_endpoint id endpoint =
    if not endpoint.enabled
    then err (target_disabled id)
    else if not (is_addressable endpoint)
    then err (address_unavailable id)
    else ok endpoint

unfoldable pub validate_target : EndpointRegistry → EndpointId → Result RegisteredEndpoint BusError
unfolding get_by_id validate_endpoint
validate_target r id = elim (get_by_id r id) [
  | none ↦ err (unknown_target id)
  | some endpoint ↦ validate_endpoint id endpoint
]
