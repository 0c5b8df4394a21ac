-- ===== src/Models/Agent.antt =====
-- Endpoints: src/models/agent.rs.
use guigu_agent_bridge.Prelude.{List, Bool}
use guigu_agent_bridge.Prelude.Texts.{Text}
use guigu_agent_bridge.Models.Task.{EndpointId}

pub data TransportType : Type 0 where
  acp matrix http a2a : TransportType

pub data EndpointAddress : Type 0 where
  acp : Text → List Text → EndpointAddress
  matrix : Text → EndpointAddress
  http : Text → EndpointAddress
  a2a : Text → EndpointAddress

pub record AgentEndpoint : Type 0 where
  pub id : EndpointId
  pub transport : TransportType
  pub address : EndpointAddress
  pub enabled : Bool
  pub capabilities : List Text
