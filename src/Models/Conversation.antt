-- ===== src/Models/Conversation.antt =====
-- Conversations: src/models/conversation.rs.
use guigu_agent_bridge.Prelude.{Option, List}
use guigu_agent_bridge.Prelude.Texts.{Text}
use guigu_agent_bridge.Models.Task.{EndpointId, ConversationId}
use guigu_agent_bridge.Models.Agent.{TransportType}

pub record ExternalRef : Type 0 where
  pub transport : TransportType
  pub external_id : Text
  pub thread_ref : Option Text

pub record Conversation : Type 0 where
  pub id : ConversationId
  pub participants : List EndpointId
  pub external_ref : Option ExternalRef
