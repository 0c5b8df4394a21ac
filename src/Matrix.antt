-- ===== src/Matrix.antt =====
-- The Matrix adapter, src/matrix: which events are accepted, and where they are routed. `MatrixError`
-- is that of src/matrix/error.rs.
pub mod Event
pub mod Conversation
pub mod Dedup
pub mod Permission
pub mod Words
pub mod Router
pub mod Reply
pub mod Examples
use guigu_agent_bridge.Prelude.{◌++◌}
use guigu_agent_bridge.Prelude.Texts.{Text, codes}

pub data MatrixError : Type 0 where
  cutover_refused configuration unsafe_store_path unsafe_store_ancestor : MatrixError
  store_corrupt store_binding_mismatch authentication user_mismatch : MatrixError
  device_missing device_mismatch crypto_initialization device_key_upload : MatrixError
  device_untrusted device_kicked transport : MatrixError
  protocol : Text → MatrixError
  storage backpressure consumer_closed join : MatrixError
