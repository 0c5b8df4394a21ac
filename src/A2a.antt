-- ===== src/A2a.antt =====
-- The A2A transport, src/a2a, with the errors of src/a2a/error.rs.
pub mod Policy
use guigu_agent_bridge.Prelude.Texts.{Text}

pub data IngressStage : Type 0 where
  http_body authentication authorization rpc_envelope method params_decode : IngressStage
  version_validate idempotency_reserve content_persist endpoint_resolve : IngressStage
  peer_persist conversation admission binding snapshot response_encode : IngressStage

pub data IngressCause : Type 0 where
  body_too_large malformed_json invalid_params authentication_failed : IngressCause
  target_unavailable unsupported idempotency_conflict storage admission_busy : IngressCause
  admission_closed binding_incomplete recovery_required internal : IngressCause

pub data Retryability : Type 0 where
  never credentials_change policy_change same_request backoff service_recovery : Retryability

pub record IngressFailure : Type 0 where
  pub stage : IngressStage
  pub cause : IngressCause
  pub retryability : Retryability

-- The causes that a driver or a client gives are left out.
pub data A2aError : Type 0 where
  ingress : IngressFailure → A2aError
  config protocol : Text → A2aError
  unauthorized unsupported too_large conflict acceptance_unknown : A2aError
  recovery_needed storage network : A2aError
