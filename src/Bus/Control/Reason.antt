-- ===== src/Bus/Control/Reason.antt =====
-- `bounded_reason` of src/bus/control.rs: a reason is cut to 128 bytes at a character boundary.
use guigu_agent_bridge.Prelude.{ℕ, ◌<◌, ◌≡◌, ◌⊎◌, length}
use guigu_agent_bridge.Prelude.Texts.{Text}
use guigu_agent_bridge.Boundaries.{truncate, IsCut, truncate-IsCut}

abbrev pub max_reason_bytes : ℕ
max_reason_bytes = 128

unfoldable pub bounded_reason : Text → Text
unfolding truncate
bounded_reason reason = truncate max_reason_bytes reason

-- Every retained reason is the longest prefix of the given one that ends at a character boundary
-- and has at most 128 bytes; a reason of at most 128 bytes is kept whole.
pub bounded_reason-IsCut :
    (reason : Text)
    → IsCut max_reason_bytes reason (bounded_reason reason)
      × ((bounded_reason reason ≡ reason) ⊎ (max_reason_bytes < length reason))
unfolding bounded_reason
bounded_reason-IsCut reason = truncate-IsCut max_reason_bytes reason
