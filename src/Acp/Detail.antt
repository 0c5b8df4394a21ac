-- ===== src/Acp/Detail.antt =====
-- `bounded` of src/acp/mod.rs: a detail is cut to 256 bytes at a character boundary.
use guigu_agent_bridge.Prelude.{ℕ}
use guigu_agent_bridge.Prelude.Texts.{Text}
use guigu_agent_bridge.Boundaries.{truncate}

abbrev pub max_detail_bytes : ℕ
max_detail_bytes = 256

unfoldable pub bounded : Text → Text
unfolding truncate
bounded text = truncate max_detail_bytes text
