-- ===== src/Acp/Output.antt =====
-- Durable output of a turn: src/acp/output_policy.rs, the ranges of src/acp/output_files.rs, and the
-- streaming publisher of src/acp/output_stream.rs.
pub mod Ranges
pub mod Publisher
pub mod Segments
pub mod Written
pub mod Flush
pub mod Feeding
pub mod Append
pub mod Finish
pub mod Policy
pub mod Examples
use guigu_agent_bridge.Prelude.{
  ℕ, zero, suc, ◌+◌, ◌-◌, ◌*◌, ◌≤◌, min, Bool, true, false, ◌&&◌, not, List, [], ◌∷◌, Result, ok,
  err, leb, ltb, ◌==◌, if◌then◌else◌, length, is_empty, Option, none, some,
}
use guigu_agent_bridge.Prelude.Texts.{Text, codes}
use guigu_agent_bridge.Boundaries.{is_char_boundary}

-- `OutputStoreError`, its SQL error left out.
pub data OutputStoreError : Type 0 where
  sql quota conflict malformed : OutputStoreError

pub data OutputSpoolError : Type 0 where
  io identity : OutputSpoolError
  store : OutputStoreError → OutputSpoolError

abbrev memory_high_water : ℕ
memory_high_water = 1_048_576

abbrev spool_segment : ℕ
spool_segment = 262_144

abbrev matrix_segment : ℕ
matrix_segment = 24_576

abbrev process_quota : ℕ
process_quota = 268_435_456

-- Durations are seconds.
pub record DurableOutputPolicy : Type 0 where
  pub spool_root : Text
  pub max_output_bytes : ℕ  -- u64
  pub memory_high_water_bytes : ℕ  -- u64
  pub spool_segment_bytes : ℕ  -- u64
  pub matrix_segment_bytes : ℕ  -- u64
  pub process_quota_bytes : ℕ  -- u64
  pub delivery_attempt_limit : ℕ  -- u32
  pub stale_claim_after : ℕ
  pub matrix_send_timeout : ℕ

abbrev pub is_valid : DurableOutputPolicy → Bool
is_valid p =
    ltb 0 p.max_output_bytes
    && ltb 0 p.memory_high_water_bytes
    && ltb 0 p.spool_segment_bytes
    && ltb 0 p.matrix_segment_bytes
    && leb p.memory_high_water_bytes p.max_output_bytes
    && leb p.spool_segment_bytes p.max_output_bytes
    && leb p.matrix_segment_bytes p.spool_segment_bytes
    && leb p.max_output_bytes p.process_quota_bytes
    && ltb 0 p.delivery_attempt_limit
    && not (p.matrix_send_timeout == 0)

unfoldable pub validate : DurableOutputPolicy → Result (Unit {0}) OutputSpoolError
validate p = if is_valid p then ok tt else err io

abbrev pub policy_for : Text → ℕ → DurableOutputPolicy
policy_for spool_root turn_max = record {
  spool_root = spool_root;
  max_output_bytes = turn_max;
  memory_high_water_bytes = min memory_high_water turn_max;
  spool_segment_bytes = min spool_segment turn_max;
  matrix_segment_bytes = min matrix_segment turn_max;
  process_quota_bytes = process_quota;
  delivery_attempt_limit = 8;
  stale_claim_after = 300;
  matrix_send_timeout = 30;
}

abbrev pub validated :
    DurableOutputPolicy
    → Result (Unit {0}) OutputSpoolError
    → Result DurableOutputPolicy OutputSpoolError
validated policy (ok u) = ok policy
validated policy (err e) = err e

-- Paths, as the standard library and the operating system have them; the last two may fail.
pub record Filesystem : Type 0 where
  pub parent : Text → Option Text
  pub join : Text → Text → Text
  pub current_dir : Result Text OutputSpoolError
  pub canonicalize : Text → Result Text OutputSpoolError

module _ (fs : Filesystem) where
  -- `.parent().filter(...)`: a parent that is not empty.
  abbrev pub parent_of : Text → Option Text
  parent_of database = elim (fs.parent database) [
    | none ↦ none
    | some path ↦ if is_empty path then none else some path
  ]

  abbrev pub unwrap_or : Text → Option Text → Text
  unwrap_or current none = current
  unwrap_or current (some path) = path

  -- With the canonical parent.
  abbrev pub derived_at :
      ℕ → Result Text OutputSpoolError → Result DurableOutputPolicy OutputSpoolError
  derived_at turn_max (err e) = err e
  derived_at turn_max (ok parent) =
      let policy = policy_for (fs.join parent (codes "acp-output-spool-v1")) turn_max in
      validated policy (validate policy)

  -- With the working directory, which is asked for even where the database has a parent.
  abbrev pub derived_in :
      Text → ℕ → Result Text OutputSpoolError → Result DurableOutputPolicy OutputSpoolError
  derived_in database turn_max (err e) = err e
  derived_in database turn_max (ok current) =
      derived_at turn_max (fs.canonicalize (unwrap_or current (parent_of database)))

  unfoldable pub derive : Text → ℕ → Result DurableOutputPolicy OutputSpoolError
  derive database turn_max = derived_in database turn_max fs.current_dir

-- The inner loop of `utf8_ranges`: down from `k` bytes after `start` to a boundary.
unfoldable pub lower : Text → ℕ → ℕ → ℕ
lower text start zero = start
lower text start (suc k) =
    if is_char_boundary text (start + suc k) then start + suc k else lower text start k

abbrev pub with_range :
    ℕ × ℕ → Result (List (ℕ × ℕ)) OutputSpoolError → Result (List (ℕ × ℕ)) OutputSpoolError
with_range range (ok ranges) = ok (range ∷ ranges)
with_range range (err e) = err e

-- The outer loop; each round but the last takes a byte at least, so the bytes' number is enough fuel.
unfoldable pub ranges_from : ℕ → Text → ℕ → ℕ → Result (List (ℕ × ℕ)) OutputSpoolError
ranges_from zero text max start = ok []
ranges_from (suc fuel) text max start =
    let end = lower text start (min max (length text - start)) in
    let rest = ranges_from fuel text max end in
    if leb (length text) start
    then ok []
    else if end == start
    then err identity
    else with_range (start, end) rest

-- The check that the bytes are UTF-8 is a parameter.
unfoldable pub utf8_ranges : (Text → Bool) → Text → ℕ → Result (List (ℕ × ℕ)) OutputSpoolError
utf8_ranges is_utf8 bytes max =
    if not (is_utf8 bytes)
    then err identity
    else if is_empty bytes
    then ok ((0, 0) ∷ [])
    else ranges_from (length bytes) bytes max 0
