-- ===== src/Acp/Output/Publisher.antt =====
-- `StreamingPublisher` of src/acp/output_stream.rs. The spool's files, the output store, SHA-256 and the
-- JSON of the manifest, which may fail, are functions on the outside.
use guigu_agent_bridge.Prelude.{
  ℕ, zero, suc, ◌+◌, ◌-◌, ◌^◌, min, Option, none, some, ◌&&◌, ◌||◌, not, List, [], ◌∷◌, ◌++◌,
  Result, ok, err, ltb, ◌==◌, if◌then◌else◌, length, take, drop, is_empty,
}
use guigu_agent_bridge.Prelude.Texts.{Text, codes, show_nat}
use guigu_agent_bridge.Boundaries.{floor_boundary}
use guigu_agent_bridge.Boundaries.Utf8.{is_utf8}
use guigu_agent_bridge.Acp.Output.{
  OutputSpoolError, store, quota, identity, DurableOutputPolicy, utf8_ranges,
}

pub record ManifestSegment : Type 0 where
  pub index : ℕ
  pub start : ℕ
  pub end : ℕ
  pub hash : Text
  pub name : Text

pub record DeliveryPart : Type 0 where
  pub index : ℕ
  pub spool_index : ℕ
  pub byte_start : ℕ
  pub byte_end : ℕ
  pub content_hash : Text
  pub stable_txn_id : Text

-- What the publisher calls. Each operation may fail.
pub record Outside (W : Type 0) : Type 0 where
  pub hash : Text → Text
  pub stable_txn : ℕ → Text → Text
  pub manifest_json : ℕ → Text → List ManifestSegment → Option Text
  pub reserve_segment : ManifestSegment → W → Result (Unit {0}) OutputSpoolError × W
  pub publish_file : Text → Text → W → Result (Unit {0}) OutputSpoolError × W
  pub land_segment : ℕ → W → Result (Unit {0}) OutputSpoolError × W
  pub seal_set : ℕ → Text → List DeliveryPart → W → Result (Unit {0}) OutputSpoolError × W

-- The publisher. `aggregate` is what the aggregate hash has been given, and `files` the contents of
-- the segment files that were published, in order.
pub record Publisher (W : Type 0) : Type 0 where
  pub buffer : Text
  pub total : ℕ  -- u64
  pub aggregate : Text
  pub segments : List ManifestSegment
  pub deliveries : List DeliveryPart
  pub files : List Text
  pub outer : W

-- After `new` has prepared the directories.
abbrev pub new_publisher : {W : Type 0} → W → Publisher W
new_publisher outer = record {
  buffer = [];
  total = 0;
  aggregate = [];
  segments = [];
  deliveries = [];
  files = [];
  outer = outer;
}

-- `segments.last().map_or(0, |value| value.end)`.
abbrev pub last_end : ℕ → List ManifestSegment → ℕ
last_end found [] = found
last_end found (s ∷ segments) = last_end s.end segments

abbrev pub segment_name : ℕ → Text
segment_name index = codes "segment-" ++ (show_nat index ++ codes ".bin")

module _ {W : Type 0} (outside : Outside W) (policy : DurableOutputPolicy) where
  abbrev pub Step : Type 0
  Step = Result (Unit {0}) OutputSpoolError × Publisher W

  -- The `?` of a step.
  abbrev pub and_then : Step → (Publisher W → Step) → Step
  and_then (ok u, p) next = next p
  and_then (err e, p) next = (err e, p)

  abbrev pub call : (W → Result (Unit {0}) OutputSpoolError × W) → Publisher W → Step
  call f p = let (r, outer) = f p.outer in (r, record p { outer = outer })

  abbrev pub landed : Text → Step → Step
  landed content (ok u, p) = (ok tt, record p { files = p.files ++ content ∷ [] })
  landed content (err e, p) = (err e, p)

  abbrev pub part_for : ℕ → ℕ → ℕ → Text → ℕ × ℕ → DeliveryPart
  part_for index spool_index start content (local_start, local_end) =
      let digest = outside.hash (take (local_end - local_start) (drop local_start content)) in
      record {
        index = index;
        spool_index = spool_index;
        byte_start = start + local_start;
        byte_end = start + local_end;
        content_hash = digest;
        stable_txn_id = outside.stable_txn index digest;
      }

  unfoldable pub push_parts : ℕ → ℕ → Text → List (ℕ × ℕ) → List DeliveryPart → List DeliveryPart
  push_parts spool_index start content [] deliveries = deliveries
  push_parts spool_index start content (range ∷ ranges) deliveries =
      push_parts spool_index start content ranges
        (deliveries ++ part_for (length deliveries) spool_index start content range ∷ [])

  abbrev pub pushed : ℕ → ℕ → Text → Publisher W → Result (List (ℕ × ℕ)) OutputSpoolError → Step
  pushed spool_index start content p (ok ranges) =
      (ok tt, record p { deliveries = push_parts spool_index start content ranges p.deliveries })
  pushed spool_index start content p (err e) = (err e, p)

  unfoldable pub add_deliveries : ℕ → ℕ → Text → Publisher W → Step
  add_deliveries spool_index start content p =
      pushed spool_index start content p (utf8_ranges is_utf8 content policy.matrix_segment_bytes)

  abbrev pub segment_for : ℕ → ℕ → Text → ManifestSegment
  segment_for index start content = record {
    index = index;
    start = start;
    end = start + length content;
    hash = outside.hash content;
    name = segment_name index;
  }

  -- `flush` after its guard: the buffer becomes segment `index`.
  unfoldable pub flush_segment : ℕ → ℕ → Text → Publisher W → Step
  flush_segment index start content p =
      let segment = segment_for index start content in
      and_then (call (outside.reserve_segment segment) (record p { buffer = [] })) λ p₁.
        and_then (landed content (call (outside.publish_file segment.name content) p₁)) λ p₂.
          and_then (call (outside.land_segment index) p₂) λ p₃.
            and_then (add_deliveries index start content p₃)
              λ p₄. (ok tt, record p₄ { segments = p₄.segments ++ segment ∷ [] })

  unfoldable pub flush : Publisher W → Step
  flush p =
      if is_empty p.buffer && (not (is_empty p.segments) || ltb 0 p.total)
      then (ok tt, p)
      else flush_segment (length p.segments) (last_end 0 p.segments) p.buffer p

  -- The loop of `append` over what remains of the text, with fuel.
  abbrev pub then_feed : (Text → Publisher W → Option Step) → Text → Step → Option Step
  then_feed next remaining (ok u, p) = next remaining p
  then_feed next remaining (err e, p) = some (err e, p)

  abbrev pub filled : (Text → Publisher W → Option Step) → Text → Publisher W → Option Step
  filled next remaining p =
      if length p.buffer == policy.spool_segment_bytes
      then then_feed next remaining (flush p)
      else next remaining p

  -- `taken` bytes go to the buffer; none, if the next character does not fit.
  unfoldable pub feed_round :
      (Text → Publisher W → Option Step) → Text → Publisher W → ℕ → Option Step
  unfolding flush
  feed_round next remaining p taken =
      if taken == 0
      then then_feed next remaining (flush p)
      else filled next (drop taken remaining)
          (record p { buffer = p.buffer ++ take taken remaining })

  -- `free` is `target - self.buffer.len()`; the buffer is never longer than `target`.
  abbrev pub take_for : Text → Publisher W → ℕ
  take_for remaining p =
      let free = policy.spool_segment_bytes - length p.buffer in
      floor_boundary remaining (min free (length remaining))

  unfoldable pub feed : ℕ → Text → Publisher W → Option Step
  feed zero remaining p = none
  feed (suc fuel) remaining p =
      let more = feed_round (feed fuel) remaining p (take_for remaining p) in
      if is_empty remaining then some (ok tt, p) else more

  -- `total.saturating_add(len)` on u64.
  abbrev pub saturating_add : ℕ → ℕ → ℕ
  saturating_add a b = min (a + b) (2 ^ 64 - 1)

  unfoldable pub append : ℕ → Text → Publisher W → Option Step
  append fuel text p =
      let fed =
        feed fuel text
          (record p { aggregate = p.aggregate ++ text; total = p.total + length text }) in
      if ltb policy.max_output_bytes (saturating_add p.total (length text))
      then some (err (store quota), p)
      else fed

  abbrev pub manifest_published : Publisher W → Option Text → Step
  manifest_published p none = (err identity, p)
  manifest_published p (some json) = call (outside.publish_file (codes "manifest-v1.json") json) p

  unfoldable pub finish : Publisher W → Step
  unfolding flush
  finish p = and_then (flush p) λ p₁.
      let total_hash = outside.hash p₁.aggregate in
      and_then (manifest_published p₁ (outside.manifest_json p₁.total total_hash p₁.segments))
        λ p₂. call (outside.seal_set p₂.total total_hash p₂.deliveries) p₂
