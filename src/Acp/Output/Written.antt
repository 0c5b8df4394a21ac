-- ===== src/Acp/Output/Written.antt =====
-- What a step of the publisher in src/acp/output_stream.rs may do to the text it holds.
use mathlib.Core.List.{flatten}
use guigu_agent_bridge.Prelude.{
  ℕ, ◌≤◌, ◌≡◌, List, [], ◌∷◌, ◌++◌, Result, ok, err, length, All, arith,
}
use guigu_agent_bridge.Prelude.Texts.{Text}
use guigu_agent_bridge.Boundaries.Chars.{IsText, IsText-is_utf8}
use guigu_agent_bridge.Boundaries.Utf8.{is_utf8}
use guigu_agent_bridge.Acp.Output.{OutputSpoolError, DurableOutputPolicy, utf8_ranges}
use guigu_agent_bridge.Acp.Output.Ranges.{Fits, utf8_ranges-Tiles}
use guigu_agent_bridge.Acp.Output.Publisher.{
  ManifestSegment, DeliveryPart, Outside, Publisher, Step, and_then,
}
use guigu_agent_bridge.Acp.Output.Segments.{segments_of}

module _ {W : Type 0} (outside : Outside W) (policy : DurableOutputPolicy) where
  abbrev pub target : ℕ
  target = policy.spool_segment_bytes

  -- The published files and the buffer hold, in order, exactly the bytes of `written`; no file is
  -- longer than a segment may be, each is a UTF-8 text, and the manifest describes them. The hash and
  -- the count are those of `text`.
  pub record IsWritten (text written : Text) (p : Publisher W) : Type 0 where
    pub whole : flatten p.files ++ p.buffer ≡ written
    pub hashed : p.aggregate ≡ text
    pub counted : p.total ≡ length text
    pub small : length p.buffer ≤ target
    pub files_small : All (λ f. length f ≤ target) p.files
    pub described : p.segments ≡ segments_of outside policy 0 0 p.files
    pub buffer_text : IsText p.buffer
    pub files_text : All IsText p.files

  -- All of the text is in the files and the buffer.
  abbrev pub IsPublished : Text → Publisher W → Type 0
  IsPublished text p = IsWritten text text p

  -- The error is one of the spool's files or of the output store.
  pub data FromOutside (e : OutputSpoolError) : Type 0 where
    reserving :
        (segment : ManifestSegment) (w : W)
        → (outside.reserve_segment segment w).0 ≡ err e
        → FromOutside e
    publishing :
        (name content : Text) (w : W)
        → (outside.publish_file name content w).0 ≡ err e
        → FromOutside e
    landing : (index : ℕ) (w : W) → (outside.land_segment index w).0 ≡ err e → FromOutside e
    sealing :
        (total : ℕ) (hash : Text) (deliveries : List DeliveryPart) (w : W)
        → (outside.seal_set total hash deliveries w).0 ≡ err e
        → FromOutside e

  -- A step that succeeds has this result, and one that fails has its error from outside.
  abbrev pub Post : (Publisher W → Type 0) → Step outside policy → Type 0
  Post Q (ok u, p) = Q p
  Post Q (err e, p) = FromOutside e

  pub and_then-Post :
      (Q R : Publisher W → Type 0) (r : Step outside policy)
      (next : Publisher W → Step outside policy)
      → Post Q r
      → ((p : Publisher W) → Q p → Post R (next p))
      → Post R (and_then outside policy r next)
  and_then-Post Q R (ok u, p) next h k = k p h
  and_then-Post Q R (err e, p) next h k = h

  abbrev pub IsOk : Result (List (ℕ × ℕ)) OutputSpoolError → Type 0
  IsOk (ok ranges) = Unit {0}
  IsOk (err e) = ⊥

  pub utf8_ranges-IsOk :
      (content : Text)
      → IsText content
      → Fits policy.matrix_segment_bytes content
      → IsOk (utf8_ranges is_utf8 content policy.matrix_segment_bytes)
  unfolding utf8_ranges
  utf8_ranges-IsOk [] t fits = rw (IsText-is_utf8 [] t) tt
  utf8_ranges-IsOk (b ∷ content) t fits =
      let tiled =
        utf8_ranges-Tiles is_utf8 (b ∷ content) policy.matrix_segment_bytes
          (IsText-is_utf8 (b ∷ content) t) t (omega arith) fits in
      rw (tiled.1) tt
