-- ===== src/Acp/Output/Flush.antt =====
-- What `flush` of src/acp/output_stream.rs keeps.
use mathlib.Core.List.{append-nil, flatten}
use guigu_agent_bridge.Prelude.{
  ℕ, ◌+◌, ◌≤◌, ◌≡◌, refl, sym, ap, ◌∙◌, ◌&&◌, ◌||◌, not, List, [], ◌∷◌, ◌++◌, Result, ok, err, ltb,
  length, is_empty, All, arith, Bool-cases, inl, inr,
}
use guigu_agent_bridge.Prelude.Texts.{Text}
use guigu_agent_bridge.Boundaries.Chars.{IsText}
use guigu_agent_bridge.Boundaries.Utf8.{is_utf8}
use guigu_agent_bridge.Acp.Output.{OutputSpoolError, DurableOutputPolicy, utf8_ranges}
use guigu_agent_bridge.Acp.Output.Ranges.{Fits}
use guigu_agent_bridge.Acp.Output.Publisher.{
  ManifestSegment, Outside, Publisher, Step, call, landed, pushed, add_deliveries, segment_for,
  last_end, flush_segment, flush,
}
use guigu_agent_bridge.Acp.Output.Segments.{
  segments_of, length-segments_of, last_end-segments_of, segments_of-append, flatten-snoc,
}
use guigu_agent_bridge.Acp.Output.Written.{
  target, IsWritten, FromOutside, reserving, publishing, landing, Post, and_then-Post, IsOk,
  utf8_ranges-IsOk,
}

module _ {W : Type 0} (outside : Outside W) (policy : DurableOutputPolicy) where
  -- All but the deliveries and the outside.
  pub record Kept (buffer text : Text) (total : ℕ) (segments : List ManifestSegment)
      (files : List Text) (p : Publisher W) : Type 0 where
    pub same_buffer : p.buffer ≡ buffer
    pub same_aggregate : p.aggregate ≡ text
    pub same_total : p.total ≡ total
    pub same_segments : p.segments ≡ segments
    pub same_files : p.files ≡ files

  module _ (buffer text : Text) (total : ℕ) (segments : List ManifestSegment) where
    abbrev K : List Text → Publisher W → Type 0
    K files = Kept buffer text total segments files

    called-Post :
        (files : List Text) (p : Publisher W) (r : Result (Unit {0}) OutputSpoolError × W)
        → ((e : OutputSpoolError) → r.0 ≡ err e → FromOutside outside policy e)
        → K files p
        → Post outside policy (K files) (r.0, record p { outer = r.1 })
    called-Post files p (ok u, outer) fails k = record {
      same_buffer = k.same_buffer;
      same_aggregate = k.same_aggregate;
      same_total = k.same_total;
      same_segments = k.same_segments;
      same_files = k.same_files;
    }
    called-Post files p (err e, outer) fails k = fails e refl

    call-Post :
        (files : List Text) (f : W → Result (Unit {0}) OutputSpoolError × W) (p : Publisher W)
        → ((w : W) (e : OutputSpoolError) → (f w).0 ≡ err e → FromOutside outside policy e)
        → K files p
        → Post outside policy (K files) (call outside policy f p)
    call-Post files f p fails k = called-Post files p (f p.outer) (fails p.outer) k

    landed-Post :
        (files : List Text) (content : Text) (r : Step outside policy)
        → Post outside policy (K files) r
        → Post outside policy (K (files ++ content ∷ [])) (landed outside policy content r)
    landed-Post files content (ok u, p) k = record {
      same_buffer = k.same_buffer;
      same_aggregate = k.same_aggregate;
      same_total = k.same_total;
      same_segments = k.same_segments;
      same_files = ap (λ fs. fs ++ content ∷ []) k.same_files;
    }
    landed-Post files content (err e, p) k = k

    pushed-Post :
        (files : List Text) (index start : ℕ) (content : Text) (p : Publisher W)
        (r : Result (List (ℕ × ℕ)) OutputSpoolError)
        → IsOk outside policy r
        → K files p
        → Post outside policy (K files) (pushed outside policy index start content p r)
    pushed-Post files index start content p (ok ranges) fine k = record {
      same_buffer = k.same_buffer;
      same_aggregate = k.same_aggregate;
      same_total = k.same_total;
      same_segments = k.same_segments;
      same_files = k.same_files;
    }
    pushed-Post files index start content p (err e) fine k = absurd fine

    -- After all steps the segment is listed too.
    flush_segment-Post :
        (index start : ℕ) (content : Text) (files : List Text) (p : Publisher W)
        → IsOk outside policy (utf8_ranges is_utf8 content policy.matrix_segment_bytes)
        → K files (record p { buffer = [] })
        → Post outside policy
            (Kept buffer text total
              (segments ++ segment_for outside policy index start content ∷ [])
              (files ++ content ∷ []))
            (flush_segment outside policy index start content p)
    unfolding flush_segment add_deliveries
    flush_segment-Post index start content files p fine k =
        let segment = segment_for outside policy index start content in
        let more = files ++ content ∷ [] in
        let Last = Kept buffer text total (segments ++ segment ∷ []) more in
        and_then-Post outside policy (K files) Last
          (call outside policy (outside.reserve_segment segment) (record p { buffer = [] })) _
          (call-Post files (outside.reserve_segment segment) (record p { buffer = [] })
            (λ w e. reserving segment w) k)
          λ p₁ k₁.
            and_then-Post outside policy (K more) Last
              (landed outside policy content
                (call outside policy (outside.publish_file segment.name content) p₁))
              _
              (landed-Post files content
                (call outside policy (outside.publish_file segment.name content) p₁)
                (call-Post files (outside.publish_file segment.name content) p₁
                  (λ w e. publishing segment.name content w) k₁))
              λ p₂ k₂.
                and_then-Post outside policy (K more) Last
                  (call outside policy (outside.land_segment index) p₂) _
                  (call-Post more (outside.land_segment index) p₂ (λ w e. landing index w) k₂)
                  λ p₃ k₃.
                    and_then-Post outside policy (K more) Last
                      (add_deliveries outside policy index start content p₃) _
                      (pushed-Post more index start content p₃
                        (utf8_ranges is_utf8 content policy.matrix_segment_bytes) fine k₃)
                      λ p₄ k₄. record {
                        same_buffer = k₄.same_buffer;
                        same_aggregate = k₄.same_aggregate;
                        same_total = k₄.same_total;
                        same_segments = ap (λ ss. ss ++ segment ∷ []) k₄.same_segments;
                        same_files = k₄.same_files;
                      }

  -- A publisher with an empty buffer, of the same text.
  abbrev pub Flushed : Text → Text → Publisher W → Type 0
  Flushed text written p = IsWritten outside policy text written p × (p.buffer ≡ [])

  All-snoc {κ} :
      (P : Text → Type κ) (files : List Text) (content : Text)
      → All P files
      → P content
      → All P (files ++ content ∷ [])
  All-snoc P [] content h x = (x, tt)
  All-snoc P (f ∷ files) content h x = (h.0, All-snoc P files content h.1 x)

  sealed_whole :
      (text written : Text) (p : Publisher W)
      → IsWritten outside policy text written p
      → flatten (p.files ++ p.buffer ∷ []) ++ [] ≡ written
  sealed_whole text written p h =
      append-nil (flatten (p.files ++ p.buffer ∷ [])) ∙ flatten-snoc p.files p.buffer ∙ h.whole

  sealed_segments :
      (text written : Text) (p : Publisher W)
      → IsWritten outside policy text written p
      → p.segments
          ++ segment_for outside policy (length p.segments) (last_end 0 p.segments) p.buffer ∷ []
        ≡ segments_of outside policy 0 0 (p.files ++ p.buffer ∷ [])
  sealed_segments text written p h =
      let n : length p.segments ≡ 0 + length p.files =
        omega (arith, ap length h.described, length-segments_of outside policy 0 0 p.files) in
      let e : last_end 0 p.segments ≡ 0 + length (flatten p.files) =
        ap (last_end 0) h.described ∙ last_end-segments_of outside policy 0 0 p.files in
      rw (n, e)
        (ap
            (λ ss.
              ss
              ++ segment_for outside policy (0 + length p.files) (0 + length (flatten p.files))
                  p.buffer
                ∷ [])
            h.described
          ∙ sym (segments_of-append outside policy 0 0 p.files p.buffer))

  sealed :
      (text written : Text) (p : Publisher W) (r : Step outside policy)
      → IsWritten outside policy text written p
      → IsText []
      → Post outside policy
          (Kept [] p.aggregate p.total
            (p.segments
              ++ segment_for outside policy (length p.segments) (last_end 0 p.segments) p.buffer
                ∷ [])
            (p.files ++ p.buffer ∷ []))
          r
      → Post outside policy (Flushed text written) r
  sealed text written p (err e, q) h none_left k = k
  sealed text written p (ok u, q) h none_left k = (
    record {
      whole = rw (k.same_files, k.same_buffer) (sealed_whole text written p h);
      hashed = k.same_aggregate ∙ h.hashed;
      counted = k.same_total ∙ h.counted;
      small = rw k.same_buffer (omega arith);
      files_small =
          rw k.same_files (
            All-snoc (λ f. length f ≤ target outside policy) p.files p.buffer h.files_small
              h.small);
      described =
          k.same_segments
          ∙ sealed_segments text written p h
          ∙ ap (segments_of outside policy 0 0) (sym k.same_files);
      buffer_text = rw k.same_buffer none_left;
      files_text = rw k.same_files (All-snoc IsText p.files p.buffer h.files_text h.buffer_text);
    },
    k.same_buffer,
  )

  pub flush-Flushed :
      (text written : Text) (p : Publisher W)
      → Fits policy.matrix_segment_bytes p.buffer
      → IsWritten outside policy text written p
      → Post outside policy (Flushed text written) (flush outside policy p)
  unfolding flush
  flush-Flushed text written p fits h =
      elim (Bool-cases (is_empty p.buffer && (not (is_empty p.segments) || ltb 0 p.total))) [
        | inl e ↦ rw e (h, ground arith)
        | inr e ↦ rw e (
            sealed text written p
              (flush_segment outside policy (length p.segments) (last_end 0 p.segments) p.buffer p)
              h (unfold flatten in record { chars = []; valid = tt; bytes = refl })
              (flush_segment-Post [] p.aggregate p.total p.segments (length p.segments)
                (last_end 0 p.segments) p.buffer p.files p
                (utf8_ranges-IsOk outside policy p.buffer h.buffer_text fits)
                (record {
                  same_buffer = refl;
                  same_aggregate = refl;
                  same_total = refl;
                  same_segments = refl;
                  same_files = refl;
                })))
      ]
