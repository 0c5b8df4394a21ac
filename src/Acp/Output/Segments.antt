-- ===== src/Acp/Output/Segments.antt =====
-- The manifest's segments in src/acp/output_stream.rs, as the published files determine them.
use mathlib.Core.List.{append_assoc, append-nil, flatten}
use guigu_agent_bridge.Prelude.{
  ℕ, suc, ◌+◌, ◌≡◌, refl, sym, List, [], ◌∷◌, ◌++◌, length, arith, length-append,
}
use guigu_agent_bridge.Prelude.Texts.{Text}
use guigu_agent_bridge.Acp.Output.Publisher.{ManifestSegment, Outside, segment_for, last_end}
use guigu_agent_bridge.Acp.Output.{DurableOutputPolicy}

module _ {W : Type 0} (outside : Outside W) (policy : DurableOutputPolicy) where
  -- Files numbered from `index`, the first one at byte `start`: each segment begins where the one
  -- before it ends.
  abbrev pub segments_of : ℕ → ℕ → List Text → List ManifestSegment
  segments_of index start [] = []
  segments_of index start (f ∷ files) =
      segment_for outside policy index start f ∷ segments_of (index + 1) (start + length f) files

  pub length-segments_of :
      (index start : ℕ) (files : List Text) → length (segments_of index start files) ≡ length files
  length-segments_of index start [] = refl
  length-segments_of index start (f ∷ files) =
      omega (arith, length-segments_of (index + 1) (start + length f) files)

  pub last_end-segments_of :
      (index start : ℕ) (files : List Text)
      → last_end start (segments_of index start files) ≡ start + length (flatten files)
  unfolding flatten
  last_end-segments_of index start [] = omega arith
  last_end-segments_of index start (f ∷ files) = omega (
    arith,
    last_end-segments_of (index + 1) (start + length f) files,
    length-append f (flatten files),
  )

  pub segments_of-append :
      (index start : ℕ) (files : List Text) (content : Text)
      → segments_of index start (files ++ content ∷ [])
        ≡ segments_of index start files
          ++ segment_for outside policy
              (index + length files)
              (start + length (flatten files))
              content
            ∷ []
  unfolding flatten
  segments_of-append index start [] content =
      let e : index + 0 ≡ index = omega arith in
      let f : start + 0 ≡ start = omega arith in rw (e, f)
  segments_of-append index start (g ∷ files) content =
      let e : index + suc (length files) ≡ index + 1 + length files = omega arith in
      let f : start + length (g ++ flatten files) ≡ start + length g + length (flatten files) =
        omega (arith, length-append g (flatten files)) in
      rw (e, f, segments_of-append (index + 1) (start + length g) files content)

pub flatten-snoc :
    (files : List Text) (content : Text)
    → flatten (files ++ content ∷ []) ≡ flatten files ++ content
unfolding flatten
flatten-snoc [] content = append-nil content
flatten-snoc (f ∷ files) content =
    rw (flatten-snoc files content) (sym (append_assoc f (flatten files) content))
