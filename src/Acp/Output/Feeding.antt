-- ===== src/Acp/Output/Feeding.antt =====
-- What one round of the loop of `append` in src/acp/output_stream.rs takes.
use mathlib.Core.List.{append_assoc, flatten}
use guigu_agent_bridge.Prelude.{
  ℕ, ◌+◌, ◌-◌, ◌*◌, ◌≤◌, ◌≡◌, ◌⊎◌, refl, sym, ap, ◌∙◌, min, Option, some, [], ◌∷◌, ◌++◌, ok, err,
  ltb, length, take, arith, Bool-cases, inl, inr, length-append, length-take,
}
use guigu_agent_bridge.Prelude.Texts.{Text}
use guigu_agent_bridge.Boundaries.{floor_boundary_max}
use guigu_agent_bridge.Boundaries.Chars.{IsText, append-IsText, IsText-FirstChar}
use guigu_agent_bridge.Acp.Output.{DurableOutputPolicy}
use guigu_agent_bridge.Acp.Output.Ranges.{Fits}
use guigu_agent_bridge.Acp.Output.Publisher.{Outside, Publisher, Step, then_feed, take_for}
use guigu_agent_bridge.Acp.Output.Written.{target, IsWritten, IsPublished, Post}
use guigu_agent_bridge.Acp.Output.Flush.{Flushed}

module _ {W : Type 0} (outside : Outside W) (policy : DurableOutputPolicy) where
  abbrev pub goal : ℕ
  goal = target outside policy

  -- The segments and the deliveries have room for the text's characters.
  pub record HasRoom (text : Text) : Type 0 where
    pub segments_fit : Fits goal text
    pub deliveries_fit : Fits policy.matrix_segment_bytes text

  pub buffer-Fits :
      (text written remaining : Text) (p : Publisher W)
      → HasRoom text
      → IsWritten outside policy text written p
      → written ++ remaining ≡ text
      → Fits policy.matrix_segment_bytes p.buffer
  buffer-Fits text written remaining p room h whole = omega (
    arith,
    room.deliveries_fit,
    ap length h.whole,
    ap length whole,
    length-append written remaining,
    length-append (flatten p.files) p.buffer,
  )

  -- One more round than this is enough.
  abbrev pub rounds : Text → Text → ℕ
  rounds remaining [] = 2 * length remaining
  rounds remaining (b ∷ buffer) = 2 * length remaining + 1

  pub rounds_le : (remaining buffer : Text) → rounds remaining buffer ≤ 2 * length remaining + 1
  rounds_le remaining [] = omega arith
  rounds_le remaining (b ∷ buffer) = omega arith

  -- The loop ends, and when no step failed all of the text is written.
  pub record Ends (text : Text) (o : Option (Step outside policy)) : Type 0 where
    pub step : Step outside policy
    pub result : o ≡ some step
    pub published : Post outside policy (IsPublished outside policy text) step

  pub then_feed-Ends :
      (text written remaining : Text) (next : Text → Publisher W → Option (Step outside policy))
      (r : Step outside policy)
      → Post outside policy (Flushed outside policy text written) r
      → ((q : Publisher W) → Flushed outside policy text written q → Ends text (next remaining q))
      → Ends text (then_feed outside policy next remaining r)
  then_feed-Ends text written remaining next (ok u, p) h more = more p h
  then_feed-Ends text written remaining next (err e, p) h more = record {
    step = (err e, p);
    result = refl;
    published = h;
  }

  -- No byte is taken only when the buffer has some.
  pub none_taken :
      (text remaining : Text) (p : Publisher W)
      → IsText remaining
      → 1 ≤ length remaining
      → (4 ≤ goal) ⊎ (length p.buffer + length remaining ≤ goal)
      → take_for outside policy remaining p ≡ 0
      → 1 ≤ length p.buffer
  none_taken text remaining p t h fits e =
      let first = IsText-FirstChar remaining t h in
      let room = min (goal - length p.buffer) (length remaining) in
      elim (Bool-cases (ltb 0 (length p.buffer))) [
        | inl some_byte ↦ ground arith
        | inr empty ↦
            let within : first.size ≤ room = ground (arith, fits, first.small, first.within) in
            absurd (
              omega (
                arith,
                e,
                first.some_byte,
                floor_boundary_max remaining room first.size within first.boundary,
              ))
      ]

  -- The buffer after `n` more bytes of the text.
  pub grown_IsWritten :
      (text written remaining : Text) (n : ℕ) (p : Publisher W)
      → IsWritten outside policy text written p
      → IsText (take n remaining)
      → length p.buffer + n ≤ goal
      → n ≤ length remaining
      → IsWritten outside policy text
          (written ++ take n remaining)
          (record p { buffer = p.buffer ++ take n remaining })
  grown_IsWritten text written remaining n p h t room within = record {
    whole =
        sym (append_assoc (flatten p.files) p.buffer (take n remaining))
        ∙ ap (λ w. w ++ take n remaining) h.whole;
    hashed = h.hashed;
    counted = h.counted;
    small = omega (arith, length-append p.buffer (take n remaining), length-take n remaining);
    files_small = h.files_small;
    described = h.described;
    buffer_text = append-IsText p.buffer (take n remaining) h.buffer_text t;
    files_text = h.files_text;
  }
