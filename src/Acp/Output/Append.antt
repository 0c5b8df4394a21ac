-- ===== src/Acp/Output/Append.antt =====
-- The loop of `append` in src/acp/output_stream.rs.
use mathlib.Core.List.{append_assoc, append-nil, flatten}
use guigu_agent_bridge.Prelude.{
  ℕ, zero, suc, ◌+◌, ◌-◌, ◌*◌, ◌^◌, ◌≤◌, ◌<◌, ◌≡◌, ◌⊎◌, refl, sym, ap, ◌∙◌, min, Option, some, [],
  ◌∷◌, ◌++◌, ok, err, ltb, ◌==◌, length, take, drop, arith, Bool-cases, inl, inr, take-append-drop,
  length-append,
}
use guigu_agent_bridge.Prelude.Texts.{Text}
use guigu_agent_bridge.Boundaries.{floor_boundary-le, floor_boundary_is}
use guigu_agent_bridge.Boundaries.Chars.{IsText, IsText-SplitAt}
use guigu_agent_bridge.Acp.Output.{store, quota, DurableOutputPolicy}
use guigu_agent_bridge.Acp.Output.Ranges.{length-drop}
use guigu_agent_bridge.Acp.Output.Publisher.{
  Outside, Publisher, Step, then_feed, filled, feed_round, take_for, feed, append, flush,
}
use guigu_agent_bridge.Acp.Output.Written.{IsWritten, IsPublished, Post}
use guigu_agent_bridge.Acp.Output.Flush.{flush-Flushed}
use guigu_agent_bridge.Acp.Output.Feeding.{
  goal, HasRoom, buffer-Fits, rounds, rounds_le, Ends, then_feed-Ends, none_taken, grown_IsWritten,
}

module _ {W : Type 0} (outside : Outside W) (policy : DurableOutputPolicy) where
  -- What a round needs of the rounds after it: they end from any smaller state.
  abbrev Smaller : Text → ℕ → (Text → Publisher W → Option (Step outside policy)) → Type 0
  Smaller text measure next =
      (written remaining : Text) (p : Publisher W)
      → IsWritten outside policy text written p
      → IsText remaining
      → written ++ remaining ≡ text
      → rounds outside policy remaining p.buffer < measure
      → Ends outside policy text (next remaining p)

  flushed-Ends :
      (text written remaining : Text) (measure : ℕ)
      (next : Text → Publisher W → Option (Step outside policy)) (p : Publisher W)
      → HasRoom outside policy text
      → IsWritten outside policy text written p
      → IsText remaining
      → written ++ remaining ≡ text
      → 2 * length remaining < measure
      → Smaller text measure next
      → Ends outside policy text (then_feed outside policy next remaining (flush outside policy p))
  flushed-Ends text written remaining measure next p room h t whole less more =
      then_feed-Ends outside policy text written remaining next (flush outside policy p)
        (flush-Flushed outside policy text written p
          (buffer-Fits outside policy text written remaining p room h whole) h)
        λ q f. more written remaining q f.0 t whole (rw f.1 less)

  filled-Ends :
      (text written remaining : Text) (measure : ℕ)
      (next : Text → Publisher W → Option (Step outside policy)) (p : Publisher W)
      → HasRoom outside policy text
      → IsWritten outside policy text written p
      → IsText remaining
      → written ++ remaining ≡ text
      → 2 * length remaining + 1 < measure
      → Smaller text measure next
      → Ends outside policy text (filled outside policy next remaining p)
  filled-Ends text written remaining measure next p room h t whole less more =
      elim (Bool-cases (length p.buffer == policy.spool_segment_bytes)) [
        | inl full ↦
            rw full
              (flushed-Ends text written remaining measure next p room h t whole (omega arith) more)
        | inr free ↦ rw free (
            more written remaining p h t whole
              (omega (arith, rounds_le outside policy remaining p.buffer)))
      ]

  feed_round-Ends :
      (text written remaining : Text) (next : Text → Publisher W → Option (Step outside policy))
      (p : Publisher W)
      → HasRoom outside policy text
      → IsWritten outside policy text written p
      → IsText remaining
      → written ++ remaining ≡ text
      → 1 ≤ length remaining
      → (4 ≤ goal outside policy) ⊎ (length p.buffer + length remaining ≤ goal outside policy)
      → Smaller text (rounds outside policy remaining p.buffer) next
      → Ends outside policy text
          (feed_round outside policy next remaining p (take_for outside policy remaining p))
  unfolding feed_round
  feed_round-Ends text written remaining next p has_room h t whole some_left fits more =
      let room = min (goal outside policy - length p.buffer) (length remaining) in
      let taken = take_for outside policy remaining p in
      let below = floor_boundary-le remaining room in
      let parts =
        IsText-SplitAt remaining taken t (omega (arith, below))
          (floor_boundary_is remaining room) in
      elim (Bool-cases (taken == 0)) [
        | inl e ↦ rw e (
            flushed-Ends text written remaining (rounds outside policy remaining p.buffer) next p
              has_room h t whole
              (some_pending remaining p.buffer
                (none_taken outside policy text remaining p t some_left fits (ground arith)))
              more)
        | inr e ↦ rw e (
            filled-Ends text (written ++ take taken remaining) (drop taken remaining)
              (rounds outside policy remaining p.buffer) next
              (record p { buffer = p.buffer ++ take taken remaining }) has_room
              (grown_IsWritten outside policy text written remaining taken p h parts.before
                (omega (arith, below, h.small)) (omega (arith, below)))
              parts.after
              (append_assoc written (take taken remaining) (drop taken remaining)
                ∙ ap (λ s. written ++ s) (take-append-drop taken remaining)
                ∙ whole)
              (fewer_left remaining p.buffer taken (ground arith) (omega (arith, below))) more)
      ]
    where
      some_pending :
          (remaining buffer : Text)
          → 1 ≤ length buffer
          → 2 * length remaining < rounds outside policy remaining buffer
      some_pending remaining [] h = absurd (omega arith)
      some_pending remaining (b ∷ buffer) h = omega arith

      fewer_left :
          (remaining buffer : Text) (n : ℕ)
          → 1 ≤ n
          → n ≤ length remaining
          → 2 * length (drop n remaining) + 1 < rounds outside policy remaining buffer
      fewer_left remaining [] n h k = omega (arith, length-drop n remaining k)
      fewer_left remaining (b ∷ buffer) n h k = omega (arith, length-drop n remaining k)

  feed-Ends :
      (fuel : ℕ) (text written remaining : Text) (p : Publisher W)
      → HasRoom outside policy text
      → IsWritten outside policy text written p
      → IsText remaining
      → written ++ remaining ≡ text
      → rounds outside policy remaining p.buffer < fuel
      → Ends outside policy text (feed outside policy fuel remaining p)
  unfolding feed
  feed-Ends zero text written remaining p room h t whole enough = absurd (omega arith)
  feed-Ends (suc fuel) text written [] p room h t whole enough = record {
    step = (ok tt, p);
    result = refl;
    published = rw (sym (append-nil written) ∙ whole) at h;
  }
  feed-Ends (suc fuel) text written (b ∷ remaining) p room h t whole enough =
      feed_round-Ends text written (b ∷ remaining) (feed outside policy fuel) p room h t whole
        (omega arith)
        (omega (
          arith,
          room.segments_fit,
          ap length h.whole,
          ap length whole,
          length-append written (b ∷ remaining),
          length-append (flatten p.files) p.buffer,
        ))
        λ written₁ remaining₁ q h₁ t₁ whole₁ less.
          feed-Ends fuel text written₁ remaining₁ q room h₁ t₁ whole₁ (omega (arith, enough, less))

  -- `append` ends, where a segment and a delivery hold any character or the whole text, the texts are
  -- UTF-8 and the fuel is over twice the new text's bytes. A text over the turn's limit is refused and
  -- nothing changes. Else it fails only by an error of the spool's files or of the output store, and
  -- on success the files and the buffer hold the old text and then the new one, the hash and the count
  -- are theirs, and the manifest describes the files.
  pub append-IsPublished :
      (fuel : ℕ) (old text : Text) (p : Publisher W)
      → HasRoom outside policy (old ++ text)
      → IsPublished outside policy old p
      → IsText text
      → 2 * length text + 1 < fuel
      → length (old ++ text) < 2 ^ 64
      → ((policy.max_output_bytes < length (old ++ text))
          × (append outside policy fuel text p ≡ some (err (store quota), p)))
        ⊎ ((length (old ++ text) ≤ policy.max_output_bytes)
            × ((step : Step outside policy) × (append outside policy fuel text p ≡ some step)
                × Post outside policy (IsPublished outside policy (old ++ text)) step))
  unfolding append
  append-IsPublished fuel old text p room h t enough fits_u64 =
      let size = length-append old text in
      elim (Bool-cases (ltb policy.max_output_bytes (min (p.total + length text) (2 ^ 64 - 1)))) [
        | inl e ↦ rw e (inl (ground (arith, h.counted, size), refl))
        | inr e ↦ rw e (
            let ends =
              feed-Ends fuel (old ++ text) old text
                (record p { aggregate = p.aggregate ++ text; total = p.total + length text }) room
                (record {
                  whole = h.whole;
                  hashed = ap (λ a. a ++ text) h.hashed;
                  counted = omega (arith, size, h.counted);
                  small = h.small;
                  files_small = h.files_small;
                  described = h.described;
                  buffer_text = h.buffer_text;
                  files_text = h.files_text;
                })
                t refl (omega (arith, rounds_le outside policy text p.buffer)) in
            inr (ground (arith, h.counted, size), (ends.step, ends.result, ends.published)))
      ]
