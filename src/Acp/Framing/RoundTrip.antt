-- ===== src/Acp/Framing/RoundTrip.antt =====
-- What `write_frame` of src/acp/framing.rs writes, read back.
use mathlib.Core.List.{append_assoc, flatten, map}
use guigu_agent_bridge.Prelude.{
  ℕ, ◌≤◌, ◌≡◌, ◌≢◌, refl, ◌∙◌, some, true, false, List, [], ◌∷◌, ◌++◌, ok, ltb, length, is_empty,
  All, arith, Result,
}
use guigu_agent_bridge.Prelude.Texts.{Text}
use guigu_agent_bridge.Acp.Framing.{Json, new, newline, write_frame, finish, read_chunks}
use guigu_agent_bridge.Acp.Framing.Scan.{line_result, scan, scan-newline, scan-append_line}
use guigu_agent_bridge.Acp.Framing.Reading.{handled, read_chunks-new}

-- What serde_json and the standard library document: compact JSON is one line of UTF-8, not blank and
-- not padded.
pub record IsCompact {V : Type 0} (json : Json V) : Type 0 where
  pub one_line : (v : V) → All (λ b. b ≢ newline) (json.to_vec v)
  pub valid : (v : V) → json.is_utf8 (json.to_vec v) ≡ true
  pub not_padded : (v : V) → json.trim (json.to_vec v) ≡ json.to_vec v
  pub not_blank : (v : V) → is_empty (json.to_vec v) ≡ false

module _ {V : Type 0} (json : Json V) (limit : ℕ) (laws : IsCompact json) where
  abbrev written : List V → Text
  written values = flatten (map (write_frame json) values)

  -- The value is within the reader's limit and parses back.
  abbrev IsReadable : V → Type 0
  IsReadable v = (length (json.to_vec v) ≤ limit) × (json.from_str (json.to_vec v) ≡ ok v)

  line_result_written :
      (v : V) → IsReadable v → line_result json limit (json.to_vec v) ≡ ok (some v)
  line_result_written v (small, same) =
      let within : ltb limit (length (json.to_vec v)) ≡ false = ground arith in
      rw (within, laws.valid v, laws.not_padded v, laws.not_blank v, same) refl

  scan_frame :
      (v : V) (rest : Text)
      → IsReadable v
      → scan json limit [] (write_frame json v ++ rest)
        ≡ (v ∷ (scan json limit [] rest).0, (scan json limit [] rest).1)
  unfolding write_frame
  scan_frame v rest small = rw append_assoc (
      scan-append_line json limit [] (json.to_vec v) (newline ∷ rest) (laws.one_line v)
      ∙ scan-newline json limit (json.to_vec v) rest
      ∙ rw (line_result_written v small) refl)

  scan-written :
      (values : List V)
      → All IsReadable values
      → scan json limit [] (written values) ≡ (values, ok [])
  unfolding flatten
  scan-written [] h =
      let within : ltb limit (length {A = ℕ} []) ≡ false = ground arith in
      unfold scan in rw within refl
  scan-written (v ∷ values) h =
      scan_frame v (written values) h.0 ∙ rw (scan-written values h.1) refl

-- Frames that were written, each within the reader's limit and with a value that parses back, are all
-- handled in order, however the stream is cut into chunks, up to the first that is not routed; when
-- all are, the reader is empty again, which ends the stream cleanly. JSON is assumed to be compact and
-- on one line; `route` is arbitrary.
pub read_chunks-write_frame :
    {V S E : Type 0} (json : Json V) (route : V → S → Result (Unit {0}) E × S) (limit : ℕ)
    (values : List V) (chunks : List Text) (s : S)
    → IsCompact json
    → All (λ v. (length (json.to_vec v) ≤ limit) × (json.from_str (json.to_vec v) ≡ ok v)) values
    → flatten chunks ≡ flatten (map (write_frame json) values)
    → (read_chunks json route (new limit) s chunks
        ≡ some (handled json route limit values (ok []) s))
      × (finish (new limit) ≡ ok tt)
unfolding new finish
read_chunks-write_frame json route limit values chunks s laws small same = (
  read_chunks-new json route limit chunks s
      ∙ rw (same, scan-written json limit laws values small) refl,
  refl,
)
