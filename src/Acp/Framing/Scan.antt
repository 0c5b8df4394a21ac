-- ===== src/Acp/Framing/Scan.antt =====
-- A reference for the codec of src/acp/framing.rs: the frames of a whole stream, read byte by byte.
use guigu_agent_bridge.Prelude.{
  ℕ, ◌≤◌, ◌<◌, ◌≡◌, ◌≢◌, refl, sym, ap, ◌∙◌, Option, none, some, false, List, [], ◌∷◌, ◌++◌, Result,
  ok, err, ltb, ◌==◌, if◌then◌else◌, length, is_empty, All, arith, Bool-cases, inl, inr,
  length-append,
}
use mathlib.Core.List.{append_assoc, append-nil}
use guigu_agent_bridge.Prelude.Texts.{Text}
use guigu_agent_bridge.Acp.Framing.{Json, FrameError, too_large, not_utf8, newline, parsed}

module _ {V : Type 0} (json : Json V) (limit : ℕ) where
  -- What a complete line stands for: a frame, nothing, or an error.
  abbrev pub text_result : Text → Result (Option V) FrameError
  text_result line =
      if is_empty (json.trim line) then ok none else parsed json (json.from_str (json.trim line))

  abbrev pub line_result : Text → Result (Option V) FrameError
  line_result line =
      if ltb limit (length line)
      then err (too_large limit)
      else if json.is_utf8 line
      then text_result line
      else err not_utf8

  -- The frames of a stream, and what is left: the unfinished line, or the first error.
  abbrev pub Scanned : Type 0
  Scanned = List V × Result Text FrameError

  abbrev pub on_result : Result (Option V) FrameError → Scanned → Scanned
  on_result (err e) rest = ([], err e)
  on_result (ok none) rest = rest
  on_result (ok (some v)) rest = (v ∷ rest.0, rest.1)

  abbrev pub unfinished : Text → Scanned
  unfinished line = if ltb limit (length line) then ([], err (too_large limit)) else ([], ok line)

  -- `line` is what stands since the last newline.
  unfoldable pub scan : Text → Text → Scanned
  scan line [] = unfinished line
  scan line (b ∷ bytes) =
      let rest = scan [] bytes in
      let more = scan (line ++ b ∷ []) bytes in
      if b == newline then on_result (line_result line) rest else more

  abbrev pub IsLine : Text → Type 0
  IsLine = All (λ b. b ≢ newline)

  pub scan-newline :
      (line bytes : Text)
      → scan line (newline ∷ bytes) ≡ on_result (line_result line) (scan [] bytes)
  unfolding scan
  scan-newline line bytes = refl

  pub scan_other :
      (line bytes : Text) (b : ℕ)
      → b ≢ newline
      → scan line (b ∷ bytes) ≡ scan (line ++ b ∷ []) bytes
  unfolding scan
  scan_other line bytes b h = let e : (b == newline) ≡ false = ground arith in rw e

  pub scan-append_line :
      (line more bytes : Text) → IsLine more → scan line (more ++ bytes) ≡ scan (line ++ more) bytes
  scan-append_line line [] bytes h = rw append-nil
  scan-append_line line (b ∷ more) bytes h =
      scan_other line (more ++ bytes) b h.0
      ∙ scan-append_line (line ++ b ∷ []) more bytes h.1
      ∙ rw append_assoc

  -- A line that is too long already is refused, whatever follows.
  pub scan_too_long :
      (line bytes : Text) → limit < length line → scan line bytes ≡ ([], err (too_large limit))
  unfolding scan
  scan_too_long line [] h = ground arith
  scan_too_long line (b ∷ bytes) h = elim (Bool-cases (b == newline)) [
    | inl e ↦ rw e (ground arith)
    | inr e ↦
        rw e (scan_too_long (line ++ b ∷ []) bytes (omega (arith, length-append line (b ∷ []))))
  ]

  -- Reading on from what a stream's first part left.
  abbrev pub resume : Scanned → Text → Scanned
  resume (values, err e) bytes = (values, err e)
  resume (values, ok line) bytes = (values ++ (scan line bytes).0, (scan line bytes).1)

  resume-on_result :
      (r : Result (Option V) FrameError) (s : Scanned) (bytes : Text)
      → on_result r (resume s bytes) ≡ resume (on_result r s) bytes
  resume-on_result (err e) s bytes = refl
  resume-on_result (ok none) s bytes = refl
  resume-on_result (ok (some v)) (values, err e) bytes = refl
  resume-on_result (ok (some v)) (values, ok line) bytes = refl

  resume-unfinished : (line bytes : Text) → scan line bytes ≡ resume (unfinished line) bytes
  resume-unfinished line bytes = elim (Bool-cases (ltb limit (length line))) [
    | inl e ↦ rw e (scan_too_long line bytes (ground arith))
    | inr e ↦ rw e refl
  ]

  pub scan-append : (line xs ys : Text) → scan line (xs ++ ys) ≡ resume (scan line xs) ys
  unfolding scan
  scan-append line [] ys = resume-unfinished line ys
  scan-append line (x ∷ xs) ys = elim (Bool-cases (x == newline)) [
    | inl e ↦ rw (e, scan-append [] xs ys) (resume-on_result (line_result line) (scan [] xs) ys)
    | inr e ↦ rw e (scan-append (line ++ x ∷ []) xs ys)
  ]

  -- What a scan leaves unfinished is one line within the limit.
  abbrev pub Leaves : Scanned → Type 0
  Leaves (values, err e) = Unit {0}
  Leaves (values, ok line) = IsLine line × (length line ≤ limit)

  on_result-Leaves :
      (r : Result (Option V) FrameError) (s : Scanned) → Leaves s → Leaves (on_result r s)
  on_result-Leaves (err e) s h = tt
  on_result-Leaves (ok none) s h = h
  on_result-Leaves (ok (some v)) (values, err e) h = tt
  on_result-Leaves (ok (some v)) (values, ok line) h = h

  IsLine-snoc : (line : Text) (b : ℕ) → IsLine line → b ≢ newline → IsLine (line ++ b ∷ [])
  IsLine-snoc [] b h n = (n, tt)
  IsLine-snoc (x ∷ line) b h n = (h.0, IsLine-snoc line b h.1 n)

  pub scan-Leaves : (line bytes : Text) → IsLine line → Leaves (scan line bytes)
  unfolding scan
  scan-Leaves line [] h = elim (Bool-cases (ltb limit (length line))) [
    | inl e ↦ rw e tt
    | inr e ↦ rw e (h, ground arith)
  ]
  scan-Leaves line (b ∷ bytes) h = elim (Bool-cases (b == newline)) [
    | inl e ↦ rw e (on_result-Leaves (line_result line) (scan [] bytes) (scan-Leaves [] bytes tt))
    | inr e ↦ rw e (scan-Leaves (line ++ b ∷ []) bytes (IsLine-snoc line b h (ground arith)))
  ]

  -- Such a line, scanned again, is left as it is.
  pub scan_line : (line : Text) → IsLine line → length line ≤ limit → scan [] line ≡ ([], ok line)
  unfolding scan
  scan_line line h small =
      let e : (ltb limit (length line)) ≡ false = ground arith in
      ap (scan []) (sym (append-nil line)) ∙ scan-append_line [] line [] h ∙ rw e refl
