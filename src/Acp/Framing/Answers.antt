-- ===== src/Acp/Framing/Answers.antt =====
-- `next_frame` of src/acp/framing.rs against the reference scan.
use mathlib.Core.List.{append-nil}
use mathlib.Core.Path.{subst}
use guigu_agent_bridge.Prelude.{
  ℕ, zero, suc, ◌≤◌, ◌<◌, ◌≡◌, refl, sym, ap, ◌∙◌, Option, none, some, false, [], ◌∷◌, Result, ok,
  err, ltb, length, take, drop, is_empty, arith, Bool-cases, inl, inr,
}
use guigu_agent_bridge.Prelude.Texts.{Text}
use guigu_agent_bridge.Acp.Framing.{
  Json, FrameError, FrameReader, newline, position, Round, answers, continues, parsed, on_text,
  on_line, round_at, next_round, next_loop, next_frame,
}
use guigu_agent_bridge.Acp.Framing.Scan.{
  text_result, line_result, Scanned, on_result, scan, scan-newline, scan-append_line, scan_line,
}
use guigu_agent_bridge.Acp.Framing.Lines.{Split, position-Split}

module _ {V : Type 0} (json : Json V) (limit : ℕ) where
  abbrev pub reader : Text → FrameReader
  reader bytes = record { partial = bytes; limit = limit }

  abbrev pub scanned : Text → Scanned json limit
  scanned bytes = scan json limit [] bytes

  -- What an answer of `next_frame` says of the scan `s` of a buffer of `n` bytes.
  abbrev pub Answers :
      ℕ → Scanned json limit → Option (Result (Option V) FrameError × FrameReader) → Type 0
  Answers n s none = ⊥
  Answers n s (some (err e, r)) = s ≡ ([], err e)
  Answers n s (some (ok none, r)) = (s ≡ ([], ok r.partial)) × (r ≡ reader r.partial)
  Answers n s (some (ok (some v), r)) =
      (s ≡ on_result json limit (ok (some v)) (scanned r.partial))
      × (r ≡ reader r.partial)
      × (length r.partial < n)

  -- A round's end against the scan: an answer, or fewer bytes that scan alike.
  abbrev Rounds : ℕ → Scanned json limit → Round json → Type 0
  Rounds n s (answers a r) = Answers n s (some (a, r))
  Rounds n s (continues r) =
      (s ≡ scanned r.partial) × (r ≡ reader r.partial) × (length r.partial < n)

  parsed-Rounds :
      (p : Result V Text) (rest : Text) (n : ℕ)
      → length rest < n
      → Rounds n
          (on_result json limit (parsed json p) (scanned rest))
          (answers (parsed json p) (reader rest))
  parsed-Rounds (ok v) rest n h = (refl, refl, h)
  parsed-Rounds (err e) rest n h = refl

  text-Rounds :
      (line rest : Text) (n : ℕ)
      → length rest < n
      → Rounds n
          (on_result json limit (text_result json limit line) (scanned rest))
          (on_text json line (reader rest))
  unfolding on_text
  text-Rounds line rest n h = elim (Bool-cases (is_empty (json.trim line))) [
    | inl e ↦ rw e (refl, refl, h)
    | inr e ↦ rw e (parsed-Rounds (json.from_str (json.trim line)) rest n h)
  ]

  line-Rounds :
      (line rest : Text) (n : ℕ)
      → length rest < n
      → length line ≤ limit
      → Rounds n
          (on_result json limit (line_result json limit line) (scanned rest))
          (on_line json line (reader rest))
  unfolding on_line
  line-Rounds line rest n h small =
      let within : ltb limit (length line) ≡ false = ground arith in
      elim (Bool-cases (json.is_utf8 line)) [
        | inl e ↦ rw (within, e) (text-Rounds line rest n h)
        | inr e ↦ rw (within, e) refl
      ]

  round-Rounds :
      (bytes : Text) (p : Option ℕ)
      → Split bytes p
      → Rounds (length bytes) (scanned bytes) (round_at json (reader bytes) p)
  unfolding round_at
  round-Rounds bytes none line = elim (Bool-cases (ltb limit (length bytes))) [
    | inl e ↦ rw e (
        ap scanned (sym (append-nil bytes))
        ∙ scan-append_line json limit [] bytes [] line
        ∙ unfold scan in rw e refl)
    | inr e ↦ rw e (scan_line json limit bytes line (ground arith), refl)
  ]
  round-Rounds bytes (some n) (whole, line, size, less) =
      let split : scanned bytes
          ≡ on_result json limit (line_result json limit (take n bytes))
              (scanned (drop (suc n) bytes)) =
        ap scanned whole
        ∙ scan-append_line json limit [] (take n bytes) (newline ∷ drop (suc n) bytes) line
        ∙ scan-newline json limit (take n bytes) (drop (suc n) bytes) in
      elim (Bool-cases (ltb limit n)) [
        | inl e ↦ rw e (split ∙ rw (size, e) refl)
        | inr e ↦ rw e (
            subst
              (λ s.
                Rounds (length bytes) s (on_line json (take n bytes) (reader (drop (suc n) bytes))))
              (sym split)
              (line-Rounds (take n bytes) (drop (suc n) bytes) (length bytes) less (ground arith)))
      ]

  Answers-mono :
      (m n : ℕ) (s : Scanned json limit) (a : Option (Result (Option V) FrameError × FrameReader))
      → m ≤ n
      → Answers m s a
      → Answers n s a
  Answers-mono m n s none h x = x
  Answers-mono m n s (some (err e, r)) h x = x
  Answers-mono m n s (some (ok none, r)) h x = x
  Answers-mono m n s (some (ok (some v), r)) h x = (x.0, x.1, omega arith)

  next_round-Answers :
      (fuel n : ℕ) (s : Scanned json limit) (r : Round json)
      → Rounds n s r
      → ((bytes : Text)
          → length bytes < n
          → Answers (length bytes) (scanned bytes) (next_loop json fuel (reader bytes)))
      → Answers n s (next_round json (next_loop json fuel) r)
  next_round-Answers fuel n s (answers a r) h ih = h
  next_round-Answers fuel n s (continues r) (same, kept, less) ih =
      subst (λ t. Answers n t (next_loop json fuel r)) (sym same)
        (subst (λ q. Answers n (scanned r.partial) (next_loop json fuel q)) (sym kept)
          (Answers-mono (length r.partial) n (scanned r.partial)
            (next_loop json fuel (reader r.partial)) (omega arith) (ih r.partial less)))

  next_loop-Answers :
      (fuel : ℕ) (bytes : Text)
      → length bytes < fuel
      → Answers (length bytes) (scanned bytes) (next_loop json fuel (reader bytes))
  unfolding next_loop
  next_loop-Answers zero bytes h = absurd (omega arith)
  next_loop-Answers (suc fuel) bytes h =
      next_round-Answers fuel (length bytes) (scanned bytes)
        (round_at json (reader bytes) (position bytes))
        (round-Rounds bytes (position bytes) (position-Split bytes))
        (λ less small. next_loop-Answers fuel less (omega arith))

  pub next_frame-Answers :
      (bytes : Text) → Answers (length bytes) (scanned bytes) (next_frame json (reader bytes))
  unfolding next_frame
  next_frame-Answers bytes = next_loop-Answers (suc (length bytes)) bytes (omega arith)
