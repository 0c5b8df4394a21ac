-- ===== src/Acp/Framing/Reading.antt =====
-- The transport's reads of src/acp/transport.rs against the reference scan.
use mathlib.Core.List.{append_assoc, append-nil, flatten}
use guigu_agent_bridge.Prelude.{
  ℕ, zero, suc, ◌≤◌, ◌<◌, ◌≡◌, refl, ap, ◌∙◌, Option, none, some, List, [], ◌∷◌, ◌++◌, Result, ok,
  err, length, arith,
}
use guigu_agent_bridge.Prelude.Texts.{Text}
use guigu_agent_bridge.Acp.Framing.{
  Json, FrameError, FrameReader, new, push, next_frame, Read, routed, unread, unrouted, on_answer,
  drain, then_read, read_chunks,
}
use guigu_agent_bridge.Acp.Framing.Scan.{
  Scanned, scan, IsLine, scan-append_line, resume, scan-append, Leaves, scan-Leaves, scan_line,
}
use guigu_agent_bridge.Acp.Framing.Answers.{reader, scanned, Answers, next_frame-Answers}

module _ {V S E : Type 0} (json : Json V) (route : V → S → Result (Unit {0}) E × S)
    (limit : ℕ) where
  -- The transport that handles the values of a scan, in order, up to the first that is not routed; if
  -- all are, it ends as the scan does.
  abbrev pub after_route : (S → Read json route) → Result (Unit {0}) E × S → Read json route
  after_route rest (ok u, s) = rest s
  after_route rest (err failure, s) = (s, err (unrouted failure))

  abbrev pub handled : List V → Result Text FrameError → S → Read json route
  handled [] (ok line) s = (s, ok (reader json limit line))
  handled [] (err e) s = (s, err (unread e))
  handled (v ∷ values) end s = after_route (handled values end) (route v s)

  abbrev pub handled_scan : Scanned json limit → S → Read json route
  handled_scan scan s = handled (scan.0) (scan.1) s

  -- What reads of the bytes do from the state `s`.
  abbrev Handles : Text → S → Option (Read json route) → Type 0
  Handles bytes s r = r ≡ some (handled_scan (scan json limit [] bytes) s)

  routed-after_route :
      (next : FrameReader → S → Option (Read json route)) (r : FrameReader)
      (rest : S → Read json route) (answer : Result (Unit {0}) E × S)
      → ((s : S) → next r s ≡ some (rest s))
      → routed json route next r answer ≡ some (after_route rest answer)
  routed-after_route next r rest (ok u, s) h = h s
  routed-after_route next r rest (err failure, s) h = refl

  on_answer_lem :
      (fuel n : ℕ) (scan : Scanned json limit) (s : S)
      (a : Option (Result (Option V) FrameError × FrameReader))
      → Answers json limit n scan a
      → ((bytes : Text) (s : S)
          → length bytes < n
          → Handles bytes s (drain json route fuel (reader json limit bytes) s))
      → on_answer json route (drain json route fuel) s a ≡ some (handled_scan scan s)
  on_answer_lem fuel n scan s none h ih = absurd h
  on_answer_lem fuel n scan s (some (err e, r)) h ih = rw h
  on_answer_lem fuel n scan s (some (ok none, r)) h ih = rw h.0 (ap (λ q. some (s, ok q)) h.1)
  on_answer_lem fuel n scan s (some (ok (some v), r)) (same, kept, less) ih =
      ap (λ q. routed json route (drain json route fuel) q (route v s)) kept
      ∙ rw same (
          routed-after_route (drain json route fuel) (reader json limit r.partial)
            (handled_scan (scanned json limit r.partial)) (route v s) (λ s'. ih r.partial s' less))

  drain-scan :
      (fuel : ℕ) (bytes : Text) (s : S)
      → length bytes < fuel
      → Handles bytes s (drain json route fuel (reader json limit bytes) s)
  unfolding drain
  drain-scan zero bytes s h = absurd (omega arith)
  drain-scan (suc fuel) bytes s h =
      on_answer_lem fuel (length bytes) (scanned json limit bytes) s
        (next_frame json (reader json limit bytes)) (next_frame-Answers json limit bytes)
        (λ less s' small. drain-scan fuel less s' (omega arith))

  then_read-after_route :
      (next : FrameReader → S → Option (Read json route)) (first rest : S → Read json route)
      (answer : Result (Unit {0}) E × S)
      → ((s : S) → then_read json route (some (first s)) next ≡ some (rest s))
      → then_read json route (some (after_route first answer)) next ≡ some (after_route rest answer)
  then_read-after_route next first rest (ok u, s) h = h s
  then_read-after_route next first rest (err failure, s) h = refl

  -- Reading on after the values of a scan's first part.
  then_read-handled :
      (values more : List V) (line : Text) (end : Result Text FrameError)
      (next : FrameReader → S → Option (Read json route)) (s : S)
      → ((s : S) → next (reader json limit line) s ≡ some (handled more end s))
      → then_read json route (some (handled values (ok line) s)) next
        ≡ some (handled (values ++ more) end s)
  then_read-handled [] more line end next s h = h s
  then_read-handled (v ∷ values) more line end next s h =
      then_read-after_route next (handled values (ok line)) (handled (values ++ more) end)
        (route v s) (λ s'. then_read-handled values more line end next s' h)

  then_read_failed :
      (values : List V) (e : FrameError) (next : FrameReader → S → Option (Read json route)) (s : S)
      → then_read json route (some (handled values (err e) s)) next
        ≡ some (handled values (err e) s)
  then_read_failed [] e next s = refl
  then_read_failed (v ∷ values) e next s =
      then_read-after_route next (handled values (err e)) (handled values (err e)) (route v s)
        (λ s'. then_read_failed values e next s')

  then_read-resume :
      (scan : Scanned json limit) (rest : Text) (next : FrameReader → S → Option (Read json route))
      (s : S)
      → Leaves json limit scan
      → ((line : Text) (s : S)
          → IsLine json limit line
          → length line ≤ limit
          → Handles (line ++ rest) s (next (reader json limit line) s))
      → then_read json route (some (handled_scan scan s)) next
        ≡ some (handled_scan (resume json limit scan rest) s)
  then_read-resume (values, err e) rest next s h ih = then_read_failed values e next s
  then_read-resume (values, ok line) rest next s (is_line, small) ih =
      let more = scan json limit line rest in
      then_read-handled values more.0 line more.1 next s (λ s'.
        ih line s' is_line small ∙ rw (scan-append_line json limit [] line rest is_line) refl)

  read_chunks-scan :
      (chunks : List Text) (line : Text) (s : S)
      → IsLine json limit line
      → length line ≤ limit
      → Handles
          (line ++ flatten chunks)
          s
          (read_chunks json route (reader json limit line) s chunks)
  unfolding read_chunks push flatten
  read_chunks-scan [] line s is_line small =
      rw (append-nil, scan_line json limit line is_line small) refl
  read_chunks-scan (chunk ∷ chunks) line s is_line small =
      let bytes = line ++ chunk in
      rw
        (
          drain-scan (suc (length bytes)) bytes s (omega arith),
          ← append_assoc line chunk (flatten chunks),
          scan-append json limit [] bytes (flatten chunks),
        )
        (then_read-resume (scanned json limit bytes) (flatten chunks)
          (λ r s'. read_chunks json route r s' chunks) s (scan-Leaves json limit [] bytes tt)
          (λ rest s' rest_line rest_small. read_chunks-scan chunks rest s' rest_line rest_small))

-- However a stream is cut into chunks, the transport's reads end as if it had the values of the
-- byte-by-byte scan of the whole stream and handled them in order: with the state and the failure of
-- the first value that is not routed, or, when all are, with the scan's failure or its unfinished line
-- in the reader. This holds of every `route`; the fuel of each loop is enough.
pub read_chunks-new :
    {V S E : Type 0} (json : Json V) (route : V → S → Result (Unit {0}) E × S) (limit : ℕ)
    (chunks : List Text) (s : S)
    → read_chunks json route (new limit) s chunks
      ≡ some (handled_scan json route limit (scan json limit [] (flatten chunks)) s)
unfolding new
read_chunks-new json route limit chunks s =
    read_chunks-scan json route limit chunks [] s tt (omega arith)
