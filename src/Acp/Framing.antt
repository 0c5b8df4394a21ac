-- ===== src/Acp/Framing.antt =====
-- The JSONL codec of src/acp/framing.rs. UTF-8 validation, `str::trim` and serde_json are a parameter.
pub mod Scan
pub mod Lines
pub mod Answers
pub mod Reading
pub mod RoundTrip
pub mod Examples
use guigu_agent_bridge.Prelude.{
  ℕ, zero, suc, ◌+◌, ◌*◌, ◌≤◌, Option, none, some, Bool, true, false, ◌&&◌, ◌||◌, List, [], ◌∷◌,
  ◌++◌, Result, ok, err, leb, ltb, ◌==◌, if◌then◌else◌, length, take, drop, all, is_empty,
}
use guigu_agent_bridge.Prelude.Texts.{Text}
use guigu_agent_bridge.Acp.Detail.{bounded}

abbrev pub newline : ℕ
newline = b'\n'

abbrev pub max_frame_bytes : ℕ
max_frame_bytes = 1024 * 1024

-- What the codec calls: the UTF-8 check, `trim`, and JSON with the messages of its errors.
pub record Json (V : Type 0) : Type 0 where
  pub is_utf8 : Text → Bool
  pub trim : Text → Text
  pub from_str : Text → Result V Text
  pub to_vec : V → Text

pub data FrameError : Type 0 where
  too_large : ℕ → FrameError
  not_utf8 truncated io : FrameError
  malformed : Text → FrameError

pub record FrameReader : Type 0 where
  pub partial : Text
  pub limit : ℕ

unfoldable pub new : ℕ → FrameReader
new limit = record { partial = []; limit = limit }

unfoldable pub push : FrameReader → Text → FrameReader
push r bytes = record r { partial = r.partial ++ bytes }

-- `iter().position(|byte| *byte == b'\n')`.
unfoldable pub position : Text → Option ℕ
position [] = none
position (b ∷ s) =
    if b == newline then some 0 else elim (position s) [ none ↦ none | some n ↦ some (suc n) ]

abbrev pub is_ascii_whitespace : ℕ → Bool
is_ascii_whitespace b = b == 32 || b == 9 || b == 10 || b == 12 || b == 13

unfoldable pub finish : FrameReader → Result (Unit {0}) FrameError
finish r = if all is_ascii_whitespace r.partial then ok tt else err truncated

module _ {V : Type 0} (json : Json V) where
  -- How a round of the loop in `next_frame` ends: with its answer, or with another round.
  pub data Round : Type 0 where
    answers : Result (Option V) FrameError → FrameReader → Round
    continues : FrameReader → Round

  abbrev pub parsed : Result V Text → Result (Option V) FrameError
  parsed (ok value) = ok (some value)
  parsed (err error) = err (malformed (bounded error))

  -- A complete line, its newline left off.
  unfoldable pub on_text : Text → FrameReader → Round
  on_text line r =
      if is_empty (json.trim line)
      then continues r
      else answers (parsed (json.from_str (json.trim line))) r

  unfoldable pub on_line : Text → FrameReader → Round
  unfolding on_text
  on_line line r = if json.is_utf8 line then on_text line r else answers (err not_utf8) r

  unfoldable pub round_at : FrameReader → Option ℕ → Round
  unfolding on_line
  round_at r none =
      if ltb r.limit (length r.partial)
      then answers (err (too_large r.limit)) r
      else answers (ok none) r
  round_at r (some n) =
      if ltb r.limit n
      then answers (err (too_large r.limit)) r
      else on_line (take n r.partial) (record r { partial = drop (suc n) r.partial })

  abbrev pub next_round :
      (FrameReader → Option (Result (Option V) FrameError × FrameReader))
      → Round
      → Option (Result (Option V) FrameError × FrameReader)
  next_round next (answers a r) = some (a, r)
  next_round next (continues r) = next r

  -- Each round that goes on takes a line off the buffer.
  unfoldable pub next_loop : ℕ → FrameReader → Option (Result (Option V) FrameError × FrameReader)
  next_loop zero r = none
  next_loop (suc fuel) r = next_round (next_loop fuel) (round_at r (position r.partial))

  unfoldable pub next_frame : FrameReader → Option (Result (Option V) FrameError × FrameReader)
  next_frame r = next_loop (suc (length r.partial)) r

  unfoldable pub write_frame : V → Text
  write_frame value = json.to_vec value ++ newline ∷ []

-- Why the transport stops: a frame that is not read, or a value that is not routed.
pub data Stop (E : Type 0) : Type 0 where
  unread : FrameError → Stop E
  unrouted : E → Stop E

-- The transport's reads, without the requests it sends between them. What it does with a value, `route`
-- of src/acp/transport.rs, is a parameter on the transport's state, and may fail.
module _ {V S E : Type 0} (json : Json V) (route : V → S → Result (Unit {0}) E × S) where
  -- The state after reading, and the reader or why the transport stopped.
  abbrev pub Read : Type 0
  Read = S × Result FrameReader (Stop E)

  abbrev pub routed :
      (FrameReader → S → Option Read) → FrameReader → Result (Unit {0}) E × S → Option Read
  routed next r (ok u, s) = next r s
  routed next r (err failure, s) = some (s, err (unrouted failure))

  -- The loop on the answers of `next_frame`, until there is none, an error, or a failed frame.
  abbrev pub on_answer :
      (FrameReader → S → Option Read)
      → S
      → Option (Result (Option V) FrameError × FrameReader)
      → Option Read
  on_answer next s none = none
  on_answer next s (some (ok (some value), r)) = routed next r (route value s)
  on_answer next s (some (ok none, r)) = some (s, ok r)
  on_answer next s (some (err error, r)) = some (s, err (unread error))

  unfoldable pub drain : ℕ → FrameReader → S → Option Read
  drain zero r s = none
  drain (suc fuel) r s = on_answer (drain fuel) s (next_frame json r)

  abbrev pub then_read : Option Read → (FrameReader → S → Option Read) → Option Read
  then_read none next = none
  then_read (some (s, err stop)) next = some (s, err stop)
  then_read (some (s, ok r)) next = next r s

  -- One chunk after another.
  unfoldable pub read_chunks : FrameReader → S → List Text → Option Read
  read_chunks r s [] = some (s, ok r)
  read_chunks r s (chunk ∷ chunks) =
      let r' = push r chunk in
      then_read (drain (suc (length r'.partial)) r' s) (λ r'' s'. read_chunks r'' s' chunks)
