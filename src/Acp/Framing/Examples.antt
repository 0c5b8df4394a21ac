-- ===== src/Acp/Framing/Examples.antt =====
-- A codec of numbers, written in unary, and runs of the reader.
use mathlib.Core.List.{flatten, map}
use guigu_agent_bridge.Prelude.{
  ℕ, zero, suc, ◌-◌, ◌≡◌, ◌≢◌, refl, some, true, false, List, [], ◌∷◌, ok, length, All, arith,
  is_empty, Result, err, ◌==◌, if◌then◌else◌,
}
use guigu_agent_bridge.Prelude.Texts.{Text, codes}
use guigu_agent_bridge.Acp.Framing.{
  Json, new, newline, write_frame, finish, read_chunks, unrouted, drain, next_frame, next_loop,
  round_at, on_line, on_text, position, push,
}
use guigu_agent_bridge.Acp.Framing.Scan.{scan}
use guigu_agent_bridge.Acp.Framing.Reading.{handled_scan, read_chunks-new}
use guigu_agent_bridge.Acp.Framing.RoundTrip.{IsCompact, read_chunks-write_frame}

abbrev strokes : ℕ → Text
strokes zero = b'1' ∷ []
strokes (suc n) = b'1' ∷ strokes n

abbrev unary : Json ℕ
unary = record {
  is_utf8 = λ s. true;
  trim = λ s. s;
  from_str = λ s. ok (length s - 1);
  to_vec = strokes;
}

strokes_line : (n : ℕ) → All (λ b. b ≢ newline) (strokes n)
strokes_line zero = omega arith
strokes_line (suc n) = (omega arith, strokes_line n)

length-strokes : (n : ℕ) → length (strokes n) ≡ suc n
length-strokes zero = refl
length-strokes (suc n) = omega (arith, length-strokes n)

strokes_not_blank : (n : ℕ) → is_empty (strokes n) ≡ false
strokes_not_blank zero = refl
strokes_not_blank (suc n) = refl

strokes_parse : (n : ℕ) → unary.from_str (strokes n) ≡ ok n
strokes_parse n = let e : length (strokes n) - 1 ≡ n = omega (arith, length-strokes n) in rw e

unary-IsCompact : IsCompact unary
unary-IsCompact = record {
  one_line = strokes_line;
  valid = λ v. refl;
  not_padded = λ v. refl;
  not_blank = strokes_not_blank;
}

abbrev in_pieces : List Text
in_pieces = codes "11" ∷ codes "1\n1" ∷ codes "\n" ∷ []

-- Values are kept, the last first, and 5 is refused.
abbrev keep_or_refuse : ℕ → List ℕ → Result (Unit {0}) Text × List ℕ
keep_or_refuse v s = if v == 5 then (err (codes "five"), s) else (ok tt, v ∷ s)

read_chunks-new_example :
    read_chunks unary keep_or_refuse (new 2) [] in_pieces
    ≡ some (handled_scan unary keep_or_refuse 2 (scan unary 2 [] (flatten in_pieces)) [])
read_chunks-new_example = read_chunks-new unary keep_or_refuse 2 in_pieces []

-- The value after the refused one is not handled.
refused_test :
    read_chunks unary keep_or_refuse (new 9) [] (codes "11\n1111" ∷ codes "11\n1\n" ∷ [])
    ≡ some (1 ∷ [], err (unrouted (codes "five")))
unfolding read_chunks drain next_frame next_loop round_at on_line on_text position push new
refused_test = refl

pieces_same : flatten in_pieces ≡ flatten (map (write_frame unary) (2 ∷ 0 ∷ []))
unfolding flatten write_frame
pieces_same = refl

read_chunks-write_frame_example :
    (read_chunks unary keep_or_refuse (new 3) [] in_pieces ≡ some (0 ∷ 2 ∷ [], ok (new 3)))
    × (finish (new 3) ≡ ok tt)
unfolding new
read_chunks-write_frame_example =
    read_chunks-write_frame unary keep_or_refuse 3 (2 ∷ 0 ∷ []) in_pieces [] unary-IsCompact
      ((omega arith, strokes_parse 2), ((omega arith, strokes_parse 0), tt)) pieces_same
