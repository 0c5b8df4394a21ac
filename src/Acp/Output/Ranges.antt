-- ===== src/Acp/Output/Ranges.antt =====
-- The ranges of `utf8_ranges` in src/acp/output_files.rs.
use mathlib.Core.List.{flatten, map}
use guigu_agent_bridge.Prelude.{
  ℕ, zero, suc, ◌+◌, ◌-◌, ◌≤◌, ◌<◌, ◌≡◌, ◌⊎◌, inl, inr, refl, sym, ap, ◌∙◌, min, Bool, true, false,
  List, [], ◌∷◌, ◌++◌, Result, ok, leb, ◌==◌, length, take, drop, get_elem?, is_empty, arith,
  Bool-cases, take-append-drop, length-append, length-take,
}
use guigu_agent_bridge.Prelude.Texts.{Text}
use guigu_agent_bridge.Boundaries.{is_char_boundary}
use guigu_agent_bridge.Boundaries.Chars.{IsText, IsText-SplitAt, IsText-FirstChar}
use guigu_agent_bridge.Acp.Output.{OutputSpoolError, lower, ranges_from, utf8_ranges}

-- The ranges follow each other from `start` to the end of the text. Each has a byte at least, `max` at
-- most, and ends at a character boundary.
abbrev pub Tiles : Text → ℕ → ℕ → List (ℕ × ℕ) → Type 0
Tiles text max start [] = start ≡ length text
Tiles text max start ((s, e) ∷ ranges) =
    (s ≡ start)
    × (s < e)
    × (e ≤ s + max)
    × (is_char_boundary text e ≡ true)
    × Tiles text max e ranges

abbrev pub slice : Text → ℕ × ℕ → Text
slice text (s, e) = take (e - s) (drop s text)

lower-le : (text : Text) (start k : ℕ) → lower text start k ≤ start + k
unfolding lower
lower-le text start zero = omega arith
lower-le text start (suc k) = ground (arith, lower-le text start k)

lower_boundary :
    (text : Text) (start k : ℕ)
    → is_char_boundary text start ≡ true
    → is_char_boundary text (lower text start k) ≡ true
unfolding lower
lower_boundary text start zero h = h
lower_boundary text start (suc k) h = ground (arith, lower_boundary text start k)

lower_max :
    (text : Text) (start k i : ℕ)
    → i ≤ k
    → is_char_boundary text (start + i) ≡ true
    → start + i ≤ lower text start k
unfolding lower
lower_max text start zero i h b = omega arith
lower_max text start (suc k) i h b = elim (Bool-cases (is_char_boundary text (start + suc k))) [
  | inl e ↦ rw e (omega arith)
  | inr e ↦ rw e (lower_max text start k i (ground arith) b)
]

pub length-drop : (n : ℕ) (s : Text) → n ≤ length s → n + length (drop n s) ≡ length s
length-drop n s h =
    omega (
      arith,
      ap length (take-append-drop n s),
      length-append (take n s) (drop n s),
      length-take n s,
    )

get_elem?-drop : (n k : ℕ) (s : Text) → get_elem? (drop n s) k ≡ get_elem? s (n + k)
get_elem?-drop zero k s = let e : 0 + k ≡ k = omega arith in rw e
get_elem?-drop (suc n) k [] = refl
get_elem?-drop (suc n) k (x ∷ s) =
    let e : suc n + k ≡ suc (n + k) = omega arith in rw (e, get_elem?-drop n k s)

boundary_drop :
    (text : Text) (n k : ℕ)
    → n ≤ length text
    → 1 ≤ k
    → is_char_boundary (drop n text) k ≡ true
    → is_char_boundary text (n + k) ≡ true
unfolding is_char_boundary
boundary_drop text n k h pos b = ground (arith, length-drop n text h, get_elem?-drop n k text)

drop_nil : (n : ℕ) → drop {A = ℕ} n [] ≡ []
drop_nil zero = refl
drop_nil (suc n) = refl

drop-drop : (n k : ℕ) (s : Text) → drop k (drop n s) ≡ drop (n + k) s
drop-drop zero k s = let e : 0 + k ≡ k = omega arith in rw e
drop-drop (suc n) k [] = drop_nil k ∙ sym (drop_nil (suc n + k))
drop-drop (suc n) k (x ∷ s) =
    let e : suc n + k ≡ suc (n + k) = omega arith in rw (e, drop-drop n k s)

slice-append_drop : (text : Text) (s e : ℕ) → s ≤ e → slice text (s, e) ++ drop e text ≡ drop s text
slice-append_drop text s e h =
    let same : s + (e - s) ≡ e = omega arith in
    ap (λ t. slice text (s, e) ++ t)
      (ap (λ n. drop n text) (sym same) ∙ sym (drop-drop s (e - s) text))
    ∙ take-append-drop (e - s) (drop s text)

drop_all : (s : Text) → drop (length s) s ≡ []
drop_all [] = refl
drop_all (x ∷ s) = drop_all s

flatten-Tiles :
    (text : Text) (max start : ℕ) (ranges : List (ℕ × ℕ))
    → Tiles text max start ranges
    → flatten (map (slice text) ranges) ≡ drop start text
unfolding flatten
flatten-Tiles text max start [] h = rw h (sym (drop_all text))
flatten-Tiles text max start ((s, e) ∷ ranges) (first, more, small, boundary, rest) =
    rw (flatten-Tiles text max e ranges rest)
      (slice-append_drop text s e (omega arith) ∙ ap (λ n. drop n text) first)

-- A range is large enough for the next character.
abbrev pub Fits : ℕ → Text → Type 0
Fits max text = (4 ≤ max) ⊎ (length text ≤ max)

-- The result is a tiling.
pub record Tiled (text : Text) (max start : ℕ) (r : Result (List (ℕ × ℕ)) OutputSpoolError)
    : Type 0 where
  pub ranges : List (ℕ × ℕ)
  pub result : r ≡ ok ranges
  pub tiles : Tiles text max start ranges

next_end :
    (text : Text) (max start : ℕ)
    → IsText text
    → Fits max text
    → is_char_boundary text start ≡ true
    → start < length text
    → start < lower text start (min max (length text - start))
next_end text max start t fits b h =
    let after = (IsText-SplitAt text start t (omega arith) b).after in
    let first = IsText-FirstChar (drop start text) after (omega (arith, length-drop start text)) in
    let room : first.size ≤ min max (length text - start) =
      omega (arith, fits, first.small, first.within, length-drop start text) in
    omega (
      arith,
      first.some_byte,
      lower_max text start (min max (length text - start)) first.size room
          (boundary_drop text start first.size (omega arith) first.some_byte first.boundary),
    )

ranges_from-Tiled :
    (fuel : ℕ) (text : Text) (max start : ℕ)
    → IsText text
    → Fits max text
    → is_char_boundary text start ≡ true
    → start ≤ length text
    → length text ≤ start + fuel
    → Tiled text max start (ranges_from fuel text max start)
unfolding ranges_from
ranges_from-Tiled zero text max start t fits b h enough = record {
  ranges = [];
  result = refl;
  tiles = omega arith;
}
ranges_from-Tiled (suc fuel) text max start t fits b h enough =
    let k = min max (length text - start) in
    let end = lower text start k in
    let below = lower-le text start k in
    let at_end = lower_boundary text start k b in
    elim (Bool-cases (leb (length text) start)) [
      | inl e ↦ rw e (record { ranges = []; result = refl; tiles = ground arith })
      | inr e ↦
          let more = next_end text max start t fits b (ground arith) in
          let moved : (end == start) ≡ false = ground arith in
          let rest =
            ranges_from-Tiled fuel text max end t fits at_end (omega arith) (omega arith) in
          rw (e, moved, rest.result)
            (record {
              ranges = (start, end) ∷ rest.ranges;
              result = refl;
              tiles = (refl, more, omega arith, at_end, rest.tiles);
            })
    ]

-- A non-empty UTF-8 text is cut into ranges that tile it: each has from one to `max` bytes and ends
-- at a character boundary, and the slices joined are the text. For this `max` is at least four or
-- holds the whole text.
pub utf8_ranges-Tiles :
    (is_utf8 : Text → Bool) (text : Text) (max : ℕ)
    → is_utf8 text ≡ true
    → IsText text
    → 1 ≤ length text
    → Fits max text
    → (ranges : List (ℕ × ℕ)) × (utf8_ranges is_utf8 text max ≡ ok ranges)
      × Tiles text max 0 ranges
      × (flatten (map (slice text) ranges) ≡ text)
unfolding utf8_ranges
utf8_ranges-Tiles is_utf8 text max valid t some_byte fits =
    let tiled =
      ranges_from-Tiled (length text) text max 0 t fits (unfold is_char_boundary in refl)
        (omega arith) (omega arith) in
    let full : is_empty text ≡ false = ground arith in
    (
      tiled.ranges,
      rw (valid, full) tiled.result,
      tiled.tiles,
      flatten-Tiles text max 0 tiled.ranges tiled.tiles,
    )
