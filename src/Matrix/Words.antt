-- ===== src/Matrix/Words.antt =====
-- The operations of `str` that the router uses, on UTF-8 bytes.
use guigu_agent_bridge.Prelude.{
  ℕ, zero, suc, Option, none, some, Bool, ◌&&◌, ◌||◌, [], ◌∷◌, leb, ◌==◌, if◌then◌else◌, length,
  drop,
}
use guigu_agent_bridge.Prelude.Texts.{Text}

-- The bytes, 1 to 3, of the white space character of one, two or three bytes; else 0.
abbrev ascii_space : ℕ → Bool
ascii_space b = (leb 9 b && leb b 13) || b == 32

abbrev two_byte_space : ℕ → ℕ → Bool
two_byte_space b c = b == 194 && (c == 133 || c == 160)

abbrev three_byte_space : ℕ → ℕ → ℕ → Bool
three_byte_space b c d =
    (b == 225 && c == 154 && d == 128)
    || (b == 226 && c == 128 && ((leb 128 d && leb d 138) || d == 168 || d == 169 || d == 175))
    || (b == 226 && c == 129 && d == 159)
    || (b == 227 && c == 128 && d == 128)

-- The size of the white space character that the text starts with; 0 if there is none.
unfoldable pub space_size : Text → ℕ
space_size [] = 0
space_size (b ∷ []) = if ascii_space b then 1 else 0
space_size (b ∷ c ∷ []) = if ascii_space b then 1 else if two_byte_space b c then 2 else 0
space_size (b ∷ c ∷ d ∷ s) =
    if ascii_space b
    then 1
    else if two_byte_space b c
    then 2
    else if three_byte_space b c d
    then 3
    else 0

-- The same for a text that was reversed.
unfoldable pub last_space_size : Text → ℕ
last_space_size [] = 0
last_space_size (b ∷ []) = if ascii_space b then 1 else 0
last_space_size (b ∷ c ∷ []) = if ascii_space b then 1 else if two_byte_space c b then 2 else 0
last_space_size (b ∷ c ∷ d ∷ s) =
    if ascii_space b
    then 1
    else if two_byte_space c b
    then 2
    else if three_byte_space d c b
    then 3
    else 0

-- Characters are dropped while they are white space; the bytes' number is enough fuel.
unfoldable pub trim_by : (Text → ℕ) → ℕ → Text → Text
trim_by size zero s = s
trim_by size (suc fuel) s =
    let rest = trim_by size fuel (drop (size s) s) in if size s == 0 then s else rest

unfoldable pub reversed_onto : Text → Text → Text
reversed_onto done [] = done
reversed_onto done (b ∷ s) = reversed_onto (b ∷ done) s

unfoldable pub trim_start : Text → Text
trim_start s = trim_by space_size (length s) s

unfoldable pub trim_end : Text → Text
trim_end s = reversed_onto [] (trim_by last_space_size (length s) (reversed_onto [] s))

unfoldable pub trim : Text → Text
unfolding trim_start trim_end
trim s = trim_end (trim_start s)

abbrev pub after_byte : ℕ → Option (Text × Text) → Option (Text × Text)
after_byte b none = none
after_byte b (some (before, after)) = some (b ∷ before, after)

-- `split_once` at an ASCII byte.
unfoldable pub split_once : ℕ → Text → Option (Text × Text)
split_once mark [] = none
split_once mark (b ∷ s) =
    let rest = after_byte b (split_once mark s) in if b == mark then some ([], s) else rest

-- `strip_prefix` of an ASCII byte.
unfoldable pub strip_prefix : ℕ → Text → Option Text
strip_prefix mark [] = none
strip_prefix mark (b ∷ s) = if b == mark then some s else none
