-- ===== src/Boundaries.antt =====
-- Character boundaries of UTF-8 texts, and the loop that lowers an index to one, which several parts
-- of the program share.
pub mod Utf8
pub mod Chars
use guigu_agent_bridge.Prelude.{
  ℕ, zero, suc, ◌≤◌, ◌<◌, ◌≡◌, ◌⊎◌, refl, Option, none, some, Bool, true, false, ◌||◌, List, [],
  ◌∷◌, leb, ltb, ◌==◌, if◌then◌else◌, length, take, get_elem?, length-take, arith, ap, Bool-cases,
  inl, inr,
}
use guigu_agent_bridge.Prelude.Texts.{Text}

-- Not a UTF-8 continuation byte.
abbrev pub starts_char : Option ℕ → Bool
starts_char none = false
starts_char (some b) = ltb b 128 || leb 192 b

-- The standard library's `str::is_char_boundary`.
unfoldable pub is_char_boundary : Text → ℕ → Bool
is_char_boundary s i =
    if i == 0 then true else if leb (length s) i then i == length s else starts_char (get_elem? s i)

-- The loop that lowers `end` to a boundary.
unfoldable pub floor_boundary : Text → ℕ → ℕ
floor_boundary s zero = 0
floor_boundary s (suc n) = if is_char_boundary s (suc n) then suc n else floor_boundary s n

-- A text within the limit is kept, and a longer one is cut at a boundary.
unfoldable pub truncate : ℕ → Text → Text
truncate limit text =
    if leb (length text) limit then text else take (floor_boundary text limit) text

pub floor_boundary-le : (s : Text) (n : ℕ) → floor_boundary s n ≤ n
unfolding floor_boundary
floor_boundary-le s zero = omega arith
floor_boundary-le s (suc n) = ground (arith, floor_boundary-le s n)

pub floor_boundary_is : (s : Text) (n : ℕ) → is_char_boundary s (floor_boundary s n) ≡ true
unfolding floor_boundary
floor_boundary_is s zero = unfold is_char_boundary in refl
floor_boundary_is s (suc n) = ground (arith, floor_boundary_is s n)

-- No boundary is passed over.
pub floor_boundary_max :
    (s : Text) (n i : ℕ) → i ≤ n → is_char_boundary s i ≡ true → i ≤ floor_boundary s n
unfolding floor_boundary
floor_boundary_max s zero i h b = h
floor_boundary_max s (suc n) i h b = elim (Bool-cases (is_char_boundary s (suc n))) [
  | inl e ↦ rw e h
  | inr e ↦ rw e (floor_boundary_max s n i (ground arith) b)
]

-- `cut` is the longest prefix of `text` that ends at a character boundary within `limit` bytes.
pub record IsCut (limit : ℕ) (text cut : Text) : Type 0 where
  pub is_prefix : cut ≡ take (length cut) text
  pub small : length cut ≤ limit
  pub boundary : is_char_boundary text (length cut) ≡ true
  pub longest :
      (i : ℕ)
      → (i ≤ length cut) ⊎ (limit < i) ⊎ (length text < i) ⊎ (is_char_boundary text i ≡ false)

take-length {ℓ} : {A : Type ℓ} (xs : List A) → xs ≡ take (length xs) xs
take-length [] = refl
take-length (x ∷ xs) = ap (◌∷◌ x) (take-length xs)

pub is_char_boundary-length : (s : Text) → is_char_boundary s (length s) ≡ true
unfolding is_char_boundary
is_char_boundary-length s = ground arith

pub cut_at : (text : Text) (n : ℕ) → n ≤ length text → length (take n text) ≡ n
cut_at text n h = omega (arith, length-take n text)

long-IsCut :
    (limit : ℕ) (text : Text)
    → limit ≤ length text
    → IsCut limit text (take (floor_boundary text limit) text)
long-IsCut limit text h = record {
  is_prefix = rw size;
  small = omega (arith, size, floor_boundary-le text limit);
  boundary = rw size (floor_boundary_is text limit);
  longest = λ i. ground (arith, size, floor_boundary_max text limit i);
}
  where
    size : length (take (floor_boundary text limit) text) ≡ floor_boundary text limit
    size = cut_at text (floor_boundary text limit) (omega (arith, floor_boundary-le text limit))

pub truncate-IsCut :
    (limit : ℕ) (text : Text)
    → IsCut limit text (truncate limit text)
      × ((truncate limit text ≡ text) ⊎ (limit < length text))
unfolding truncate
truncate-IsCut limit text = elim (Bool-cases (leb (length text) limit)) [
  | inl short ↦ rw short (
    record {
      is_prefix = take-length text;
      small = ground arith;
      boundary = is_char_boundary-length text;
      longest = λ i. ground arith;
    },
    inl refl,
  )
  | inr long ↦ rw long (long-IsCut limit text (ground arith), inr (ground arith))
]
