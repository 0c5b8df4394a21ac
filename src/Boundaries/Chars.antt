-- ===== src/Boundaries/Chars.antt =====
-- The structure of UTF-8 texts: a text is a list of characters, each of one to four bytes, and its
-- boundaries are between them.
use mathlib.Core.List.{append_assoc, flatten}
use guigu_agent_bridge.Prelude.{
  ℕ, zero, suc, ◌+◌, ◌-◌, ◌≤◌, ◌≡◌, ◌⊎◌, inl, inr, refl, ap, some, true, false, List, [], ◌∷◌, ◌++◌,
  length, take, drop, get_elem?, All, arith, length-append, ◌∙◌,
}
use guigu_agent_bridge.Prelude.Texts.{Text}
use guigu_agent_bridge.Boundaries.{starts_char, is_char_boundary}
use guigu_agent_bridge.Boundaries.Utf8.{is_utf8, is_utf8-append}

abbrev pub IsChar : Text → Type 0
IsChar [] = ⊥
IsChar (b ∷ more) =
    (starts_char (some b) ≡ true)
    × All (λ c. starts_char (some c) ≡ false) more
    × (length more ≤ 3)
    × (is_utf8 (b ∷ more) ≡ true)

-- The bytes are those of a Rust `str`.
pub record IsText (s : Text) : Type 0 where
  pub chars : List Text
  pub valid : All IsChar chars
  pub bytes : s ≡ flatten chars

chars_is_utf8 : (chars : List Text) → All IsChar chars → is_utf8 (flatten chars) ≡ true
unfolding flatten
chars_is_utf8 [] h = unfold is_utf8 in refl
chars_is_utf8 ([] ∷ chars) h = absurd (h.0)
chars_is_utf8 ((b ∷ more) ∷ chars) h =
    is_utf8-append (b ∷ more) (flatten chars) h.0.3 ∙ chars_is_utf8 chars h.1

pub IsText-is_utf8 : (s : Text) → IsText s → is_utf8 s ≡ true
IsText-is_utf8 s t = rw t.bytes (chars_is_utf8 t.chars t.valid)

abbrev Between : Text → ℕ → Type 0
Between s n = (n ≡ 0) ⊎ (n ≡ length s) ⊎ (starts_char (get_elem? s n) ≡ true)

boundary-Between : (s : Text) (n : ℕ) → is_char_boundary s n ≡ true → Between s n
unfolding is_char_boundary
boundary-Between s n h = ground arith

-- Inside a character there is no boundary.
past_char :
    (more t : Text) (n : ℕ)
    → All (λ c. starts_char (some c) ≡ false) more
    → (n ≡ length (more ++ t)) ⊎ (starts_char (get_elem? (more ++ t) n) ≡ true)
    → length more ≤ n
past_char [] t n h b = omega arith
past_char (c ∷ more) t zero h (inl e) = absurd (omega (arith, e))
past_char (c ∷ more) t zero h (inr e) = cc (h.0)
past_char (c ∷ more) t (suc n) h (inl e) = omega (arith, past_char more t n h.1 (inl (omega arith)))
past_char (c ∷ more) t (suc n) h (inr e) = omega (arith, past_char more t n h.1 (inr e))

after_char :
    (more t : Text) (m : ℕ)
    → (length more + m ≡ length (more ++ t))
      ⊎ (starts_char (get_elem? (more ++ t) (length more + m)) ≡ true)
    → Between t m
after_char [] t m (inl e) = inr (inl (omega arith))
after_char [] t m (inr e) = let same : 0 + m ≡ m = omega arith in inr (inr (rw same at e))
after_char (c ∷ more) t m (inl e) = after_char more t m (inl (omega arith))
after_char (c ∷ more) t m (inr e) =
    let same : suc (length more) + m ≡ suc (length more + m) = omega arith in
    after_char more t m (inr (rw same at e))

take-append : (xs ys : Text) (m : ℕ) → take (length xs + m) (xs ++ ys) ≡ xs ++ take m ys
take-append [] ys m = let e : 0 + m ≡ m = omega arith in rw e
take-append (x ∷ xs) ys m =
    let e : suc (length xs) + m ≡ suc (length xs + m) = omega arith in rw (e, take-append xs ys m)

drop-append : (xs ys : Text) (m : ℕ) → drop (length xs + m) (xs ++ ys) ≡ drop m ys
drop-append [] ys m = let e : 0 + m ≡ m = omega arith in rw e
drop-append (x ∷ xs) ys m =
    let e : suc (length xs) + m ≡ suc (length xs + m) = omega arith in rw (e, drop-append xs ys m)

-- A boundary splits the characters.
pub record SplitAt (s : Text) (n : ℕ) : Type 0 where
  pub before : IsText (take n s)
  pub after : IsText (drop n s)

empty-IsText : IsText []
unfolding flatten
empty-IsText = record { chars = []; valid = tt; bytes = refl }

cons-IsText : (c s : Text) → IsChar c → IsText s → IsText (c ++ s)
unfolding flatten
cons-IsText c s h t = record {
  chars = c ∷ t.chars;
  valid = (h, t.valid);
  bytes = ap (◌++◌ c) t.bytes;
}

cons-SplitAt :
    (x : ℕ) (more t : Text) (m : ℕ)
    → IsChar (x ∷ more)
    → SplitAt t m
    → SplitAt (x ∷ (more ++ t)) (suc (length more + m))
cons-SplitAt x more t m h rest = record {
  before = rw (take-append more t m) (cons-IsText (x ∷ more) (take m t) h rest.before);
  after = rw (drop-append more t m) rest.after;
}

split_chars :
    (chars : List Text) (n : ℕ)
    → All IsChar chars
    → n ≤ length (flatten chars)
    → Between (flatten chars) n
    → SplitAt (flatten chars) n
unfolding flatten
split_chars [] n h small b =
    let e : n ≡ 0 = omega arith in rw e (record { before = empty-IsText; after = empty-IsText })
split_chars (c ∷ chars) zero h small b = record {
  before = empty-IsText;
  after = cons-IsText c (flatten chars) h.0 (record { chars = chars; valid = h.1; bytes = refl });
}
split_chars ([] ∷ chars) (suc n) h small b = absurd (h.0)
split_chars ((x ∷ more) ∷ chars) (suc n) h small (inl e) = absurd (omega (arith, e))
split_chars ((x ∷ more) ∷ chars) (suc n) h small (inr b) =
    let t = flatten chars in
    let inside =
      elim b as (λ _. (n ≡ length (more ++ t)) ⊎ (starts_char (get_elem? (more ++ t) n) ≡ true)) [
        | inl e ↦ inl (omega arith)
        | inr e ↦ inr e
      ] in
    let past = past_char more t n h.0.1 inside in
    let m = n - length more in
    let same : n ≡ length more + m = omega arith in
    let rest : SplitAt t m =
      split_chars chars m h.1 (omega (arith, length-append more t))
        (after_char more t m (rw same at inside)) in
    rw same (cons-SplitAt x more t m h.0 rest)

pub IsText-SplitAt :
    (s : Text) (n : ℕ) → IsText s → n ≤ length s → is_char_boundary s n ≡ true → SplitAt s n
IsText-SplitAt s n t small b = rw t.bytes (
    split_chars t.chars n t.valid (omega (arith, ap length t.bytes))
      (rw t.bytes at (boundary-Between s n b)))

append_chars :
    (chars : List Text) (s : Text) → All IsChar chars → IsText s → IsText (flatten chars ++ s)
unfolding flatten
append_chars [] s h t = t
append_chars (c ∷ chars) s h t =
    rw append_assoc (cons-IsText c (flatten chars ++ s) h.0 (append_chars chars s h.1 t))

pub append-IsText : (s t : Text) → IsText s → IsText t → IsText (s ++ t)
append-IsText s t a b = rw a.bytes (append_chars a.chars t a.valid b)

-- The first boundary after the start of a text, at most four bytes on.
pub record FirstChar (s : Text) : Type 0 where
  pub size : ℕ
  pub some_byte : 1 ≤ size
  pub small : size ≤ 4
  pub within : size ≤ length s
  pub boundary : is_char_boundary s size ≡ true

Between-boundary : (s : Text) (n : ℕ) → Between s n → n ≤ length s → is_char_boundary s n ≡ true
unfolding is_char_boundary
Between-boundary s n b h = ground arith

get_elem?-append : (xs ys : Text) → get_elem? (xs ++ ys) (length xs) ≡ get_elem? ys 0
get_elem?-append [] ys = refl
get_elem?-append (x ∷ xs) ys = get_elem?-append xs ys

first_boundary :
    (x : ℕ) (more : Text) (chars : List Text)
    → All IsChar chars
    → Between (x ∷ (more ++ flatten chars)) (suc (length more))
unfolding flatten
first_boundary x more [] t = inr (inl (omega (arith, length-append more [])))
first_boundary x more ([] ∷ chars) t = absurd (t.0)
first_boundary x more ((y ∷ c) ∷ chars) t =
    inr (inr (rw (get_elem?-append more (y ∷ (c ++ flatten chars))) t.0.0))

chars-FirstChar :
    (chars : List Text) → All IsChar chars → 1 ≤ length (flatten chars) → FirstChar (flatten chars)
unfolding flatten
chars-FirstChar [] h nonempty = absurd (omega arith)
chars-FirstChar ([] ∷ chars) h nonempty = absurd (h.0)
chars-FirstChar ((x ∷ more) ∷ chars) h nonempty = record {
  size = suc (length more);
  some_byte = omega arith;
  small = omega (arith, h.0.2);
  within = omega (arith, length-append more (flatten chars));
  boundary =
      Between-boundary (x ∷ (more ++ flatten chars)) (suc (length more))
        (first_boundary x more chars h.1) (omega (arith, length-append more (flatten chars)));
}

pub IsText-FirstChar : (s : Text) → IsText s → 1 ≤ length s → FirstChar s
IsText-FirstChar s t h =
    rw t.bytes (chars-FirstChar t.chars t.valid (omega (arith, ap length t.bytes)))
