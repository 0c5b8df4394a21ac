-- ===== src/Prelude/Texts.antt =====
-- A Rust `String` is the list of its UTF-8 bytes; a literal's bytes are its code points (the
-- literals used are ASCII).
use Prim.Native.Nat.{ℕ, zero, suc, ◌+◌, ◌/◌, ◌%◌}
use Prim.Native.Char.{code}
use Prim.Native.String.{String}
use mathlib.Core.List.{List, [], ◌∷◌}
use mathlib.Core.Option.{Option, none, some}
use mathlib.Core.Bool.{Bool, true, false, ◌&&◌}
use mathlib.Core.Path.{◌≡◌, refl}
use mathlib.Core.Logic.{◌↔◌}
use native.Mathlib.Omega.{arith}
use guigu_agent_bridge.Prelude.Tests.{◌==◌, if◌then◌else◌, ltb}

abbrev pub Text : Type 0
Text = List ℕ

abbrev pub codes : String → Text
codes String.[] = []
codes (String.◌∷◌ c s) = code c ∷ codes s

-- The decimal digits of a number, as Rust's `Display` for `u32` and `u64` writes them. Twenty
-- digits hold every 64-bit value.
show_digits : ℕ → ℕ → Text → Text
show_digits zero n out = out
show_digits (suc f) n out =
    let more = show_digits f (n / 10) ((b'0' + n % 10) ∷ out) in
    if ltb n 10 then (b'0' + n) ∷ out else more

unfoldable pub show_nat : ℕ → Text
unfolding show_digits
show_nat n = show_digits 20 n []

-- Equality of texts, byte by byte.
unfoldable pub text_eq : Text → Text → Bool
text_eq [] [] = true
text_eq [] (y ∷ ys) = false
text_eq (x ∷ xs) [] = false
text_eq (x ∷ xs) (y ∷ ys) = x == y && text_eq xs ys

pub text_eq_iff : (s t : Text) → (text_eq s t ≡ true) ↔ (s ≡ t)
unfolding text_eq
text_eq_iff [] [] = (λ h. refl, λ h. refl)
text_eq_iff [] (y ∷ ys) = ground arith
text_eq_iff (x ∷ xs) [] = ground arith
text_eq_iff (x ∷ xs) (y ∷ ys) = ground (arith, text_eq_iff xs ys)

pub text_eq_refl : (s : Text) → text_eq s s ≡ true
text_eq_refl s = (text_eq_iff s s).1 refl

-- Maps with texts as keys.
abbrev pub TextMap {ℓ} : Type ℓ → Type ℓ
TextMap V = List (Text × V)

module _ {ℓ} {V : Type ℓ} where
  unfoldable pub get : Text → TextMap V → Option V
  get key [] = none
  get key ((name, value) ∷ rest) = if text_eq name key then some value else get key rest

  -- The entry under `key` gets the value where it stands; a new entry is the last.
  unfoldable pub put : Text → V → TextMap V → TextMap V
  put key value [] = (key, value) ∷ []
  put key value ((name, old) ∷ rest) =
      if text_eq name key then (key, value) ∷ rest else (name, old) ∷ put key value rest

  pub get-put :
      (key other : Text) (value : V) (entries : TextMap V)
      → get other (put key value entries)
        ≡ (if text_eq key other then some value else get other entries)
  unfolding get put
  get-put key other value [] = refl
  get-put key other value ((name, old) ∷ rest) = ground (
    arith,
    get-put key other value rest,
    text_eq_iff name other,
    text_eq_iff key other,
    text_eq_iff name key,
  )
