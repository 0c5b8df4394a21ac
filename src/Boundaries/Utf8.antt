-- ===== src/Boundaries/Utf8.antt =====
-- UTF-8, as the standard library's `str::from_utf8` checks it in src/acp/output_files.rs and
-- src/acp/framing.rs: no overlong forms, no surrogates, nothing above U+10FFFF.
use guigu_agent_bridge.Prelude.{
  ℕ, zero, suc, ◌≡◌, refl, Option, none, some, Bool, true, false, ◌&&◌, [], ◌∷◌, ◌++◌, leb, ltb,
  ◌==◌, if◌then◌else◌, arith,
}
use guigu_agent_bridge.Prelude.Texts.{Text}

-- Between characters; or inside one, with the range of the next byte and the number of bytes after it.
pub data State : Type 0 where
  idle : State
  inside : ℕ → ℕ → ℕ → State

abbrev within : ℕ → ℕ → ℕ → Bool
within low high b = leb low b && leb b high

abbrev pub first : ℕ → Option State
first b =
    if ltb b 0x80
    then some idle
    else if within 0xC2 0xDF b
    then some (inside 0x80 0xBF 0)
    else if b == 0xE0
    then some (inside 0xA0 0xBF 1)
    else if b == 0xED
    then some (inside 0x80 0x9F 1)
    else if within 0xE1 0xEF b
    then some (inside 0x80 0xBF 1)
    else if b == 0xF0
    then some (inside 0x90 0xBF 2)
    else if within 0xF1 0xF3 b
    then some (inside 0x80 0xBF 2)
    else if b == 0xF4
    then some (inside 0x80 0x8F 2)
    else none

abbrev pub after : ℕ → State
after zero = idle
after (suc n) = inside 0x80 0xBF n

abbrev pub step : State → ℕ → Option State
step idle b = first b
step (inside low high n) b = if within low high b then some (after n) else none

abbrev pub is_idle : State → Bool
is_idle idle = true
is_idle (inside low high n) = false

abbrev pub runs : State → Text → Bool
runs state [] = is_idle state
runs state (b ∷ s) = elim (step state b) [ none ↦ false | some next ↦ runs next s ]

unfoldable pub is_utf8 : Text → Bool
is_utf8 s = runs idle s

runs_done : (state : State) (s : Text) → is_idle state ≡ true → runs state s ≡ runs idle s
runs_done idle s h = refl
runs_done (inside low high n) s h = absurd (ground (arith, h))

after_step :
    (x : ℕ) (xs ys : Text) (o : Option State)
    → ((next : State) → runs next xs ≡ true → runs next (xs ++ ys) ≡ runs idle ys)
    → elim o [ none ↦ false | some next ↦ runs next xs ] ≡ true
    → elim o [ none ↦ false | some next ↦ runs next (xs ++ ys) ] ≡ runs idle ys
after_step x xs ys none ih e = absurd (ground (arith, e))
after_step x xs ys (some next) ih e = ih next e

runs_append :
    (xs ys : Text) (state : State) → runs state xs ≡ true → runs state (xs ++ ys) ≡ runs idle ys
runs_append [] ys state h = runs_done state ys h
runs_append (x ∷ xs) ys state h = after_step x xs ys (step state x) (runs_append xs ys) h

pub is_utf8-append : (xs ys : Text) → is_utf8 xs ≡ true → is_utf8 (xs ++ ys) ≡ is_utf8 ys
unfolding is_utf8
is_utf8-append xs ys h = runs_append xs ys idle h
