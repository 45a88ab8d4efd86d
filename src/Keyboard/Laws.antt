-- ===== src/Keyboard/Laws.antt =====
-- The tables of the keyboard, and one character for each key stroke.
use sbu_os.Prelude.{
  ℕ, zero, suc, ◌+◌, ◌<◌, ◌≡◌, ◌≢◌, ◌⊎◌, inl, inr, refl, Bool-cases, Bool, true, false, ◌&&◌, ◌||◌,
  none, arith, ltb, ◌==◌,
}
use sbu_os.Keyboard.{translate_keyboard_scan_code, Keys, decode, press, handle_keyboard_scan_code}

-- Does the test hold below `n`?
abbrev all_below : ℕ → (ℕ → Bool) → Bool
all_below zero f = true
all_below (suc n) f = f n && all_below n f

all_below-at : (n : ℕ) (f : ℕ → Bool) (i : ℕ) → all_below n f ≡ true → i < n → f i ≡ true
all_below-at zero f i h k = absurd (omega arith)
all_below-at (suc n) f i h k = elim (Bool-cases (i == n)) [
  | inl last ↦ ground arith
  | inr below ↦ ground (arith, all_below-at n f i)
]

-- The character is one of ASCII, so that no read is behind `asc_array`.
abbrev in_ascii : Bool → ℕ → Bool
in_ascii is_shift code = ltb (translate_keyboard_scan_code code is_shift) 127

in_ascii-all : (is_shift : Bool) → all_below 256 (in_ascii is_shift) ≡ true
unfolding translate_keyboard_scan_code
in_ascii-all true = refl
in_ascii-all false = refl

-- A scan code, with or without shift, is translated to a number below 127; so `shiftConvert` reads
-- inside its array.
pub translate_keyboard_scan_code_bound :
    (code : ℕ) (is_shift : Bool) → code < 256 → translate_keyboard_scan_code code is_shift < 127
translate_keyboard_scan_code_bound code is_shift h =
    ground (arith, all_below-at 256 (in_ascii is_shift) code (in_ascii-all is_shift) h)

abbrev is_silent : ℕ × Bool → Bool
is_silent (ascii, is_release) = ascii == 0 || is_release

abbrev once : Bool → ℕ → Bool
once shift code = is_silent (decode code shift) || is_silent (decode (code + 128) shift)

once-all : (shift : Bool) → all_below 128 (once shift) ≡ true
unfolding decode
once-all true = refl
once-all false = refl

silent-none : (d : ℕ × Bool) (ctrl : Bool) → is_silent d ≡ true → press d.0 d.1 ctrl ≡ none
unfolding press
silent-none (ascii, is_release) ctrl h = ground arith

handle_keyboard_scan_code-press :
    (k : Keys) (code : ℕ)
    → code ≢ 42
    → code ≢ 170
    → code ≢ 29
    → code ≢ 157
    → handle_keyboard_scan_code k code
      ≡ (k, press (decode code k.shift).0 (decode code k.shift).1 k.ctrl)
unfolding handle_keyboard_scan_code
handle_keyboard_scan_code-press k code a b c d = ground arith

or_false : {a b : Bool} → a ≡ false → (a || b) ≡ true → b ≡ true
or_false e o = ground arith

-- Pressing a key that is not a modifier and then releasing it, with any modifiers held, leaves the
-- modifiers as they are, and at most one of the two scan codes does something.
pub handle_keyboard_scan_code_once :
    (k : Keys) (code : ℕ)
    → code < 128
    → code ≢ 42
    → code ≢ 29
    → let down = handle_keyboard_scan_code k code in
      let up = handle_keyboard_scan_code k (code + 128) in
      (down.0 ≡ k) × (up.0 ≡ k) × ((down.1 ≡ none) ⊎ (up.1 ≡ none))
handle_keyboard_scan_code_once k code h ns nc =
    rw
      (
        handle_keyboard_scan_code-press k code ns (ground arith) nc (ground arith),
        handle_keyboard_scan_code-press k (code + 128) (ground arith) (ground arith) (ground arith)
            (ground arith),
      )
      (
        refl,
        refl,
        elim (Bool-cases (is_silent (decode code k.shift))) [
          | inl silent ↦ inl (silent-none (decode code k.shift) k.ctrl silent)
          | inr sends ↦ inr (silent-none (decode (code + 128) k.shift) k.ctrl (or_false sends o))
        ],
      )
  where
    o : once k.shift code ≡ true
    o = all_below-at 128 (once k.shift) code (once-all k.shift) h
