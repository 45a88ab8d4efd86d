-- ===== src/Print/Hex.antt =====
-- `print_hex` prints the hexadecimal numeral of a 64-bit word.
use sbu_os.Prelude.{
  ℕ, zero, suc, ◌+◌, ◌-◌, ◌*◌, ◌/◌, ◌%◌, ◌^◌, ◌<◌, ◌≡◌, refl, ap, ◌∙◌, List, [], ◌∷◌, arith, ltb,
  ◌==◌, if◌then◌else◌, Bool-cases, inl, inr,
}
use sbu_os.Print.{hex_digit, hex_chars, skip_zeros, or_zeros, print_hex, print_pointer}

-- The number below 16 that a digit stands for.
abbrev pub unhex : ℕ → ℕ
unhex c = if ltb c 65 then c - 48 else c - 55

abbrev pub hexadecimal : (acc : ℕ) → List ℕ → ℕ
hexadecimal acc [] = acc
hexadecimal acc (c ∷ cs) = hexadecimal (acc * 16 + unhex c) cs

unhex-hex_digit : (v : ℕ) → v < 16 → unhex (hex_digit v) ≡ v
unhex-hex_digit v h = ground arith

-- `hexadecimal` of the digits, with the characters taken away.
abbrev horner : (left shift_index acc input : ℕ) → ℕ
horner zero shift_index acc input = acc
horner (suc left) shift_index acc input =
    horner left (shift_index + 1) (acc * 16 + input * 2 ^ (4 * shift_index) % 2 ^ 64 / 2 ^ 60) input

hex_chars-horner :
    (left shift_index acc input : ℕ)
    → hexadecimal acc (hex_chars left shift_index input) ≡ horner left shift_index acc input
unfolding hex_chars
hex_chars-horner zero shift_index acc input = refl
hex_chars-horner (suc left) shift_index acc input =
    ap (λ d. hexadecimal (acc * 16 + d) (hex_chars left (shift_index + 1) input))
      (unhex-hex_digit (input * 2 ^ (4 * shift_index) % 2 ^ 64 / 2 ^ 60) (omega arith))
    ∙ hex_chars-horner left (shift_index + 1)
        (acc * 16 + input * 2 ^ (4 * shift_index) % 2 ^ 64 / 2 ^ 60) input

horner-input : (input : ℕ) → input < 2 ^ 64 → horner 16 0 0 input ≡ input
horner-input input h = omega arith

hexadecimal-skip_zeros : (cs : List ℕ) → hexadecimal 0 (or_zeros (skip_zeros cs)) ≡ hexadecimal 0 cs
unfolding skip_zeros
hexadecimal-skip_zeros [] = refl
hexadecimal-skip_zeros (c ∷ cs) = elim (Bool-cases (c == b'0')) [
  | inl zero_digit ↦
      rw zero_digit (hexadecimal-skip_zeros cs ∙ ap (λ n. hexadecimal n cs) (ground arith))
  | inr other ↦ rw other
]

-- What is read of a hexadecimal numeral that begins with `0x`.
abbrev pub parse_hex : List ℕ → ℕ
parse_hex [] = 0
parse_hex (c ∷ []) = 0
parse_hex (c ∷ d ∷ cs) = hexadecimal 0 cs

-- Reading what `print_hex` or `print_pointer` prints of a 64-bit word gives the word.
pub parse_hex-print_hex :
    (input : ℕ)
    → input < 2 ^ 64
    → (parse_hex (print_hex input) ≡ input) × (parse_hex (print_pointer input) ≡ input)
unfolding print_hex print_pointer
parse_hex-print_hex input h = (value, value)
  where
    value : hexadecimal 0 (or_zeros (skip_zeros (hex_chars 16 0 input))) ≡ input
    value =
        hexadecimal-skip_zeros (hex_chars 16 0 input)
        ∙ hex_chars-horner 16 0 0 input
        ∙ horner-input input h
