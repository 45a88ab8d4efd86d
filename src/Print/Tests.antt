-- ===== src/Print/Tests.antt =====
-- Tests and examples for the formatted output.
use sbu_os.Prelude.{
  ℕ, ◌≡◌, ◌≤◌, ◌<◌, ◌-◌, ◌^◌, refl, true, arith, List, [], ◌∷◌, ◌++◌, length, take,
}
use sbu_os.Print.{
  digits_loop, print_num, hex_chars, skip_zeros, print_hex, convert, format_loop, kprintfa_print,
  kprintfa_chars, kprintfa,
}
use sbu_os.Print.Num.{parse_int, Digits, parse_int-print_num}
use sbu_os.Print.Bounded.{kprintfa_bounded}

minus_twelve : print_num (2 ^ 32 - 12) ≡ b'-' ∷ b'1' ∷ b'2' ∷ []
unfolding print_num digits_loop
minus_twelve = refl

-- INT_MIN is printed with its ten digits.
least : length (print_num (2 ^ 31)) ≡ 11
unfolding print_num digits_loop
least = refl

hex_of_zero : print_hex 0 ≡ b'0' ∷ b'x' ∷ b'0' ∷ b'0' ∷ []
unfolding print_hex hex_chars skip_zeros
hex_of_zero = refl

hex_of_word : print_hex 43981 ≡ b'0' ∷ b'x' ∷ b'A' ∷ b'B' ∷ b'C' ∷ b'D' ∷ []
unfolding print_hex hex_chars skip_zeros
hex_of_word = refl

abbrev no_texts : ℕ → List ℕ
no_texts a = []

-- The format `a%d!`.
abbrev format : List ℕ
format = b'a' ∷ b'%' ∷ b'd' ∷ b'!' ∷ []

formatted : kprintfa no_texts 3 format (42 ∷ []) ≡ b'a' ∷ b'4' ∷ 0 ∷ []
unfolding kprintfa kprintfa_chars kprintfa_print format_loop convert print_num digits_loop
formatted = refl

-- Behind a modifier that is not known, the 0 at the end is left out.
unknown_modifier : kprintfa no_texts 9 (b'a' ∷ b'%' ∷ b'q' ∷ []) [] ≡ b'a' ∷ []
unfolding kprintfa kprintfa_chars kprintfa_print format_loop convert
unknown_modifier = refl

-- `%c` of the 0 is let past the limit.
past_the_limit : length (kprintfa no_texts 1 (b'%' ∷ b'c' ∷ []) (0 ∷ [])) ≡ 2
unfolding kprintfa kprintfa_chars kprintfa_print format_loop convert
past_the_limit = refl

parse_int-print_num_example :
    (parse_int (print_num (2 ^ 32 - 12)) ≡ 2 ^ 32 - 12)
    × (2 ^ 32 - 12 < 2 ^ 31 → Digits (print_num (2 ^ 32 - 12)))
    × (2 ^ 31 ≤ 2 ^ 32 - 12 → (ds : List ℕ) × (print_num (2 ^ 32 - 12) ≡ b'-' ∷ ds) × Digits ds)
parse_int-print_num_example = parse_int-print_num (2 ^ 32 - 12) (omega arith)

formatted_out : (format_loop no_texts format (42 ∷ [])) ≡ (b'a' ∷ b'4' ∷ b'2' ∷ b'!' ∷ [], true)
unfolding format_loop convert print_num digits_loop
formatted_out = refl

kprintfa_bounded_example :
    (kprintfa no_texts 3 format (42 ∷ [])
      ≡ take (3 - 1) (format_loop no_texts format (42 ∷ [])).0 ++ (0 ∷ []))
    × (length (kprintfa no_texts 3 format (42 ∷ [])) ≤ 3)
kprintfa_bounded_example =
    kprintfa_bounded no_texts 3 format (42 ∷ []) (ground arith) (rw formatted_out refl)
      (rw formatted_out (ground arith, (ground arith, (ground arith, (ground arith, tt)))))
