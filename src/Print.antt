-- ===== src/Print.antt =====
-- sys/kprintf.c: the formatted output. `print_num`, `print_string`, `print_pointer` and `print_hex`
-- take the function that prints one character; here they return the characters, in order, for it.
-- A `char` is a byte. The conversions of libc/printf.c have the same text.
pub mod Num
pub mod Hex
pub mod Bounded
mod Tests
use sbu_os.Prelude.{
  ℕ, zero, suc, ◌+◌, ◌-◌, ◌*◌, ◌/◌, ◌%◌, ◌^◌, Bool, true, false, not, ◌&&◌, Option, none, some,
  List, [], ◌∷◌, ◌++◌, ltb, leb, ◌==◌, if◌then◌else◌, length,
}

-- The loop of `print_num` that fills `buffer`, and the one that prints it backwards: `printed` is
-- what stands behind the digits to come. An `unsigned int` has ten digits at most, so ten rounds
-- are enough.
unfoldable pub digits_loop : (fuel in_ : ℕ) → (printed : List ℕ) → List ℕ
digits_loop zero in_ printed = printed
digits_loop (suc fuel) in_ printed =
    let rest = digits_loop fuel (in_ / 10) ((48 + in_ % 10) ∷ printed) in
    if in_ / 10 == 0 then (48 + in_ % 10) ∷ printed else rest

-- `print_num` of the `int` with the bit pattern `input`. The sign bit is `input >> 31`, and a
-- negative number is negated by `~` and `++`.
unfoldable pub print_num : (input : ℕ) → List ℕ
print_num input =
    if leb (2 ^ 31) input
    then b'-' ∷ digits_loop 10 ((2 ^ 32 - 1 - input + 1) % 2 ^ 32) []
    else digits_loop 10 input []

-- The character for a digit below 16, by the chain of tests in the loop over `i`.
abbrev pub hex_digit : ℕ → ℕ
hex_digit v = if ltb v 10 then v + 48 else v - 10 + 65

-- The first loop of `print_hex`: the digits from `shift_index` on, of which `left` are left.
unfoldable pub hex_chars : (left shift_index input : ℕ) → List ℕ
hex_chars zero shift_index input = []
hex_chars (suc left) shift_index input =
    hex_digit (input * 2 ^ (4 * shift_index) % 2 ^ 64 / 2 ^ 60)
    ∷ hex_chars left (shift_index + 1) input

-- The loop that passes over the digits 0 in front.
unfoldable pub skip_zeros : List ℕ → List ℕ
skip_zeros [] = []
skip_zeros (c ∷ cs) = if c == b'0' then skip_zeros cs else c ∷ cs

-- `hex_char[print_index]=='\0'` holds behind the last of the 16 digits.
abbrev pub or_zeros : List ℕ → List ℕ
or_zeros [] = b'0' ∷ b'0' ∷ []
or_zeros (c ∷ cs) = c ∷ cs

-- `print_hex`. `print_pointer` has the same text but for one test, that its own end mark makes true.
unfoldable pub print_hex : (input : ℕ) → List ℕ
print_hex input = b'0' ∷ b'x' ∷ or_zeros (skip_zeros (hex_chars 16 0 input))

unfoldable pub print_pointer : (input : ℕ) → List ℕ
print_pointer input = b'0' ∷ b'x' ∷ or_zeros (skip_zeros (hex_chars 16 0 input))

-- `print_string`: the characters up to the first 0. A string is given by its bytes and that 0.
unfoldable pub print_string : List ℕ → List ℕ
print_string [] = []
print_string (c ∷ cs) = if c == 0 then [] else c ∷ print_string cs

-- `va_arg`: the next argument, and the ones behind it.
abbrev pub first_arg : List ℕ → ℕ
first_arg [] = 0
first_arg (a ∷ rest) = a

abbrev pub rest_args : List ℕ → List ℕ
rest_args [] = []
rest_args (a ∷ rest) = rest

-- The variable arguments are words of 64 bits, in order; `texts` gives the bytes at an address. A
-- conversion gives its characters, and `none` stands for a modifier that is not known.
module _ (texts : ℕ → List ℕ) where
  unfoldable pub convert : (modifier arg : ℕ) → Option (List ℕ)
  convert modifier arg =
      if modifier == b'c'
      then some (arg % 2 ^ 8 ∷ [])
      else if modifier == b'd'
      then some (print_num (arg % 2 ^ 32))
      else if modifier == b'x'
      then some (print_hex arg)
      else if modifier == b's'
      then some (print_string (texts arg))
      else if modifier == b'p'
      then some (print_pointer arg)
      else none

  -- The loop over the format that `kprintf` and `kprintfa` share: the characters that it prints, and
  -- whether it reaches the 0 that ends the format. An argument that was not passed reads as 0.
  unfoldable pub format_loop : (format args : List ℕ) → List ℕ × Bool
  format_loop [] args = ([], true)
  format_loop (c ∷ []) args =
      if c == 0 then ([], true) else if c == b'%' then ([], false) else (c ∷ [], true)
  format_loop (c ∷ d ∷ cs) args =
      let literal = format_loop (d ∷ cs) args in
      let converted = format_loop cs (rest_args args) in
      if c == 0
      then ([], true)
      else if c == b'%'
      then elim (convert d (first_arg args)) [
        | none ↦ ([], false)
        | some out ↦ (out ++ converted.0, converted.1)
      ]
      else (c ∷ literal.0, literal.1)

-- `kprintfa_print`: the bytes in `kprintfa_dest` so far, whose number is `kprintfa_index`. The test
-- is `kprintfa_index >= kprintfa_limit - 1 && c`.
unfoldable pub kprintfa_print : (limit : ℕ) → (dest : List ℕ) → (c : ℕ) → List ℕ
kprintfa_print limit dest c =
    if leb limit (length dest + 1) && not (c == 0) then dest else dest ++ (c ∷ [])

unfoldable pub kprintfa_chars : (limit : ℕ) → (dest cs : List ℕ) → List ℕ
kprintfa_chars limit dest [] = dest
kprintfa_chars limit dest (c ∷ cs) = kprintfa_chars limit (kprintfa_print limit dest c) cs

-- `kprintfa`: the bytes written from `dest` on.
unfoldable pub kprintfa : (texts : ℕ → List ℕ) → (size : ℕ) → (format args : List ℕ) → List ℕ
kprintfa texts size format args =
    let (out, ended) = format_loop texts format args in
    let dest = kprintfa_chars size [] out in if ended then kprintfa_print size dest 0 else dest
