-- ===== src/Print/Num.antt =====
-- `print_num` prints the decimal numeral of a signed number.
use sbu_os.Prelude.{
  ℕ, zero, suc, ◌+◌, ◌-◌, ◌*◌, ◌/◌, ◌%◌, ◌^◌, ◌≤◌, ◌<◌, ◌≡◌, ◌≢◌, refl, List, [], ◌∷◌, arith, leb,
  ◌==◌, if◌then◌else◌, Bool-cases, inl, inr,
}
use sbu_os.Print.{digits_loop, print_num}

-- The number that a run of decimal digits stands for, behind the number `acc`.
abbrev pub decimal : (acc : ℕ) → List ℕ → ℕ
decimal acc [] = acc
decimal acc (c ∷ cs) = decimal (acc * 10 + (c - 48)) cs

abbrev pub Digits : List ℕ → Type 0
Digits [] = Unit {0}
Digits (c ∷ cs) = (48 ≤ c) × (c ≤ 57) × Digits cs

-- What `atoi` reads: an optional sign, and digits. The result is the bit pattern of an `int`.
abbrev pub parse_int : List ℕ → ℕ
parse_int [] = 0
parse_int (c ∷ cs) = if c == b'-' then (2 ^ 32 - decimal 0 cs) % 2 ^ 32 else decimal 0 (c ∷ cs)

abbrev pow10 : ℕ → ℕ
pow10 zero = 1
pow10 (suc k) = 10 * pow10 k

digits_loop-decimal :
    (fuel n : ℕ) (printed : List ℕ)
    → n < pow10 (suc fuel)
    → decimal 0 (digits_loop (suc fuel) n printed) ≡ decimal n printed
unfolding digits_loop
digits_loop-decimal zero n printed h = ground arith
digits_loop-decimal (suc fuel) n printed h =
    ground (arith, digits_loop-decimal fuel (n / 10) ((48 + n % 10) ∷ printed))

digits_loop-Digits :
    (fuel n : ℕ) (printed : List ℕ) → Digits printed → Digits (digits_loop fuel n printed)
unfolding digits_loop
digits_loop-Digits zero n printed d = d
digits_loop-Digits (suc fuel) n printed d =
    ground (arith, digits_loop-Digits fuel (n / 10) ((48 + n % 10) ∷ printed))

digits_loop-NonEmpty :
    (fuel n : ℕ) (printed : List ℕ)
    → (c : ℕ) × (cs : List ℕ) × (digits_loop (suc fuel) n printed ≡ c ∷ cs)
unfolding digits_loop
digits_loop-NonEmpty zero n printed = (48 + n % 10, printed, ground arith)
digits_loop-NonEmpty (suc fuel) n printed = elim (Bool-cases (n / 10 == 0)) [
  | inl last ↦ (48 + n % 10, printed, rw last)
  | inr more ↦
      let (c, cs, e) = digits_loop-NonEmpty fuel (n / 10) ((48 + n % 10) ∷ printed) in
      (c, cs, rw more e)
]

-- A run of digits is read as the number that it stands for.
parse_int-Digits : (cs : List ℕ) (n : ℕ) → Digits cs → decimal 0 cs ≡ n → cs ≢ [] → parse_int cs ≡ n
parse_int-Digits [] n d e ne = absurd (ne refl)
parse_int-Digits (c ∷ cs) n d e ne = ground arith

-- Reading what `print_num` prints of an `int` gives the `int`; and what it prints are digits, behind
-- a sign exactly if the number is negative.
pub parse_int-print_num :
    (input : ℕ)
    → input < 2 ^ 32
    → (parse_int (print_num input) ≡ input)
      × (input < 2 ^ 31 → Digits (print_num input))
      × (2 ^ 31 ≤ input → (ds : List ℕ) × (print_num input ≡ b'-' ∷ ds) × Digits ds)
unfolding print_num
parse_int-print_num input h = elim (Bool-cases (leb (2 ^ 31) input)) [
  | inl negative ↦
      let m : ℕ = (2 ^ 32 - 1 - input + 1) % 2 ^ 32 in
      rw negative (
        omega (arith, digits_loop-decimal 9 m [] (ground arith)),
        λ k. absurd (ground arith),
        λ k. (digits_loop 10 m [], refl, digits_loop-Digits 10 m [] tt),
      )
  | inr positive ↦ rw positive (
    parse_int-Digits (digits_loop 10 input []) input (digits_loop-Digits 10 input [] tt)
        (digits_loop-decimal 9 input [] (omega arith))
        (λ n. let (c, cs, e) = digits_loop-NonEmpty 9 input [] in absurd (cc (e, n))),
    λ k. digits_loop-Digits 10 input [] tt,
    λ k. absurd (ground arith),
  )
]
