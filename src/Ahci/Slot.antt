-- ===== src/Ahci/Slot.antt =====
-- The slot that the search finds, and the bytes of the address of a block.
use Prim.Native.Nat.{bit_or, bit_or-bitwise, digits}
use native.Mathlib.Nat.{div-div-eq-div-mul, pow-succ'}
use mathlib.Core.Path.{subst}
use sbu_os.Prelude.{
  ℕ, zero, suc, ◌+◌, ◌*◌, ◌/◌, ◌%◌, ◌^◌, ◌≤◌, ◌<◌, max, ◌≡◌, refl, ap, sym, ◌∙◌, inl, inr, Bool,
  true, false, not, ◌||◌, Option, none, some, arith, ◌==◌, Bool-cases,
}
use sbu_os.Ahci.{Table, has_bit, free_slot, new_table}

-- The law for the lowest digit of `bit_or`.
abbrev or_digits : ℕ → ℕ → ℕ → ℕ
or_digits n a b = digits (λ b. b) max n a b

or_digits_fuel : (n m a b : ℕ) → a ≤ n → a ≤ m → or_digits n a b ≡ or_digits m a b
or_digits_fuel zero zero a b p q = refl
or_digits_fuel zero (suc m) zero b p q = refl
or_digits_fuel zero (suc m) (suc a) b p q = absurd (omega arith)
or_digits_fuel (suc n) zero zero b p q = refl
or_digits_fuel (suc n) zero (suc a) b p q = absurd (omega arith)
or_digits_fuel (suc n) (suc m) zero b p q = refl
or_digits_fuel (suc n) (suc m) (suc a) b p q =
    omega (arith, or_digits_fuel n m (suc a / 2) (b / 2) (omega arith) (omega arith))

zero-bit_or : (b : ℕ) → bit_or 0 b ≡ b
zero-bit_or b = bit_or-bitwise 0 b

bit_or_step : (a b : ℕ) → bit_or a b ≡ bit_or (a / 2) (b / 2) * 2 + max (a % 2) (b % 2)
bit_or_step zero b = omega (arith, zero-bit_or b, zero-bit_or (b / 2))
bit_or_step (suc a) b = omega (
  arith,
  bit_or-bitwise (suc a) b,
  bit_or-bitwise (suc a / 2) (b / 2),
  or_digits_fuel a (suc a / 2) (suc a / 2) (b / 2) (omega arith) (omega arith),
)

bit_or-half : (a b : ℕ) → bit_or a b / 2 ≡ bit_or (a / 2) (b / 2)
bit_or-half a b = omega (arith, bit_or_step a b)

bit_or-parity : (a b : ℕ) → bit_or a b % 2 ≡ max (a % 2) (b % 2)
bit_or-parity a b = omega (arith, bit_or_step a b)

has_bit_half : (x n : ℕ) → has_bit (x / 2) n ≡ has_bit x (suc n)
has_bit_half x n =
    ap (λ y. y % 2 == 1) (div-div-eq-div-mul x 2 (2 ^ n) ∙ ap (λ k. x / k) (sym (pow-succ' 2 n)))

-- A slot is taken if one of the registers says so.
abbrev pub is_taken : (sact ci n : ℕ) → Bool
is_taken sact ci n = has_bit sact n || has_bit ci n

is_taken_half : (sact ci n : ℕ) → is_taken (sact / 2) (ci / 2) n ≡ is_taken sact ci (suc n)
is_taken_half sact ci n = rw (has_bit_half sact n, has_bit_half ci n) refl

is_taken_zero : (sact ci : ℕ) → is_taken sact ci 0 ≡ not (bit_or sact ci % 2 == 0)
is_taken_zero sact ci = ground (arith, bit_or-parity sact ci)

taken_below :
    (left sact ci : ℕ)
    → is_taken sact ci 0 ≡ true
    → ((n : ℕ) → n < left → is_taken (sact / 2) (ci / 2) n ≡ true)
    → (n : ℕ) → n < suc left
    → is_taken sact ci n ≡ true
taken_below left sact ci low all zero h = low
taken_below left sact ci low all (suc n) h = sym (is_taken_half sact ci n) ∙ all n (omega arith)

-- What the search over the two registers finds: the lowest slot that is not taken.
pub data Found (sact ci left : ℕ) : (k : Option ℕ) → Type 0 where
  full : ((n : ℕ) → n < left → is_taken sact ci n ≡ true) → Found sact ci left none
  lowest :
      (k : ℕ)
      → k < left
      → is_taken sact ci k ≡ false
      → ((n : ℕ) → n < k → is_taken sact ci n ≡ true)
      → Found sact ci left (some k)

-- A slot, counted from `i` on.
abbrev shifted : (i : ℕ) → Option ℕ → Option ℕ
shifted i none = none
shifted i (some k) = some (i + k)

-- Behind a slot that is taken.
next-Found :
    (left sact ci i : ℕ) (o : Option ℕ)
    → is_taken sact ci 0 ≡ true
    → Found (sact / 2) (ci / 2) left o
    → (q : Option ℕ) × (shifted (i + 1) o ≡ shifted i q) × Found sact ci (suc left) q
next-Found left sact ci i none low (full all) =
    (none, refl, full (taken_below left sact ci low all))
next-Found left sact ci i (some k) low (lowest j h free all) = (
  some (suc k),
  ap some (omega arith),
  lowest (suc k) (omega arith) (sym (is_taken_half sact ci k) ∙ free)
      (taken_below k sact ci low all),
)

free_slot-Found :
    (left sact ci i : ℕ)
    → (o : Option ℕ) × (free_slot left (bit_or sact ci) i ≡ shifted i o) × Found sact ci left o
unfolding free_slot
free_slot-Found zero sact ci i = (none, refl, full (λ n h. absurd (omega arith)))
free_slot-Found (suc left) sact ci i = elim (Bool-cases (bit_or sact ci % 2 == 0)) [
  | inl free ↦ (
    some 0,
    rw (free_slot, free) (ap some (omega arith)),
    lowest 0 (omega arith) (is_taken_zero sact ci ∙ ap not free) (λ n h. absurd (omega arith)),
  )
  | inr taken ↦
      let low : is_taken sact ci 0 ≡ true = is_taken_zero sact ci ∙ ap not taken in
      let (o, e, found) = free_slot-Found left (sact / 2) (ci / 2) (i + 1) in
      let e' : free_slot (suc left) (bit_or sact ci) i ≡ shifted (i + 1) o =
        rw (free_slot, taken, bit_or-half sact ci) e in
      let (q, e'', found') = next-Found left sact ci i o low found in (q, e' ∙ e'', found')
]

shifted_zero : (o : Option ℕ) → shifted 0 o ≡ o
shifted_zero none = refl
shifted_zero (some k) = ap some (omega arith)

pub find-Found : (sact ci : ℕ) → Found sact ci 32 (free_slot 32 (bit_or sact ci) 0)
find-Found sact ci =
    let (o, e, found) = free_slot-Found 32 sact ci 0 in
    subst (Found sact ci 32) (sym (e ∙ shifted_zero o)) found

-- The block that the bytes of a table stand for.
abbrev pub fis_lba : Table → ℕ
fis_lba t =
    t.lba0 + t.lba1 * 2 ^ 8 + t.lba2 * 2 ^ 16 + t.lba3 * 2 ^ 24 + t.lba4 * 2 ^ 32 + t.lba5 * 2 ^ 40

pub fis_lba-new_table :
    (is_write : Bool) (startl starth n buffer : ℕ)
    → startl < 2 ^ 32
    → starth < 2 ^ 16
    → fis_lba (new_table is_write startl starth n buffer) ≡ startl + starth * 2 ^ 32
fis_lba-new_table is_write startl starth n buffer h k = omega arith
