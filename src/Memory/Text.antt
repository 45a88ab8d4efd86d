-- ===== src/Memory/Text.antt =====
-- What `streq`, `strlen` and `memeq` say of the bytes in memory.
use sbu_os.Prelude.{
  ℕ, zero, suc, ◌+◌, ◌%◌, ◌^◌, ◌<◌, ◌≡◌, ◌≢◌, refl, Bool, true, false, ◌&&◌, some, List, [], ◌∷◌,
  arith, ◌==◌, length,
}
use sbu_os.Memory.{Ram, streq, strlen_loop, strlen, memeq}

-- At `a` stands the text with the bytes `xs`, none of which is 0, and a 0 behind it.
abbrev pub CString : Ram → ℕ → List ℕ → Type 0
CString m a [] = m a ≡ 0
CString m a (x ∷ xs) = (m a ≡ x) × (x ≢ 0) × CString m (a + 1) xs

-- Are two lists of bytes the same?
abbrev pub same : List ℕ → List ℕ → Bool
same [] [] = true
same [] (y ∷ ys) = false
same (x ∷ xs) [] = false
same (x ∷ xs) (y ∷ ys) = x == y && same xs ys

-- `streq` says of two texts whether they are the same, within as many rounds as the first has
-- bytes, and one.
pub streq-same :
    (m : Ram) (fuel a b : ℕ) (xs ys : List ℕ)
    → CString m a xs
    → CString m b ys
    → length xs < fuel
    → streq fuel m a b ≡ some (same xs ys)
unfolding streq
streq-same m zero a b xs ys p q h = absurd (omega arith)
streq-same m (suc fuel) a b [] [] p q h = ground arith
streq-same m (suc fuel) a b [] (y ∷ ys) p q h = ground arith
streq-same m (suc fuel) a b (x ∷ xs) [] p q h = ground arith
streq-same m (suc fuel) a b (x ∷ xs) (y ∷ ys) p q h =
    ground (arith, streq-same m fuel (a + 1) (b + 1) xs ys)

pub same_refl : (xs : List ℕ) → same xs xs ≡ true
same_refl [] = refl
same_refl (x ∷ xs) = ground (arith, same_refl xs)

-- The test of bytes that `streq` makes is equality of the texts.
pub same-eq : (xs ys : List ℕ) → same xs ys ≡ true → xs ≡ ys
same-eq [] [] h = refl
same-eq [] (y ∷ ys) h = cc
same-eq (x ∷ xs) [] h = cc
same-eq (x ∷ xs) (y ∷ ys) h = ground (arith, same-eq xs ys)

strlen_loop-length :
    (m : Ram) (fuel a ret : ℕ) (xs : List ℕ)
    → CString m a xs
    → length xs < fuel
    → ret < 2 ^ 32
    → strlen_loop fuel m a ret ≡ some ((ret + length xs) % 2 ^ 32)
unfolding strlen_loop
strlen_loop-length m zero a ret xs p h k = absurd (omega arith)
strlen_loop-length m (suc fuel) a ret [] p h k = ground arith
strlen_loop-length m (suc fuel) a ret (x ∷ xs) p h k =
    ground (arith, strlen_loop-length m fuel (a + 1) ((ret + 1) % 2 ^ 32) xs)

-- `strlen` is the number of bytes before the 0, modulo `2 ^ 32`.
pub strlen-length :
    (m : Ram) (fuel a : ℕ) (xs : List ℕ)
    → CString m a xs
    → length xs < fuel
    → strlen fuel m a ≡ some (length xs % 2 ^ 32)
unfolding strlen
strlen-length m fuel a xs p h = ground (arith, strlen_loop-length m fuel a 0 xs p h)

-- The `n` bytes at `a` and at `b` agree.
abbrev pub same_bytes : Ram → (a b n : ℕ) → Bool
same_bytes m a b zero = true
same_bytes m a b (suc n) = m a == m b && same_bytes m (a + 1) (b + 1) n

-- `memeq` says of at least one byte whether all agree.
pub memeq-same_bytes :
    (m : Ram) (fuel a b n : ℕ)
    → n < fuel
    → suc n < 2 ^ 63
    → memeq fuel m a b (suc n) ≡ some (same_bytes m a b (suc n))
unfolding memeq
memeq-same_bytes m zero a b n h k = absurd (omega arith)
memeq-same_bytes m (suc fuel) a b zero h k = ground arith
memeq-same_bytes m (suc fuel) a b (suc n) h k =
    ground (arith, memeq-same_bytes m fuel (a + 1) (b + 1) n)
