-- ===== src/Memory/Laws.antt =====
-- What `memset`, `memcpy`, `math_min` and `get_random` do.
use sbu_os.Prelude.{
  ◌++◌, ℕ, zero, suc, ◌+◌, ◌-◌, ◌^◌, ◌≤◌, ◌<◌, ◌≡◌, ◌≢◌, refl, ◌⊎◌, inl, Bool, ◌&&◌, List, [], ◌∷◌,
  arith, ltb, leb, if◌then◌else◌,
}
use mathlib.Core.Path.{subst, sym}
use sbu_os.Memory.{Ram, store, memset, memcpy, math_min, get_random}

-- Is `x` one of the `n` addresses from `a` on?
abbrev pub within : (x a n : ℕ) → Bool
within x a n = leb a x && ltb x (a + n)

-- `memset` writes the value to exactly the `n` bytes from `a` on.
pub memset_lem : (m : Ram) (a v n x : ℕ) → memset m a v n x ≡ (if within x a n then v else m x)
unfolding memset
memset_lem m a v zero x = ground arith
memset_lem m a v (suc n) x = ground (arith, memset_lem (store m a v) (a + 1) v n x)

-- `memcpy` copies the `n` bytes and changes nothing else, as long as no byte is read that was
-- already overwritten: the destination does not begin inside the source behind its first byte.
pub memcpy_lem :
    (m : Ram) (d s n x : ℕ)
    → (d ≤ s) ⊎ (s + n ≤ d)
    → memcpy m d s n x ≡ (if within x d n then m (s + (x - d)) else m x)
unfolding memcpy
memcpy_lem m d s zero x apart = ground arith
memcpy_lem m d s (suc n) x apart = ground (arith, memcpy_lem (store m d (m s)) (d + 1) (s + 1) n x)

-- No value of the list is the end mark.
abbrev pub NoMark : List ℕ → Type 0
NoMark [] = Unit {0}
NoMark (n ∷ ns) = (n ≢ 2 ^ 64 - 1) × NoMark ns

-- The value is one of the list.
abbrev pub IsIn : ℕ → List ℕ → Type 0
IsIn n [] = ⊥
IsIn n (x ∷ xs) = (n ≡ x) ⊎ IsIn n xs

-- `math_min` is a lower bound of its arguments.
math_min-le : (a : ℕ) (ns : List ℕ) → NoMark ns → math_min a ns ≤ a
unfolding math_min
math_min-le a [] h = omega arith
math_min-le a (n ∷ ns) h = ground (arith, math_min-le (if ltb n a then n else a) ns)

math_min-le_mem : (a : ℕ) (ns : List ℕ) (n : ℕ) → NoMark ns → IsIn n ns → math_min a ns ≤ n
unfolding math_min
math_min-le_mem a [] n h i = absurd i
math_min-le_mem a (x ∷ ns) n h i = ground (
  arith,
  math_min-le_mem (if ltb x a then x else a) ns n,
  math_min-le (if ltb x a then x else a) ns,
)

-- `math_min` is one of its arguments.
math_min-mem : (a : ℕ) (ns : List ℕ) → NoMark ns → IsIn (math_min a ns) (a ∷ ns)
unfolding math_min
math_min-mem a [] h = inl refl
math_min-mem a (n ∷ ns) h = ground (arith, math_min-mem (if ltb n a then n else a) ns)

-- The end mark, and what may stand behind it.
abbrev pub end_mark : ℕ
end_mark = 2 ^ 64 - 1

math_min-append :
    (a : ℕ) (ns junk : List ℕ) → NoMark ns → math_min a (ns ++ end_mark ∷ junk) ≡ math_min a ns
unfolding math_min
math_min-append a [] junk h = refl
math_min-append a (n ∷ ns) junk h =
    ground (arith, math_min-append (if ltb n a then n else a) ns junk)

-- `math_min` returns the least of the arguments in front of the end mark: one of them, and none of
-- them is less.
pub math_min_least :
    (a : ℕ) (ns junk : List ℕ)
    → NoMark ns
    → IsIn (math_min a (ns ++ end_mark ∷ junk)) (a ∷ ns)
      × ((n : ℕ) → IsIn n (a ∷ ns) → math_min a (ns ++ end_mark ∷ junk) ≤ n)
math_min_least a ns junk h =
    subst (λ k. IsIn k (a ∷ ns) × ((n : ℕ) → IsIn n (a ∷ ns) → k ≤ n))
      (sym (math_min-append a ns junk h))
      (math_min-mem a ns h, λ n i. ground (arith, math_min-le a ns h, math_min-le_mem a ns n h))

-- A number from `get_random` lies below the limit, and the seed stays a 32-bit word.
pub get_random_bounds :
    (seed limit : ℕ)
    → limit ≢ 0
    → ((get_random seed limit).1 < limit) × ((get_random seed limit).0 < 2 ^ 32)
unfolding get_random
get_random_bounds seed limit h = omega arith
