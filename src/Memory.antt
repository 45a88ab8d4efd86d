-- ===== src/Memory.antt =====
-- The loops over memory of sys/misc.c: `memset`, `memcpy`, `streq`, `strlen`, `memeq`, `math_min`
-- and `get_random`. A memory is a function from addresses to bytes.
pub mod Laws
pub mod Text
mod Tests
use sbu_os.Prelude.{
  ℕ, zero, suc, ◌+◌, ◌-◌, ◌*◌, ◌%◌, ◌^◌, Bool, true, false, Option, none, some, List, [], ◌∷◌, ltb,
  ◌==◌, if◌then◌else◌,
}

abbrev pub Ram : Type 0
Ram = ℕ → ℕ

-- `*p = v`
unfoldable pub store : Ram → ℕ → ℕ → Ram
store m p v q = if q == p then v else m q

-- `memset`: the loop from `addr` up to `addr + size`.
unfoldable pub memset : Ram → (addr value size : ℕ) → Ram
unfolding store
memset m addr value zero = m
memset m addr value (suc size) = memset (store m addr value) (addr + 1) value size

-- `memcpy`: byte after byte, from low addresses to high ones.
unfoldable pub memcpy : Ram → (dest src n : ℕ) → Ram
unfolding store
memcpy m dest src zero = m
memcpy m dest src (suc n) = memcpy (store m dest (m src)) (dest + 1) (src + 1) n

-- `streq`. `none`: the fuel ran out before the strings differ or end.
unfoldable pub streq : (fuel : ℕ) → Ram → (a b : ℕ) → Option Bool
streq zero m a b = none
streq (suc fuel) m a b =
    let rest = streq fuel m (a + 1) (b + 1) in
    if m a == m b then (if m a == 0 then some true else rest) else some false

-- `strlen`, with its counter `ret`, a `uint32_t`.
unfoldable pub strlen_loop : (fuel : ℕ) → Ram → (a ret : ℕ) → Option ℕ
strlen_loop zero m a ret = none
strlen_loop (suc fuel) m a ret =
    let rest = strlen_loop fuel m (a + 1) ((ret + 1) % 2 ^ 32) in
    if m a == 0 then some ret else rest

unfoldable pub strlen : (fuel : ℕ) → Ram → ℕ → Option ℕ
unfolding strlen_loop
strlen fuel m a = strlen_loop fuel m a 0

-- `memeq`. The test `size == 1` comes after a comparison, so a `size` of 0 or less counts down past
-- every match: `none` is the fuel for that.
unfoldable pub memeq : (fuel : ℕ) → Ram → (a b size : ℕ) → Option Bool
memeq zero m a b size = none
memeq (suc fuel) m a b size =
    let rest = memeq fuel m (a + 1) (b + 1) ((size + 2 ^ 64 - 1) % 2 ^ 64) in
    if m a == m b then (if size == 1 then some true else rest) else some false

-- `math_min`: the arguments are those up to the end mark -1.
unfoldable pub math_min : (first : ℕ) → List ℕ → ℕ
math_min min [] = min
math_min min (n ∷ rest) =
    if n == 2 ^ 64 - 1 then min else math_min (if ltb n min then n else min) rest

-- `get_random`: the new `_seed`, and the number.
unfoldable pub get_random : (seed limit : ℕ) → ℕ × ℕ
get_random seed limit = let next = (seed * 25173 + 13849) % 2 ^ 32 in (next, next % limit)
