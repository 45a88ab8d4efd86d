-- ===== src/Memory/Tests.antt =====
-- The loops over memory at work, and their theorems at concrete memories.
use sbu_os.Prelude.{ℕ, ◌≡◌, refl, List, [], ◌∷◌, get_or}
use sbu_os.Memory.{Ram, memset, memcpy, get_random}

-- "ab", then "ac", each with its 0.
abbrev ram : Ram
ram a = get_or (97 ∷ 98 ∷ 0 ∷ 97 ∷ 99 ∷ 0 ∷ []) a 0

abbrev ab : List ℕ
ab = 97 ∷ 98 ∷ []

abbrev ac : List ℕ
ac = 97 ∷ 99 ∷ []

clears : memset ram 1 7 2 2 ≡ 7
unfolding memset
clears = refl

copies_overlap : memcpy ram 0 3 3 1 ≡ 99
unfolding memcpy
copies_overlap = refl

-- A copy to the next byte spreads the first one.
copies_up : memcpy ram 1 0 3 3 ≡ 97
unfolding memcpy
copies_up = refl

random_next : get_random 23213 8 ≡ (584354698, 2)
unfolding get_random
random_next = refl
