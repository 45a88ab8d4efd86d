-- ===== src/Paths/Plain.antt =====
-- A path without a '.' at the end of a name stays as it is.
use sbu_os.Prelude.{
  ℕ, zero, suc, ◌+◌, ◌<◌, ◌≡◌, ◌≢◌, refl, ap, ◌∙◌, false, ◌&&◌, ◌||◌, some, List, [], ◌∷◌, ◌++◌,
  arith, ◌==◌, get_elem?, get_or, length, append_assoc, length-append,
}
use mathlib.Core.Path.{subst}
use sbu_os.Paths.{is_dot, is_end, this_dir, parent_dir, shorten_path, last, calculate_path}

-- No byte is 0, and no '.' stands in front of a '/' or at the end.
abbrev pub IsPlain : List ℕ → Type 0
IsPlain [] = Unit {0}
IsPlain (c ∷ []) = (c ≢ 0) × (c ≢ b'.')
IsPlain (c ∷ d ∷ cs) = (c ≢ 0) × ((c == b'.' && d == b'/') ≡ false) × IsPlain (d ∷ cs)

get_or-behind :
    (pre xs : List ℕ) (i j : ℕ) → i ≡ length pre + j → get_or (pre ++ xs) i 0 ≡ get_or xs j 0
get_or-behind [] xs i j e = ap (λ k. get_or xs k 0) (omega arith)
get_or-behind (c ∷ pre) xs zero j e = absurd (omega arith)
get_or-behind (c ∷ pre) xs (suc i) j e = get_or-behind pre xs i j (omega arith)

get_elem?-behind :
    (pre : List ℕ) (c : ℕ) (xs : List ℕ) → get_elem? (pre ++ (c ∷ xs)) (length pre) ≡ some c
get_elem?-behind [] c xs = refl
get_elem?-behind (d ∷ pre) c xs = get_elem?-behind pre c xs

-- The text of a buffer with its 0.
abbrev text : List ℕ → List ℕ
text cs = cs ++ (0 ∷ [])

this_dir_idle :
    (path : List ℕ) (i : ℕ)
    → is_dot path i && is_end path (i + 1) ≡ false
    → this_dir path i ≡ some path
unfolding this_dir
this_dir_idle path i h = rw (this_dir, h) refl

parent_dir_idle :
    (path : List ℕ) (i : ℕ)
    → is_dot path i && is_dot path (i + 1) && is_end path (i + 2) ≡ false
    → parent_dir path i ≡ some (path, i)
unfolding parent_dir
parent_dir_idle path i h = rw (parent_dir, h) refl

ends :
    (fuel : ℕ) (path : List ℕ) (i : ℕ)
    → get_elem? path i ≡ some 0
    → shorten_path (suc fuel) path i ≡ some path
unfolding shorten_path
ends fuel path i h = rw (shorten_path, h) refl

-- One round of the loop on a byte that is no '.' at the end of a name.
round :
    (fuel : ℕ) (path : List ℕ) (i c : ℕ)
    → get_elem? path i ≡ some c
    → (c == 0) ≡ false
    → is_dot path i && is_end path (i + 1) ≡ false
    → is_dot path i && is_dot path (i + 1) && is_end path (i + 2) ≡ false
    → shorten_path (suc fuel) path i ≡ shorten_path fuel path (i + 1)
unfolding shorten_path
round fuel path i c at some_c one two =
    rw (shorten_path, at, some_c, this_dir_idle path i one, parent_dir_idle path i two) refl

IsPlain-rest : (c : ℕ) (rest : List ℕ) → IsPlain (c ∷ rest) → IsPlain rest
IsPlain-rest c [] p = tt
IsPlain-rest c (d ∷ cs) p = p.2

IsPlain-not_zero : (c : ℕ) (rest : List ℕ) → IsPlain (c ∷ rest) → (c == 0) ≡ false
IsPlain-not_zero c [] p = ground (arith, p.0)
IsPlain-not_zero c (d ∷ cs) p = ground (arith, p.0)

IsPlain-this_dir :
    (c : ℕ) (rest : List ℕ)
    → IsPlain (c ∷ rest)
    → c == b'.' && (get_or (text rest) 0 0 == b'/' || get_or (text rest) 0 0 == 0) ≡ false
IsPlain-this_dir c [] p = ground (arith, p.1)
IsPlain-this_dir c (d ∷ cs) p = ground (arith, p.1, IsPlain-not_zero d cs p.2)

IsPlain-parent_dir :
    (c : ℕ) (rest : List ℕ)
    → IsPlain (c ∷ rest)
    → c == b'.'
        && get_or (text rest) 0 0 == b'.'
        && (get_or (text rest) 1 0 == b'/' || get_or (text rest) 1 0 == 0)
      ≡ false
IsPlain-parent_dir c [] p = ground arith
IsPlain-parent_dir c (d ∷ cs) p = ground (arith, IsPlain-this_dir d cs p.2)

shorten_path-IsPlain :
    (fuel : ℕ) (pre rest : List ℕ)
    → length rest < fuel
    → IsPlain rest
    → shorten_path fuel (pre ++ text rest) (length pre) ≡ some (pre ++ text rest)
shorten_path-IsPlain zero pre rest h p = absurd (omega arith)
shorten_path-IsPlain (suc fuel) pre [] h p =
    ends fuel (pre ++ text []) (length pre) (get_elem?-behind pre 0 [])
shorten_path-IsPlain (suc fuel) pre (c ∷ rest) h p =
    let path = pre ++ text (c ∷ rest) in
    let i = length pre in
    let g0 : get_or path i 0 ≡ c = get_or-behind pre (text (c ∷ rest)) i 0 (omega arith) in
    let g1 : get_or path (i + 1) 0 ≡ get_or (text rest) 0 0 =
      get_or-behind pre (text (c ∷ rest)) (i + 1) 1 refl in
    let g2 : get_or path (i + 2) 0 ≡ get_or (text rest) 1 0 =
      get_or-behind pre (text (c ∷ rest)) (i + 2) 2 refl in
    let some_c : (c == 0) ≡ false = IsPlain-not_zero c rest p in
    let one : is_dot path i && is_end path (i + 1) ≡ false =
      rw (g0, g1) (IsPlain-this_dir c rest p) in
    let two : is_dot path i && is_dot path (i + 1) && is_end path (i + 2) ≡ false =
      rw (g0, g1, g2) (IsPlain-parent_dir c rest p) in
    let longer : length (pre ++ (c ∷ [])) ≡ i + 1 = length-append pre (c ∷ []) in
    let same : (pre ++ (c ∷ [])) ++ text rest ≡ path = append_assoc pre (c ∷ []) (text rest) in
    round fuel path i c (get_elem?-behind pre c (text rest)) some_c one two
    ∙ subst (λ k. shorten_path fuel path k ≡ some path) longer
        (subst (λ b. shorten_path fuel b (length (pre ++ (c ∷ []))) ≡ some b) same
          (shorten_path-IsPlain fuel (pre ++ (c ∷ [])) rest (omega arith) (IsPlain-rest c rest p)))

-- A path that is relative to a directory other than the root, and in which no name ends with a '.',
-- is the directory, a '/' and the path: `calculate_path` ends within a round for each byte, and two, and
-- changes none of them.
pub calculate_path-IsPlain :
    (fuel : ℕ) (base relative_path : List ℕ) (c : ℕ)
    → last base ≡ some c
    → c ≢ b'/'
    → get_or relative_path 0 0 ≢ b'/'
    → IsPlain (base ++ (b'/' ∷ relative_path))
    → length base + length relative_path + 1 < fuel
    → calculate_path fuel base relative_path ≡ some (base ++ (b'/' ∷ (relative_path ++ (0 ∷ []))))
unfolding calculate_path
calculate_path-IsPlain fuel base relative_path c ends' other relative plain h =
    let joined = base ++ (b'/' ∷ relative_path) in
    let size = length-append base (b'/' ∷ relative_path) in
    let not_root : (get_or relative_path 0 0 == b'/') ≡ false = ground arith in
    let not_slash : (c == b'/') ≡ false = ground arith in
    let same : joined ++ (0 ∷ []) ≡ base ++ (b'/' ∷ (relative_path ++ (0 ∷ []))) =
      append_assoc base (b'/' ∷ relative_path) (0 ∷ []) in
    rw (calculate_path, not_root, ends', not_slash)
      (subst (λ b. shorten_path fuel b 0 ≡ some b) same
        (shorten_path-IsPlain fuel [] joined (omega arith) plain))
