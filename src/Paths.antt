-- ===== src/Paths.antt =====
-- sys/disk/file_system.c, `calculate_path` and `shorten_path`: the path of a file from the directory
-- of a process. A path stands in a buffer as long as `sf_calloc` gave it, with a 0 behind it; an access
-- outside the buffer is `none`.
pub mod Plain
mod Tests
use sbu_os.Prelude.{
  ℕ, zero, suc, ◌+◌, ◌-◌, Bool, true, false, not, ◌&&◌, ◌||◌, Option, none, some, List, [], ◌∷◌,
  ◌++◌, ◌==◌, if◌then◌else◌, ◌>>=◌, get_elem?, get_or, set, length,
}

-- `str_collapse(path + dest, path + src)`, with at most `left` bytes to move.
unfoldable pub str_collapse : (left : ℕ) → (path : List ℕ) → (dest src : ℕ) → Option (List ℕ)
str_collapse zero path dest src = none
str_collapse (suc left) path dest src = elim (get_elem? path src) [
  | none ↦ none
  | some c ↦ elim (c == 0) [
    | true ↦ some (set path dest 0)
    | false ↦ str_collapse left (set path dest c) (dest + 1) (src + 1)
  ]
]

abbrev pub is_dot : (path : List ℕ) → (i : ℕ) → Bool
is_dot path i = get_or path i 0 == b'.'

-- Is there a '/' or the end at `i`?
abbrev pub is_end : (path : List ℕ) → (i : ℕ) → Bool
is_end path i = get_or path i 0 == b'/' || get_or path i 0 == 0

-- The first `if` of the loop, for a '.' at `i`.
unfoldable pub this_dir : (path : List ℕ) → (i : ℕ) → Option (List ℕ)
unfolding str_collapse
this_dir path i =
    if is_dot path i && is_end path (i + 1)
    then str_collapse (length path) (if get_or path (i + 1) 0 == 0 then set path i 0 else path) i
        (i + 2)
    else some path

-- The search for the '/' of the directory above, below `n`.
unfoldable pub slash_before : (path : List ℕ) → (n : ℕ) → Option ℕ
slash_before path zero = none
slash_before path (suc j) =
    let rest = slash_before path j in if get_or path j 0 == b'/' then some j else rest

-- The second `if`, for two '.' at `i`, with the new `i`.
unfoldable pub parent_dir : (path : List ℕ) → (i : ℕ) → Option (List ℕ × ℕ)
unfolding str_collapse slash_before
parent_dir path i =
    if is_dot path i && is_dot path (i + 1) && is_end path (i + 2)
    then (let ends = get_or path (i + 2) 0 == 0 in
        elim (slash_before path (i - 1)) [
          | none ↦ do
            p ← if ends then some (set path i 0) else str_collapse (length path) path i (i + 3)
            some (p, i)
          | some j ↦ do
            p ←
                if ends
                then some (set path (j + 1) 0)
                else str_collapse (length path) path (j + 1) (i + 3)
            some (p, j)
        ])
    else some (path, i)

-- The loop of `shorten_path`; `none` also if the fuel runs out.
unfoldable pub shorten_path : (fuel : ℕ) → (path : List ℕ) → (i : ℕ) → Option (List ℕ)
unfolding this_dir parent_dir
shorten_path zero path i = none
shorten_path (suc fuel) path i = elim (get_elem? path i) [
  | none ↦ none
  | some c ↦ elim (c == 0) [
    | true ↦ some path
    | false ↦ do p ← this_dir path i; (q, j) ← parent_dir p i; shorten_path fuel q (j + 1)
  ]
]

-- The last byte of a text.
abbrev pub last : List ℕ → Option ℕ
last [] = none
last (c ∷ []) = some c
last (c ∷ d ∷ cs) = last (d ∷ cs)

-- `calculate_path`, on the bytes of its arguments; for an empty `base` it reads in front of that.
unfoldable pub calculate_path : (fuel : ℕ) → (base relative_path : List ℕ) → Option (List ℕ)
unfolding shorten_path
calculate_path fuel base relative_path =
    if get_or relative_path 0 0 == b'/'
    then shorten_path fuel (relative_path ++ (0 ∷ [])) 0
    else elim (last base) [
      | none ↦ none
      | some c ↦
          if c == b'/'
          then shorten_path fuel (base ++ (relative_path ++ (0 ∷ []))) 0
          else shorten_path fuel (base ++ (b'/' ∷ (relative_path ++ (0 ∷ [])))) 0
    ]
