-- ===== src/Exec.antt =====
-- libc/exec.c, the search of a program: `execvpe` down to `execve`, with `__strcmp`, `__extract_env` and
-- `__search_env`. Texts are lists of bytes without the 0; what is written behind the end of a buffer
-- makes the result `none`. Whether a file can be opened is a parameter.
pub mod First
mod Tests
use sbu_os.Prelude.{
  ℕ, zero, suc, ◌+◌, Bool, true, false, not, ◌&&◌, Option, none, some, List, [], ◌∷◌, ◌++◌, ltb,
  ◌==◌, if◌then◌else◌, ◌>>=◌, get_elem?, get_or, length,
}

-- `__strcmp`: are the texts the same?
unfoldable pub strcmp : List ℕ → List ℕ → Bool
strcmp [] [] = true
strcmp [] (d ∷ t) = false
strcmp (c ∷ s) [] = false
strcmp (c ∷ s) (d ∷ t) = let rest = strcmp s t in c == d && rest

-- `__extract_env`: the key, and the value unless there is no '='.
unfoldable pub extract_env : List ℕ → List ℕ × Option (List ℕ)
extract_env [] = ([], none)
extract_env (c ∷ cs) =
    let (key, value) = extract_env cs in if c == b'=' then ([], some cs) else (c ∷ key, value)

-- `__search_env`, with a key of 128 bytes: the index, or an inner `none` for the result -1.
unfoldable pub search_env : (env : List (List ℕ)) → (key_to_find : List ℕ) → Option (Option ℕ)
unfolding extract_env strcmp
search_env [] key_to_find = some none
search_env (e ∷ env) key_to_find =
    let (key, value) = extract_env e in
    let rest = search_env env key_to_find in
    if not (ltb (length key) 128) then none else elim value [
      | none ↦ rest >>= λ i. some (i >>= λ k. some (k + 1))
      | some v ↦
          if strcmp key key_to_find
          then some (some 0)
          else rest >>= λ i. some (i >>= λ k. some (k + 1))
    ]

-- What is executed: a file, or nothing, with errno 2.
pub data Search : Type 0 where
  execve : (file : List ℕ) → Search
  no_entry : Search

-- A directory of the path, and what is behind its ':', if it is not the last.
unfoldable pub next_dir : List ℕ → List ℕ × Option (List ℕ)
next_dir [] = ([], none)
next_dir (c ∷ cs) =
    let (dir, rest) = next_dir cs in if c == b':' then ([], some cs) else (c ∷ dir, rest)

module _ (can_open : List ℕ → Bool) where
  -- `open` and `close`, and `execve` if that went well.
  abbrev pub exec_if : List ℕ → Search
  exec_if file = if can_open file then execve file else no_entry

  -- The loop over `path_to_check`, with `path_append` of 512 bytes.
  unfoldable pub try_dirs : (fuel : ℕ) → (path_to_check file : List ℕ) → Option Search
  unfolding next_dir
  try_dirs zero path_to_check file = none
  try_dirs (suc fuel) [] file = some no_entry
  try_dirs (suc fuel) (c ∷ cs) file =
      let (dir, behind) = next_dir (c ∷ cs) in
      let path_append = dir ++ (b'/' ∷ file) in
      if not (ltb (length path_append) 512)
      then none
      else if can_open path_append
      then some (execve path_append)
      else elim behind [ none ↦ some no_entry | some path ↦ try_dirs fuel path file ]

  -- `execvpe`; `path` has 1024 bytes, and two zeros are written behind the value.
  unfoldable pub execvpe : (fuel : ℕ) → (file : List ℕ) → (env : List (List ℕ)) → Option Search
  unfolding search_env extract_env try_dirs
  execvpe fuel file env = if get_or file 0 0 == b'/' then some (exec_if file) else (do
    target ← search_env env (b'P' ∷ b'A' ∷ b'T' ∷ b'H' ∷ [])
    elim target [
      | none ↦ some (exec_if file)
      | some i ↦ (do
        entry ← get_elem? env i
        elim (extract_env entry).1 [
          | none ↦ some (execve file)
          | some path ↦ if ltb (length path + 1) 1024 then try_dirs fuel path file else none
        ])
    ])
