-- ===== src/Exec/First.antt =====
-- `execvpe` runs the program from the first directory of PATH that has it.
use sbu_os.Prelude.{
  ℕ, zero, suc, ◌+◌, ◌<◌, ◌≡◌, ◌≢◌, refl, inl, inr, Bool, Option, true, false, none, some, List, [],
  ◌∷◌, ◌++◌, arith, ap, ◌∙◌, ltb, ◌==◌, if◌then◌else◌, ◌>>=◌, Bool-cases, get_elem?, get_or, length,
}
use sbu_os.Shell.{is_empty}
use sbu_os.Shell.Split.{join, Without}
use sbu_os.Exec.{
  strcmp, extract_env, search_env, Search, execve, no_entry, next_dir, try_dirs, execvpe,
}

next_dir-append :
    (d rest : List ℕ) → Without b':' d → next_dir (d ++ (b':' ∷ rest)) ≡ (d, some rest)
unfolding next_dir
next_dir-append [] rest w = refl
next_dir-append (c ∷ d) rest w =
    let other = w.0 in let next = next_dir-append d rest w.1 in rw (next_dir, other, next) refl

next_dir-end : (d : List ℕ) → Without b':' d → next_dir d ≡ (d, none)
unfolding next_dir
next_dir-end [] w = refl
next_dir-end (c ∷ d) w =
    let other = w.0 in let next = next_dir-end d w.1 in rw (next_dir, other, next) refl

-- The first directory in which the file can be opened.
abbrev pub first_with : (can_open : List ℕ → Bool) → List (List ℕ) → (file : List ℕ) → Search
first_with can_open [] file = no_entry
first_with can_open (d ∷ ds) file =
    let rest = first_with can_open ds file in
    if can_open (d ++ (b'/' ∷ file)) then execve (d ++ (b'/' ∷ file)) else rest

-- Directories without a ':', none of them empty, that leave room for the file in `path_append`.
abbrev pub AreDirs : List (List ℕ) → (file : List ℕ) → Type 0
AreDirs [] file = Unit {0}
AreDirs (d ∷ ds) file =
    (is_empty d ≡ false) × Without b':' d × (length (d ++ (b'/' ∷ file)) < 512) × AreDirs ds file

try_dirs-first :
    (can_open : List ℕ → Bool) (fuel : ℕ) (ds : List (List ℕ)) (file : List ℕ)
    → AreDirs ds file
    → length ds < fuel
    → try_dirs can_open fuel (join b':' ds) file ≡ some (first_with can_open ds file)
unfolding try_dirs
try_dirs-first can_open zero ds file a l = absurd (omega arith)
try_dirs-first can_open (suc fuel) [] file a l = refl
try_dirs-first can_open (suc fuel) ([] ∷ []) file a l = absurd (cc (a.0))
try_dirs-first can_open (suc fuel) ((c ∷ d) ∷ []) file a l =
    let next = next_dir-end (c ∷ d) a.1 in
    let room : ltb (length ((c ∷ d) ++ (b'/' ∷ file))) 512 ≡ true = ground (arith, a.2) in
    elim (Bool-cases (can_open ((c ∷ d) ++ (b'/' ∷ file)))) [
      | inl here ↦ rw (try_dirs, next, room, here) refl
      | inr gone ↦ rw (try_dirs, next, room, gone) refl
    ]
try_dirs-first can_open (suc fuel) ([] ∷ e ∷ ds) file a l = absurd (cc (a.0))
try_dirs-first can_open (suc fuel) ((c ∷ d) ∷ e ∷ ds) file a l =
    let next = next_dir-append (c ∷ d) (join b':' (e ∷ ds)) a.1 in
    let room : ltb (length ((c ∷ d) ++ (b'/' ∷ file))) 512 ≡ true = ground (arith, a.2) in
    let rest = try_dirs-first can_open fuel (e ∷ ds) file a.3 (omega arith) in
    elim (Bool-cases (can_open ((c ∷ d) ++ (b'/' ∷ file)))) [
      | inl here ↦ rw (try_dirs, next, room, here) refl
      | inr gone ↦ rw (try_dirs, next, room, gone, rest) refl
    ]

abbrev pub path_key : List ℕ
path_key = b'P' ∷ b'A' ∷ b'T' ∷ b'H' ∷ []

extract_env-entry :
    (key value : List ℕ)
    → Without b'=' key
    → extract_env (key ++ (b'=' ∷ value)) ≡ (key, some value)
unfolding extract_env
extract_env-entry [] value w = refl
extract_env-entry (c ∷ key) value w =
    let other = w.0 in
    let rest = extract_env-entry key value w.1 in rw (extract_env, other, rest) refl

extract_env-text : (text : List ℕ) → Without b'=' text → extract_env text ≡ (text, none)
unfolding extract_env
extract_env-text [] w = refl
extract_env-text (c ∷ text) w =
    let other = w.0 in let rest = extract_env-text text w.1 in rw (extract_env, other, rest) refl

strcmp-differs : (s t : List ℕ) → s ≢ t → strcmp s t ≡ false
unfolding strcmp
strcmp-differs [] [] ne = absurd (ne refl)
strcmp-differs [] (d ∷ t) ne = refl
strcmp-differs (c ∷ s) [] ne = refl
strcmp-differs (c ∷ s) (d ∷ t) ne = elim (Bool-cases (c == d)) [
  | inl same ↦
      let e : c ≡ d = ground arith in
      let rest = strcmp-differs s t λ h. ne (ap (λ x. x ∷ s) e ∙ ap (λ l. d ∷ l) h) in
      rw (same, rest) refl
  | inr other ↦ rw other refl
]

-- An entry for another key than PATH, of less than 128 bytes, or a text of less than 128 bytes
-- without a '='.
pub data IsOther : List ℕ → Type 0 where
  for_key :
      (key value : List ℕ)
      → Without b'=' key
      → length key < 128
      → key ≢ path_key
      → IsOther (key ++ (b'=' ∷ value))
  for_none : (text : List ℕ) → Without b'=' text → length text < 128 → IsOther text

abbrev pub AreOthers : List (List ℕ) → Type 0
AreOthers [] = Unit {0}
AreOthers (e ∷ env) = IsOther e × AreOthers env

search_env-other :
    (e : List ℕ) (env : List (List ℕ)) (i : ℕ)
    → IsOther e
    → search_env env path_key ≡ some (some i)
    → search_env (e ∷ env) path_key ≡ some (some (i + 1))
unfolding search_env
search_env-other _ env i (for_key key value w short ne) found =
    let split = extract_env-entry key value w in
    let room : ltb (length key) 128 ≡ true = ground (arith, short) in
    let differs = strcmp-differs key path_key ne in
    let its_key = ap (λ (p : List ℕ × Option (List ℕ)). p.0) split in
    let its_value = ap (λ (p : List ℕ × Option (List ℕ)). p.1) split in
    rw (search_env, its_value, its_key, room, differs, found, ◌>>=◌) refl
search_env-other _ env i (for_none text w short) found =
    let split = extract_env-text text w in
    let room : ltb (length text) 128 ≡ true = ground (arith, short) in
    rw (search_env, split, room, found, ◌>>=◌) refl

search_env-first :
    (before after : List (List ℕ)) (value : List ℕ)
    → AreOthers before
    → search_env (before ++ ((path_key ++ (b'=' ∷ value)) ∷ after)) path_key
      ≡ some (some (length before))
unfolding search_env extract_env strcmp
search_env-first [] after value o = refl
search_env-first (e ∷ before) after value o =
    search_env-other e (before ++ ((path_key ++ (b'=' ∷ value)) ∷ after)) (length before) o.0
      (search_env-first before after value o.1)
    ∙ ap (λ n. some (some n)) (omega arith)

get_elem?-middle :
    (before after : List (List ℕ)) (e : List ℕ)
    → get_elem? (before ++ (e ∷ after)) (length before) ≡ some e
get_elem?-middle [] after e = refl
get_elem?-middle (b ∷ before) after e = get_elem?-middle before after e

-- A file that is not given by an absolute path, and an environment in which only entries with other
-- keys, and texts without a '=', all of less than 128 bytes in front of the '=', come before an entry
-- for PATH that has directories, none of which is empty or has a ':' in it, in less than 1023 bytes, and
-- which leave room for the name of the file. Then `execvpe`, with a round for each directory, and one, executes the file
-- in the first of these directories in which it can be opened, and fails if there is none.
pub execvpe-first :
    (can_open : List ℕ → Bool) (fuel : ℕ) (file : List ℕ) (before after ds : List (List ℕ))
    → get_or file 0 0 ≢ b'/'
    → AreOthers before
    → length (join b':' ds) < 1023
    → AreDirs ds file
    → length ds < fuel
    → execvpe can_open fuel file (before ++ ((path_key ++ (b'=' ∷ join b':' ds)) ∷ after))
      ≡ some (first_with can_open ds file)
unfolding execvpe extract_env
execvpe-first can_open fuel file before after ds relative others short dirs l =
    let found = search_env-first before after (join b':' ds) others in
    let at = get_elem?-middle before after (path_key ++ (b'=' ∷ join b':' ds)) in
    let other : (get_or file 0 0 == b'/') ≡ false = ground (arith, relative) in
    let value : (extract_env (path_key ++ (b'=' ∷ join b':' ds))).1 ≡ some (join b':' ds) = refl in
    let room : ltb (length (join b':' ds) + 1) 1024 ≡ true = ground (arith, short) in
    rw (execvpe, other, found, ◌>>=◌, at, ◌>>=◌, room) (try_dirs-first can_open fuel ds file dirs l)
