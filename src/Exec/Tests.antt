-- ===== src/Exec/Tests.antt =====
-- A path of two directories.
use sbu_os.Prelude.{◌≡◌, refl, Bool, some, List, [], ◌∷◌, arith, ℕ}
use sbu_os.Exec.{execve, strcmp, extract_env, search_env, execvpe}
use sbu_os.Exec.First.{for_key, execvpe-first}

-- Only "/b/ls" is there.
abbrev can_open : List ℕ → Bool
unfolding strcmp
can_open file = strcmp file (b'/' ∷ b'b' ∷ b'/' ∷ b'l' ∷ b's' ∷ [])

abbrev environment : List (List ℕ)
environment =
    (b'X' ∷ b'=' ∷ [])
    ∷ (b'P' ∷ b'A' ∷ b'T' ∷ b'H' ∷ b'=' ∷ b'/' ∷ b'a' ∷ b':' ∷ b'/' ∷ b'b' ∷ [])
    ∷ []

execvpe-first_example :
    execvpe can_open 3 (b'l' ∷ b's' ∷ []) environment
    ≡ some (execve (b'/' ∷ b'b' ∷ b'/' ∷ b'l' ∷ b's' ∷ []))
unfolding search_env extract_env strcmp
execvpe-first_example =
    execvpe-first can_open 3 (b'l' ∷ b's' ∷ []) ((b'X' ∷ b'=' ∷ []) ∷ []) []
      ((b'/' ∷ b'a' ∷ []) ∷ (b'/' ∷ b'b' ∷ []) ∷ []) (omega arith)
      (for_key (b'X' ∷ []) [] (refl, tt) (omega arith) (λ h. cc h), tt) (omega arith)
      (refl, (refl, (refl, tt)), omega arith, (refl, (refl, (refl, tt)), omega arith, tt))
      (omega arith)
