-- ===== src/Descriptors/Dup.antt =====
-- What sys_dup and sys_pipe do to the places of a table.
use sbu_os.Prelude.{
  ℕ, zero, suc, ◌+◌, ◌<◌, ◌≡◌, ◌≢◌, refl, ap, sym, ◌∙◌, ◌⊎◌, inl, inr, true, false, not, ◌&&◌, ◌||◌,
  Option, none, some, some_inj, List, [], ◌∷◌, arith, ltb, ◌==◌, Bool-cases, get_or, set, length,
  length-set, get_or-set_self, get_or-set_ne,
}
use sbu_os.Prelude.Int.{pos}
use sbu_os.Descriptors.Count.{find_fd-free}
use sbu_os.Descriptors.{
  fd_size, minus_one, Counts, opened_again, opened, close_fd, dup_to, sys_dup, is_outfd, find_fd,
  sys_pipe,
}

set-free : (t : List ℕ) (fd : ℕ) → get_or (set t fd 0) fd 0 ≡ 0
set-free [] fd = refl
set-free (x ∷ xs) zero = refl
set-free (x ∷ xs) (suc fd) = set-free xs fd

module _ (t : List ℕ) (c : Counts) (fd : ℕ) where
  close_fd-same : get_or (close_fd t c fd).0 fd 0 ≡ 0
  unfolding close_fd
  close_fd-same = elim (Bool-cases (get_or t fd 0 == 0)) [
    | inl free ↦ ground arith
    | inr used ↦ rw (close_fd, used) (set-free t fd)
  ]

  close_fd-other : (i : ℕ) → i ≢ fd → get_or (close_fd t c fd).0 i 0 ≡ get_or t i 0
  unfolding close_fd
  close_fd-other i h = elim (Bool-cases (get_or t fd 0 == 0)) [
    | inl free ↦ rw (close_fd, free) refl
    | inr used ↦ rw (close_fd, used) (get_or-set_ne t fd i 0 0 (λ e. h (sym e)))
  ]

  close_fd-length : length (close_fd t c fd).0 ≡ length t
  unfolding close_fd
  close_fd-length = elim (Bool-cases (get_or t fd 0 == 0)) [
    | inl free ↦ rw (close_fd, free) refl
    | inr used ↦ rw (close_fd, used) (length-set t fd 0)
  ]

-- On two descriptors of a table of FD_SIZE places that differ, the first of them in use, sys_dup
-- returns 0: the second one then stands for the entry of the first, and every other place is as before.
pub sys_dup-duplicates :
    (t : List ℕ) (c : Counts) (oldfd newfd i : ℕ)
    → length t ≡ fd_size
    → oldfd < fd_size
    → newfd < fd_size
    → oldfd ≢ newfd
    → i ≢ newfd
    → get_or t oldfd 0 ≢ 0
    → (t' : List ℕ) × (c' : Counts) × (sys_dup t c oldfd newfd ≡ some (pos 0, t', c'))
      × (get_or t' newfd 0 ≡ get_or t oldfd 0)
      × (get_or t' i 0 ≡ get_or t i 0)
      × (length t' ≡ fd_size)
unfolding sys_dup
sys_dup-duplicates t c oldfd newfd i size o n apart other used =
    let u = (close_fd t c newfd).0 in
    let c1 = (close_fd t c newfd).1 in
    let f = get_or u oldfd 0 in
    let kept : f ≡ get_or t oldfd 0 = close_fd-other t c newfd oldfd apart in
    let size' = close_fd-length t c newfd in
    let in1 : ltb fd_size oldfd || ltb fd_size newfd ≡ false = ground arith in
    let in2 : oldfd == fd_size || newfd == fd_size ≡ false = ground arith in
    let in3 : (f == 0) ≡ false = ground arith in
    (
      set u newfd f,
      opened_again f c1,
      rw (sys_dup, in1, in2, dup_to, in3) refl,
      get_or-set_self u newfd f 0 (omega arith) ∙ kept,
      get_or-set_ne u newfd i f 0 (λ e. other (sym e)) ∙ close_fd-other t c newfd i other,
      length-set u newfd f ∙ size' ∙ size,
    )

-- On one descriptor given twice sys_dup fails with -1, and closes it all the same.
pub sys_dup_same :
    (t : List ℕ) (c : Counts) (fd : ℕ)
    → fd < fd_size
    → (sys_dup t c fd fd ≡ some (minus_one, (close_fd t c fd).0, (close_fd t c fd).1))
      × (get_or (close_fd t c fd).0 fd 0 ≡ 0)
unfolding sys_dup
sys_dup_same t c fd h =
    let u = (close_fd t c fd).0 in
    let in1 : ltb fd_size fd || ltb fd_size fd ≡ false = ground arith in
    let in2 : fd == fd_size || fd == fd_size ≡ false = ground arith in
    let gone : (get_or u fd 0 == 0) ≡ true = ap (λ x. x == 0) (close_fd-same t c fd) in
    (rw (sys_dup, in1, in2, dup_to, gone) refl, close_fd-same t c fd)

add_zero : (k : ℕ) → k + 0 ≡ k
add_zero k = omega arith

add_suc : (k l : ℕ) → k + suc l ≡ k + 1 + l
add_suc k l = omega arith

-- The search passes by no free place but the one that it must.
find_fd-passes :
    (t : List ℕ) (k i l : ℕ) (outfd : Option ℕ)
    → find_fd t k outfd ≡ some i
    → k + l < i
    → get_or t l 0 ≡ 0
    → is_outfd outfd (k + l) ≡ true
unfolding find_fd
find_fd-passes [] k i l outfd h less free = absurd (cc h)
find_fd-passes (x ∷ xs) k i zero outfd h less free =
    elim (Bool-cases (x == 0 && not (is_outfd outfd k))) [
      | inl found ↦ absurd (omega (arith, some_inj (rw (find_fd, found) at h)))
      | inr missed ↦ ap (is_outfd outfd) (add_zero k) ∙ ground arith
    ]
find_fd-passes (x ∷ xs) k i (suc l) outfd h less free =
    elim (Bool-cases (x == 0 && not (is_outfd outfd k))) [
      | inl found ↦ absurd (omega (arith, some_inj (rw (find_fd, found) at h)))
      | inr missed ↦
          ap (is_outfd outfd) (add_suc k l)
          ∙ find_fd-passes xs (k + 1) i l outfd (rw (find_fd, missed) at h) (omega arith) free
    ]

-- A free place is not below the first one that the search finds.
lower :
    (t : List ℕ) (outfd infd : ℕ)
    → find_fd t 0 none ≡ some outfd
    → get_or t infd 0 ≡ 0
    → outfd ≢ infd
    → outfd < infd
lower t outfd infd first free apart = ground (arith, find_fd-passes t 0 outfd infd none first)

higher :
    (t : List ℕ) (outfd infd i : ℕ)
    → find_fd t 0 (some outfd) ≡ some infd
    → i ≢ outfd
    → i ≢ infd
    → (infd < i) ⊎ (get_or t i 0 ≢ 0)
higher t outfd infd i second ne ne' = elim (Bool-cases (ltb infd i)) [
  | inl above ↦ inl (ground arith)
  | inr below ↦ inr (λ free. absurd (ground (arith, find_fd-passes t 0 infd i (some outfd) second)))
]

-- With two free places, sys_pipe takes the lowest one for reading and the lowest one behind it for
-- writing, gives their numbers to the process, and every other place is as before
-- and, if it is below the second one, was in use.
pub sys_pipe-lowest :
    (t : List ℕ) (c : Counts) (out_entry in_entry outfd infd i : ℕ)
    → find_fd t 0 none ≡ some outfd
    → find_fd t 0 (some outfd) ≡ some infd
    → i ≢ outfd
    → i ≢ infd
    → (t' : List ℕ) × (c' : Counts) × (sys_pipe t c out_entry in_entry
        ≡ (pos 0, some (outfd, infd), t', c'))
      × (get_or t' outfd 0 ≡ out_entry)
      × (get_or t' infd 0 ≡ in_entry)
      × (get_or t outfd 0 ≡ 0)
      × (get_or t infd 0 ≡ 0)
      × (outfd < infd)
      × (get_or t' i 0 ≡ get_or t i 0)
      × ((infd < i) ⊎ (get_or t i 0 ≢ 0))
unfolding sys_pipe
sys_pipe-lowest t c out_entry in_entry outfd infd i first second ne ne' =
    let (j, e, inside, free, passed) = find_fd-free t 0 outfd none first in
    let (k, e', inside', free', passed') = find_fd-free t 0 infd (some outfd) second in
    let same : j ≡ outfd = omega arith in
    let same' : k ≡ infd = omega arith in
    let u = set t outfd out_entry in
    let size = length-set t outfd out_entry in
    let apart : outfd ≢ infd = λ q. ground arith in
    let apart' : infd ≢ outfd = λ q. apart (sym q) in
    let free1 : get_or t outfd 0 ≡ 0 = rw same at free in
    let free2 : get_or t infd 0 ≡ 0 = rw same' at free' in
    (
      set u infd in_entry,
      opened in_entry (opened out_entry c),
      rw (sys_pipe, first, second) refl,
      get_or-set_ne u infd outfd in_entry 0 apart'
          ∙ get_or-set_self t outfd out_entry 0 (omega arith),
      get_or-set_self u infd in_entry 0 (omega arith),
      free1,
      free2,
      lower t outfd infd first free2 apart,
      get_or-set_ne u infd i in_entry 0 (λ q. ne' (sym q))
          ∙ get_or-set_ne t outfd i out_entry 0 (λ q. ne (sym q)),
      higher t outfd infd i second ne ne',
    )
