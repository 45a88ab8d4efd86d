-- ===== src/Descriptors.antt =====
-- The descriptors of the processes: the handler of `int 0x80` in sys/idt.c for close, dup, pipe and
-- for the part of open that takes a descriptor, and the copy of the descriptors by
-- fork_process in sys/thread/kthread.c. An entry of the file table is known by its address,
-- 0 is NULL; one that `sf_calloc` makes has an address of its own.
pub mod Count
pub mod Refs
pub mod Dup
mod Tests
use sbu_os.Prelude.{
  ℕ, zero, suc, ◌+◌, Bool, true, false, not, ◌&&◌, ◌||◌, Option, none, some, List, [], ◌∷◌, ◌++◌,
  ltb, leb, ◌==◌, if◌then◌else◌, ◌>>=◌, get_elem?, get_or, set, replicate,
}
use sbu_os.Prelude.Int.{ℤ, pos, negsuc, incr, decr}
use sbu_os.Process.{close_files}

-- FD_SIZE
abbrev pub fd_size : ℕ
fd_size = 16

-- -EMFILE, -EIO, -EINVAL and -EBADF, and -1
abbrev pub emfile : ℤ
emfile = negsuc 23

abbrev pub eio : ℤ
eio = negsuc 4

abbrev pub einval : ℤ
einval = negsuc 21

abbrev pub ebadf : ℤ
ebadf = negsuc 8

abbrev pub minus_one : ℤ
minus_one = negsuc 0

-- `open_count` of each entry.
abbrev pub Counts : Type 0
Counts = ℕ → ℤ

-- `open_count++` and `--open_count` of one entry.
abbrev pub opened_again : ℕ → Counts → Counts
opened_again f counts g = if g == f then incr (counts g) else counts g

abbrev pub closed_once : ℕ → Counts → Counts
closed_once f counts g = if g == f then decr (counts g) else counts g

-- `file_close` on a descriptor that is in use, which is free afterwards.
unfoldable pub close_fd : (open_fd : List ℕ) → Counts → (fd : ℕ) → List ℕ × Counts
close_fd open_fd counts fd =
    if get_or open_fd fd 0 == 0
    then (open_fd, counts)
    else (set open_fd fd 0, closed_once (get_or open_fd fd 0) counts)

-- sys_close, with `rax`.
unfoldable pub sys_close : (open_fd : List ℕ) → Counts → (fd : ℕ) → ℤ × List ℕ × Counts
unfolding close_fd
sys_close open_fd counts fd =
    let (open_fd', counts') = close_fd open_fd counts fd in
    if leb fd_size fd then (emfile, open_fd, counts) else (pos 0, open_fd', counts')

-- sys_dup behind the close of `newfd`.
unfoldable pub dup_to : (open_fd : List ℕ) → Counts → (oldfd newfd : ℕ) → ℤ × List ℕ × Counts
dup_to open_fd counts oldfd newfd =
    let f = get_or open_fd oldfd 0 in
    if f == 0
    then (minus_one, open_fd, counts)
    else (pos 0, set open_fd newfd f, opened_again f counts)

-- sys_dup. The test lets FD_SIZE itself pass, and the access is then behind the array: `none`.
unfoldable pub sys_dup :
    (open_fd : List ℕ) → Counts → (oldfd newfd : ℕ) → Option (ℤ × List ℕ × Counts)
unfolding close_fd dup_to
sys_dup open_fd counts oldfd newfd =
    if ltb fd_size oldfd || ltb fd_size newfd
    then some (minus_one, open_fd, counts)
    else if oldfd == fd_size || newfd == fd_size
    then none
    else (let (freed, counts') = close_fd open_fd counts newfd in
        some (dup_to freed counts' oldfd newfd))

-- `infd == outfd`, in the second search.
abbrev pub is_outfd : (outfd : Option ℕ) → (fd : ℕ) → Bool
is_outfd none fd = false
is_outfd (some o) fd = fd == o

-- The search for a descriptor that is not in use, from `fd` on; `outfd` is passed by.
unfoldable pub find_fd : (open_fd : List ℕ) → (fd : ℕ) → (outfd : Option ℕ) → Option ℕ
find_fd [] fd outfd = none
find_fd (f ∷ fs) fd outfd =
    let rest = find_fd fs (fd + 1) outfd in
    if f == 0 && not (is_outfd outfd fd) then some fd else rest

-- `open_count = 1` of a new entry.
abbrev pub opened : ℕ → Counts → Counts
opened f counts g = if g == f then pos 1 else counts g

-- sys_pipe; the entries of `generate_entry_pair` are `out_entry` and `in_entry`, and the
-- descriptors go to `fd`.
unfoldable pub sys_pipe :
    (open_fd : List ℕ) → Counts → (out_entry in_entry : ℕ) → ℤ × Option (ℕ × ℕ) × List ℕ × Counts
unfolding find_fd
sys_pipe open_fd counts out_entry in_entry = elim (find_fd open_fd 0 none) [
  | none ↦ (emfile, none, open_fd, counts)
  | some outfd ↦ elim (find_fd open_fd 0 (some outfd)) [
    | none ↦ (emfile, none, open_fd, counts)
    | some infd ↦ (
      pos 0,
      some (outfd, infd),
      set (set open_fd outfd out_entry) infd in_entry,
      opened in_entry (opened out_entry counts),
    )
  ]
]

-- sys_open behind the path: `entry` is the one that `file_open_read` made for the low bits 0 of the
-- flag, or `file_open_write` for 1; `none` is their result 0.
unfoldable pub sys_open_fd :
    (open_fd : List ℕ) → Counts → (low_bits : ℕ) → (entry : Option ℕ) → ℤ × List ℕ × Counts
unfolding find_fd
sys_open_fd open_fd counts low_bits entry = elim (find_fd open_fd 0 none) [
  | none ↦ (emfile, open_fd, counts)
  | some i ↦ if ltb 1 low_bits then (einval, open_fd, counts) else elim entry [
    | none ↦ (eio, open_fd, counts)
    | some f ↦ (pos i, set open_fd i f, opened f counts)
  ]
]

-- fork_process: the child has the descriptors of its parent, and each entry counts once
-- more for each of them.
unfoldable pub dup_files : (open_fd : List ℕ) → Counts → Counts
dup_files [] counts = counts
dup_files (f ∷ fs) counts = dup_files fs (if f == 0 then counts else opened_again f counts)

-- spawn_process: the descriptors of a process that the kernel starts.
abbrev pub terminal_files : (stdin_file stdout_file : ℕ) → List ℕ
terminal_files stdin_file stdout_file = stdin_file ∷ stdout_file ∷ stdout_file ∷ replicate 13 0

-- The processes, the entries, and the first address that `sf_calloc` has not used.
pub record Files : Type 0 where
  pub tables : List (List ℕ)
  pub counts : Counts
  pub fresh : ℕ
  -- `terminal_file_out[0]` and `terminal_file_in[1]`
  pub stdin_file : ℕ
  pub stdout_file : ℕ

-- The events, each with the index of a process.
pub data Event : Type 0 where
  close : (p fd : ℕ) → Event
  dup : (p oldfd newfd : ℕ) → Event
  pipe : (p : ℕ) → Event
  open_file : (p low_bits : ℕ) → (found : Bool) → Event
  spawn : Event
  fork : (p : ℕ) → Event
  cleanup : (p : ℕ) → Event

-- A handler for one process, put back into the state.
abbrev pub at_process : Files → (p : ℕ) → (List ℕ → Option (List ℕ × Counts)) → Option Files
at_process s p handler = do
  open_fd ← get_elem? s.tables p
  (open_fd', counts) ← handler open_fd
  some (record s { tables = set s.tables p open_fd'; counts = counts })

-- What an event makes of the state; `none` where the process is not there or reads behind the array.
unfoldable pub handle : Files → Event → Option Files
unfolding sys_close sys_dup sys_pipe sys_open_fd dup_files
handle s (close p fd) =
    at_process s p (λ t. let (rax, t', counts) = sys_close t s.counts fd in some (t', counts))
handle s (dup p oldfd newfd) =
    at_process s p (λ t. do (rax, t', counts) ← sys_dup t s.counts oldfd newfd; some (t', counts))
handle s (pipe p) =
    at_process (record s { fresh = s.fresh + 2 }) p
      (λ t.
        let (rax, fd, t', counts) = sys_pipe t s.counts s.fresh (s.fresh + 1) in some (t', counts))
handle s (open_file p low_bits found) =
    at_process (record s { fresh = s.fresh + 1 }) p
      (λ t.
        let (rax, t', counts) =
          sys_open_fd t s.counts low_bits (if found then some s.fresh else none) in
        some (t', counts))
handle s spawn = some (record s {
  tables = s.tables ++ (terminal_files s.stdin_file s.stdout_file ∷ []);
  counts =
      opened_again s.stdout_file (opened_again s.stdout_file (opened_again s.stdin_file s.counts));
})
handle s (fork p) = do
  t ← get_elem? s.tables p
  some (record s { tables = s.tables ++ (t ∷ []); counts = dup_files t s.counts })
handle s (cleanup p) = at_process s p (λ t. some ([], close_files t s.counts))
