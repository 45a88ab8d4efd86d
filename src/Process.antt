-- ===== src/Process.antt =====
-- sys/thread/kthread.c, the processes: signals, the clean-up of a process, and the scheduler. A
-- process is known by its address, 0 is NULL, and `run_list` is the linked list from
-- `first_process`, so a suffix of it stands for a pointer into it.
pub mod Scan
pub mod Signal
pub mod Cleanup
mod Tests
use sbu_os.Prelude.{
  ℕ, zero, suc, ◌+◌, ◌-◌, ◌^◌, Bool, true, false, not, ◌&&◌, ◌||◌, Option, none, some, List, [],
  ◌∷◌, ◌==◌, if◌then◌else◌, get_elem?, modify, length,
}
use sbu_os.Prelude.Int.{ℤ, decr}
use sbu_os.Pages.{PageEntry, PageTable, free_page_for_program}

-- `m_map`, as far as the clean-up reads it: its address and the index of its page entry.
pub record Mapping : Type 0 where
  pub address : ℕ
  pub phy_page : ℕ

-- `Process`. `id_wait_for` is an `int32_t`, kept as its bit pattern; `open_fd` holds the address of
-- the file table entry of each descriptor, 0 for none.
pub record Proc : Type 0 where
  pub id : ℕ
  pub parent : ℕ
  pub on_hold : Bool
  pub terminated : Bool
  pub cleaned : Bool
  pub first_map : List Mapping
  pub open_fd : List ℕ
  pub sig_pending : ℕ
  pub id_wait_for : ℕ
  pub id_wait_for_p : ℕ

abbrev pub Procs : Type 0
Procs = ℕ → Proc

abbrev pub update : Procs → ℕ → (Proc → Proc) → Procs
update procs p f q = if q == p then f (procs q) else procs q

-- The state that the functions share: `open_count` of each file table entry is in `open_counts`.
pub record Kernel : Type 0 where
  pub procs : Procs
  pub run_list : List ℕ
  pub current_process : ℕ
  pub previous_process : ℕ
  pub table : PageTable
  pub open_counts : ℕ → ℤ

-- `search_process`: the first process with the id, or 0.
pub search_from : Procs → List ℕ → (pid : ℕ) → ℕ
search_from procs [] pid = 0
search_from procs (c ∷ cs) pid =
    let rest = search_from procs cs pid in if (procs c).id == pid then c else rest

unfoldable pub search_process : Kernel → (pid : ℕ) → ℕ
unfolding search_from
search_process k pid = search_from k.procs k.run_list pid

-- `process_add_signal`: its loop over the list, and its result.
pub add_signal_from : Procs → List ℕ → (pid signal : ℕ) → Bool × Procs
add_signal_from procs [] pid signal = (false, procs)
add_signal_from procs (c ∷ cs) pid signal =
    let rest = add_signal_from procs cs pid signal in
    if (procs c).id == pid
    then (true, update procs c (λ r. record r { sig_pending = signal; on_hold = false }))
    else rest

unfoldable pub process_add_signal : Kernel → (pid signal : ℕ) → Bool × Kernel
unfolding add_signal_from
process_add_signal k pid signal =
    let (found, procs) = add_signal_from k.procs k.run_list pid signal in
    (found, record k { procs = procs })

-- -1 as an `int32_t`
abbrev pub any_child : ℕ
any_child = 2 ^ 32 - 1

-- The parent that waits for the process, or for any child, goes on.
unfoldable pub wake_parent : Procs → ℕ → Procs
wake_parent procs p =
    let parent = (procs p).parent in
    let waits_for = (procs parent).id_wait_for in
    if not (parent == 0) && (waits_for == (procs p).id || waits_for == any_child)
    then update procs parent (λ r. record r { on_hold = false; id_wait_for_p = p })
    else procs

-- The pages of the mappings are given up one after the other; `none` if that hangs.
unfoldable pub free_maps : List Mapping → PageTable → Option PageTable
free_maps [] t = some t
free_maps (m ∷ ms) t = elim (get_elem? t m.phy_page) [
  | none ↦ none
  | some page ↦ elim (free_page_for_program m.address page) [
    | none ↦ none
    | some freed ↦ free_maps ms (modify t m.phy_page (λ _. freed))
  ]
]

-- `file_close` on each open descriptor.
unfoldable pub close_files : List ℕ → (ℕ → ℤ) → ℕ → ℤ
close_files [] counts = counts
close_files (f ∷ fs) counts =
    close_files fs (if f == 0 then counts else (λ g. if g == f then decr (counts g) else counts g))

-- `process_cleanup`. The descriptors, the mappings and the strings are given back to the heap, but
-- the process keeps its pointers to them.
unfoldable pub process_cleanup : Kernel → ℕ → Option Kernel
process_cleanup k p =
    let procs = wake_parent k.procs p in
    elim (free_maps (procs p).first_map k.table) [
      | none ↦ none
      | some table ↦ some (record k {
        procs = update procs p (λ r. record r { cleaned = true });
        table = table;
        open_counts = close_files (procs p).open_fd k.open_counts;
      })
    ]

-- How a call of the scheduler ends: with a process to run, in an endless loop after a panic or in
-- the clean-up, in a read through NULL, or not within the fuel.
pub data Outcome : Type 0 where
  switched : Kernel → Outcome
  halted : Outcome
  null_read : Outcome
  out_of_fuel : Outcome

abbrev pub is_runnable : Proc → Bool
is_runnable r = not (r.on_hold || r.terminated)

-- `if(next->terminated && !next->cleaned)`: the kernel task TASK_PROC_CLEANUP.
unfoldable pub clean_if_needed : Kernel → ℕ → Option Kernel
clean_if_needed k p =
    if (k.procs p).terminated && not (k.procs p).cleaned then process_cleanup k p else some k

-- Behind the loop: the switch to `next`, unless that is on hold.
unfoldable pub settle : Kernel → ℕ → Outcome
settle k next =
    if (k.procs next).on_hold
    then halted
    else switched (record k { previous_process = k.current_process; current_process = next })

-- `next = next->next; if(!next) next = first_process;`
abbrev pub or_first : Kernel → List ℕ → List ℕ
or_first k [] = k.run_list
or_first k (p ∷ ps) = p ∷ ps

-- The loop of `process_schedule`, from the process that heads the list.
unfoldable pub schedule_loop : (fuel : ℕ) → Kernel → List ℕ → Outcome
schedule_loop zero k next = out_of_fuel
schedule_loop (suc fuel) k [] = if k.current_process == 0 then halted else null_read
schedule_loop (suc fuel) k (p ∷ ps) =
    let go_on : Outcome = elim (clean_if_needed k p) [
      | none ↦ halted
      | some k' ↦ schedule_loop fuel k' (or_first k' ps)
    ] in
    if p == k.current_process
    then settle k p
    else if is_runnable (k.procs p)
    then settle k p
    else go_on

-- `p->next` of a process in the list, as the rest of the list behind it.
unfoldable pub after : ℕ → List ℕ → List ℕ
after p [] = []
after p (q ∷ qs) = if q == p then qs else after p qs

-- `process_schedule`.
unfoldable pub process_schedule : (fuel : ℕ) → Kernel → Outcome
unfolding schedule_loop after clean_if_needed settle
process_schedule fuel k =
    schedule_loop fuel k (
      if k.current_process == 0
      then k.run_list
      else or_first k (after k.current_process k.run_list))
