-- ===== src/Syscall.antt =====
-- sys/idt.c, what the handler does for the current process: signals, the break of its heap, the wait
-- for a child, and a read from a pipe that may put it to sleep. `rax` of the caller is the result.
pub mod Signals
pub mod Heap
pub mod Read
pub mod Wait
pub mod ExecStack
mod Tests
use sbu_os.Prelude.{
  ℕ, zero, suc, ◌+◌, ◌-◌, ◌^◌, ◌%◌, Bool, true, false, not, ◌&&◌, ◌||◌, Option, none, some, List,
  [], ◌∷◌, ◌++◌, ltb, leb, ◌==◌, if◌then◌else◌, length,
}
use sbu_os.Prelude.Int.{ℤ, pos, negsuc}
use sbu_os.Pipe.{Pair, Holds, read}
use sbu_os.Process.{Proc, Procs, Kernel, update, any_child}

-- `handler_reg`: the words that the code names; `others` are all the rest.
pub record Regs : Type 0 where
  pub int_num : ℕ
  pub ret_rip : ℕ
  pub rdi : ℕ
  pub rax : ℕ
  pub others : List ℕ

-- The fields of `Process` for signals. `sig_saved_reg.int_num` is 0 outside a handler.
pub record Signalled : Type 0 where
  pub sig_pending : ℕ
  pub sig_handler : ℕ
  pub sig_saved_reg : Regs
  pub on_hold : Bool
  pub terminated : Bool

-- SIGKILL
abbrev pub sigkill : ℕ
sigkill = 9

-- The guard of `handle_sig_pending`.
abbrev pub can_deliver : Signalled → Bool
can_deliver s = not (s.sig_pending == 0) && s.sig_saved_reg.int_num == 0 && not (s.sig_handler == 0)

-- `handle_sig_pending`, with the registers to which the interrupt returns.
unfoldable pub handle_sig_pending : Signalled → Regs → Signalled × Regs
handle_sig_pending s reg =
    if can_deliver s
    then if s.sig_pending == sigkill
      then (record s { on_hold = true; terminated = true }, reg)
      else (
        record s { sig_saved_reg = reg; sig_pending = 0 },
        record reg { ret_rip = s.sig_handler; rdi = s.sig_pending },
      )
    else (s, reg)

-- sys_sig_return, with the call of `handle_sig_pending` at the end of every system call.
unfoldable pub sys_sig_return : Signalled → Regs → Signalled × Regs
sys_sig_return s reg =
    if s.sig_saved_reg.int_num == 0
    then handle_sig_pending s reg
    else handle_sig_pending (record s { sig_saved_reg = record s.sig_saved_reg { int_num = 0 } })
        s.sig_saved_reg

-- sys_signal on the process that was found, and sys_set_signal_handler.
unfoldable pub sys_signal : Signalled → (sig_num : ℕ) → Signalled
sys_signal s sig_num = record s { sig_pending = sig_num }

unfoldable pub sys_set_signal_handler : Signalled → (handler : ℕ) → Signalled
sys_set_signal_handler s handler = record s { sig_handler = handler }

-- The bounds of the heap of a process.
pub record HeapBounds : Type 0 where
  pub heap_start : ℕ
  pub heap_break : ℕ

-- sys_brk; -ENOMEM is -12.
unfoldable pub sys_brk : HeapBounds → (new_bp : ℕ) → ℤ × HeapBounds
sys_brk b new_bp =
    if new_bp == 0
    then (pos b.heap_break, b)
    else if ltb new_bp b.heap_start
    then (negsuc 11, b)
    else (pos 0, record b { heap_break = new_bp })

-- One round of the loop of sys_read on a pipe: `rax`, with the bytes, or the process sleeps.
pub data Tried : Type 0 where
  returns : (rax : ℕ) → (bytes : List ℕ) → Tried
  sleeps : Tried

-- `file_read`, and the waiter that is put behind the others.
unfoldable pub try_read : Pair → Holds → (current_process size : ℕ) → Tried × Pair × Holds
try_read p on_hold current_process size =
    let (result, p') = read p size in
    elim result [
      | none ↦ (returns 0 [], p', on_hold)
      | some [] ↦ (
        sleeps,
        record p' {
          output = record p'.output {
            first_waiters = p'.output.first_waiters ++ (current_process ∷ []);
          };
        },
        λ q. if q == current_process then true else on_hold q,
      )
      | some (b ∷ bytes) ↦ (returns (length (b ∷ bytes)) (b ∷ bytes), p', on_hold)
    ]

-- What sys_read does once the process runs again: a signal ends the call with 0.
unfoldable pub woken_read :
    Pair → Holds → (current_process size sig_pending : ℕ) → Tried × Pair × Holds
unfolding try_read
woken_read p on_hold current_process size sig_pending =
    if sig_pending == 0 then try_read p on_hold current_process size else (returns 0 [], p, on_hold)

-- `target_pre->next`: the first process that the call means, with its place in the list.
unfoldable pub find_target : Procs → List ℕ → (pid current_process place : ℕ) → Option (ℕ × ℕ)
find_target procs [] pid current_process place = none
find_target procs (c ∷ cs) pid current_process place =
    let rest = find_target procs cs pid current_process (place + 1) in
    if (procs c).id == pid || pid == any_child && (procs c).parent == current_process
    then some (place, c)
    else rest

-- What the assignment of `proc_c->next->next` to `proc_c->next` makes of the list behind a process.
unfoldable pub remove_behind : ℕ → List ℕ → List ℕ
remove_behind p [] = []
remove_behind p (c ∷ cs) = let rest = remove_behind p cs in if c == p then cs else c ∷ rest

-- The loop from `dummy` on. If the head of the list is the process, only `dummy.next` changes, and
-- `first_process`, which is the list, stays.
unfoldable pub remove_process : ℕ → List ℕ → List ℕ
unfolding remove_behind
remove_process p [] = []
remove_process p (c ∷ cs) = if c == p then c ∷ cs else c ∷ remove_behind p cs

-- The list without what stands at a place.
abbrev pub remove_place : (place : ℕ) → List ℕ → List ℕ
remove_place place [] = []
remove_place zero (c ∷ cs) = cs
remove_place (suc place) (c ∷ cs) = c ∷ remove_place place cs

-- How sys_wait goes on: -EINVAL, the target with its status, or a wait for the target.
pub data Waiting : Type 0 where
  invalid : Waiting
  reaped : (target : ℕ) → Waiting
  waits_for : (target : ℕ) → Waiting

-- sys_wait up to its first switch to another process; `pid` is an `int32_t`, as its bit pattern.
unfoldable pub sys_wait : Kernel → (pid : ℕ) → Waiting × Kernel
unfolding find_target
sys_wait k pid = elim (find_target k.procs k.run_list pid k.current_process 0) [
  | none ↦ (invalid, k)
  | some (place, target) ↦
      if (k.procs target).terminated
      then (
        reaped target,
        record k { run_list = if place == 0 then [] else remove_place place k.run_list },
      )
      else (
        waits_for target,
        record k {
          procs =
              update k.procs k.current_process
                (λ r. record r { id_wait_for = pid; on_hold = true; id_wait_for_p = 0 });
        },
      )
]

-- A round of the loop of sys_wait: the call ends, its `assert` fails, or the process waits again.
pub data Woken : Type 0 where
  ends : Kernel → Woken
  assert_fails : Woken
  waits_on : Kernel → Woken

-- The process waits, in the loop of sys_wait.
abbrev pub waiting : Kernel → (pid : ℕ) → Kernel
waiting k pid = record k {
  procs =
      update k.procs k.current_process
        (λ r. record r { id_wait_for = pid; on_hold = true; id_wait_for_p = 0 });
}

-- sys_wait once the process runs again.
unfoldable pub woken_wait : Kernel → (pid target : ℕ) → Woken
unfolding remove_process
woken_wait k pid target =
    let id_wait_for_p = (k.procs k.current_process).id_wait_for_p in
    if id_wait_for_p == 0
    then waits_on (waiting k pid)
    else if id_wait_for_p == target
    then ends (record k { run_list = remove_process target k.run_list })
    else assert_fails
