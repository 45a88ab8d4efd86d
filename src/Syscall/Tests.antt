-- ===== src/Syscall/Tests.antt =====
-- The calls at work, and the theorems at concrete processes.
use sbu_os.Prelude.{
  ℕ, ◌+◌, ◌≡◌, refl, Bool, true, false, List, [], ◌∷◌, arith, ◌==◌, if◌then◌else◌, replicate,
  length-replicate,
}
use sbu_os.Prelude.Int.{pos}
use sbu_os.Pipe.{FileEntry, Pair, Holds, read, write}
use sbu_os.Pipe.Inv.{IsValid, window}
use sbu_os.Process.{
  Proc, Procs, Kernel, update, any_child, wake_parent, free_maps, close_files, process_cleanup,
}
use sbu_os.Syscall.{
  Regs, Signalled, sigkill, handle_sig_pending, sys_sig_return, sys_signal, Tried, returns, sleeps,
  try_read, woken_read, find_target, reaped, sys_wait, ends, assert_fails, woken_wait,
}
use sbu_os.Syscall.Signals.{
  Steps, here, next, tick, signal, runs, Resumed, sys_sig_return-handle_sig_pending,
}
use sbu_os.Syscall.Read.{woken_read-write}
use sbu_os.Syscall.ExecStack.{
  initial_stack, relocate, relocate_loops, text_bytes, pointers, arguments, arguments-initial_stack,
}
use sbu_os.Syscall.Wait.{Taken, sys_wait-process_cleanup, sys_wait_other_child}

abbrev no_regs : Regs
no_regs = record { int_num = 0; ret_rip = 0; rdi = 0; rax = 0; others = [] }

abbrev user_regs : Regs
user_regs = record { int_num = 32; ret_rip = 500; rdi = 1; rax = 2; others = 3 ∷ [] }

-- Signal 2 is pending, and the handler is at 900.
abbrev pending : Signalled
pending = record {
  sig_pending = 2;
  sig_handler = 900;
  sig_saved_reg = no_regs;
  on_hold = false;
  terminated = false;
}

-- In the handler: SIGKILL comes, a tick passes, and the process changes its registers.
in_handler :
    Steps
      (handle_sig_pending pending user_regs).0
      (handle_sig_pending pending user_regs).1
      (sys_signal (handle_sig_pending pending user_regs).0 sigkill)
      no_regs
unfolding handle_sig_pending sys_signal
in_handler =
    next
      (signal (handle_sig_pending pending user_regs).0 (handle_sig_pending pending user_regs).1
        sigkill)
      (next
        (tick (sys_signal (handle_sig_pending pending user_regs).0 sigkill)
          (handle_sig_pending pending user_regs).1)
        (next
          (runs (sys_signal (handle_sig_pending pending user_regs).0 sigkill)
            (handle_sig_pending pending user_regs).1 no_regs)
          (here (sys_signal (handle_sig_pending pending user_regs).0 sigkill) no_regs)))

sys_sig_return-handle_sig_pending_example :
    ((handle_sig_pending pending user_regs).1.ret_rip ≡ 900)
    × ((handle_sig_pending pending user_regs).1.rdi ≡ 2)
    × ((handle_sig_pending pending user_regs).0.sig_pending ≡ 0)
    × Resumed
        (sys_signal (handle_sig_pending pending user_regs).0 sigkill)
        user_regs
        (sys_sig_return (sys_signal (handle_sig_pending pending user_regs).0 sigkill) no_regs).0
        (sys_sig_return (sys_signal (handle_sig_pending pending user_regs).0 sigkill) no_regs).1
sys_sig_return-handle_sig_pending_example =
    sys_sig_return-handle_sig_pending pending
      (sys_signal (handle_sig_pending pending user_regs).0 sigkill) user_regs no_regs (ground arith)
      (ground arith) (ground arith) refl (ground arith) in_handler

-- An empty pipe, on which process 7 waits; process 8 then reads from it.
abbrev ring : FileEntry
ring = record {
  io_type = 2;
  buffer = replicate 2048 0;
  buffer_c_c = 5;
  buffer_p_c = 6;
  open_count = pos 1;
  first_waiters = 7 ∷ [];
}

abbrev pipe : Pair
pipe = record { input = ring; output = ring }

abbrev awake : Holds
awake _ = false

ring-IsValid : IsValid ring
ring-IsValid = record {
  storage = length-replicate {A = ℕ} 2048 0;
  consumer_in = omega arith;
  producer_in = omega arith;
}

abbrev tried : Tried × Pair × Holds
unfolding try_read read
tried = try_read pipe awake 8 2

abbrev wrote : ℕ × Pair × Holds
unfolding write
wrote = write tried.1 tried.2 (65 ∷ 66 ∷ 67 ∷ [])

woken_read-write_example :
    (tried.0 ≡ sleeps)
    × (tried.2 8 ≡ true)
    × (wrote.0 ≡ 3)
    × (wrote.2 8 ≡ false)
    × ((woken_read wrote.1 wrote.2 8 2 0).0 ≡ returns 2 (65 ∷ 66 ∷ []))
unfolding window try_read tried write
woken_read-write_example =
    woken_read-write pipe tried.1 wrote.1 awake tried.2 wrote.2 8 1 65 3 (66 ∷ 67 ∷ []) sleeps
      ring-IsValid refl refl (omega arith) (omega arith) refl refl (ground arith)

-- The shell at 100 has the children at 200, which runs, and at 300; 200 is process 12.
abbrev proc : (id parent : ℕ) → (terminated : Bool) → Proc
proc id parent terminated = record {
  id = id;
  parent = parent;
  on_hold = false;
  terminated = terminated;
  cleaned = false;
  first_map = [];
  open_fd = [];
  sig_pending = 0;
  id_wait_for = 0;
  id_wait_for_p = 0;
}

abbrev procs : Procs
procs p =
    if p == 100 then proc 10 0 false else if p == 200 then proc 12 100 false else proc 13 100 true

abbrev kernel : (run_list : List ℕ) → Kernel
kernel run_list = record {
  procs = procs;
  run_list = run_list;
  current_process = 100;
  previous_process = 0;
  table = [];
  open_counts = λ _. pos 0;
}

-- A wait for the process at the head of the list takes all processes out of it.
sys_wait_clears : sys_wait (kernel (300 ∷ 100 ∷ 200 ∷ [])) 13 ≡ (reaped 300, kernel [])
unfolding sys_wait find_target
sys_wait_clears = refl

-- The kernel after the clean-up of a child while the shell waits for `pid`.
abbrev cleaned_up : (pid c : ℕ) → Kernel
cleaned_up pid c = record (kernel (100 ∷ 200 ∷ 300 ∷ [])) {
  procs =
      update
        (update
          (update procs 100
            (λ r. record r { id_wait_for = pid; on_hold = true; id_wait_for_p = 0 }))
          100 (λ r. record r { on_hold = false; id_wait_for_p = c }))
        c (λ r. record r { cleaned = true });
}

sys_wait-process_cleanup_example :
    (((sys_wait (kernel (100 ∷ 200 ∷ 300 ∷ [])) 12).1.procs 100).on_hold ≡ true)
    × (((cleaned_up 12 200).procs 100).on_hold ≡ false)
    × (list : List ℕ) × (woken_wait (cleaned_up 12 200) 12 200
        ≡ ends (record (cleaned_up 12 200) { run_list = list }))
    × Taken 200 (100 ∷ 200 ∷ 300 ∷ []) list
unfolding sys_wait find_target process_cleanup wake_parent free_maps close_files
sys_wait-process_cleanup_example =
    sys_wait-process_cleanup (kernel (100 ∷ 200 ∷ 300 ∷ [])) (cleaned_up 12 200) 12 200
      (omega arith) (omega arith) (omega arith) refl refl refl

sys_wait_other_child_example :
    (((cleaned_up any_child 300).procs 100).on_hold ≡ false)
    × (woken_wait (cleaned_up any_child 300) any_child 200 ≡ assert_fails)
unfolding sys_wait find_target process_cleanup wake_parent free_maps close_files
sys_wait_other_child_example =
    sys_wait_other_child (kernel (100 ∷ 200 ∷ 300 ∷ [])) (cleaned_up any_child 300) 200 300
      (omega arith) (omega arith) (omega arith) refl (omega arith) refl refl

-- "ls -a" with one entry in the environment; the bytes of the texts start behind 6 words.
arguments-initial_stack_example :
    arguments (4096 + 48) (
      relocate 4096
        (initial_stack ((b'l' ∷ b's' ∷ []) ∷ (b'-' ∷ b'a' ∷ []) ∷ []) ((b'X' ∷ []) ∷ [])))
    ≡ (2, (b'l' ∷ b's' ∷ []) ∷ (b'-' ∷ b'a' ∷ []) ∷ [], (b'X' ∷ []) ∷ [])
unfolding text_bytes
arguments-initial_stack_example =
    arguments-initial_stack 4096 ((b'l' ∷ b's' ∷ []) ∷ (b'-' ∷ b'a' ∷ []) ∷ []) ((b'X' ∷ []) ∷ [])
      ((refl, (refl, tt)), ((refl, (refl, tt)), tt)) ((refl, tt), tt) (omega arith)

pointers_at :
    (relocate 4096 (initial_stack ((b'l' ∷ b's' ∷ []) ∷ []) [])).pointer_words
    ≡ 1 ∷ (4096 + 32) ∷ 0 ∷ 0 ∷ []
unfolding relocate relocate_loops initial_stack pointers text_bytes
pointers_at = refl
