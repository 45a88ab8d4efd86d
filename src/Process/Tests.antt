-- ===== src/Process/Tests.antt =====
-- The scheduler and the clean-up at work, and the theorems at concrete processes.
use sbu_os.Prelude.{
  ℕ, zero, suc, some_inj, ◌≡◌, refl, Bool, true, false, List, [], ◌∷◌, arith, ◌==◌, if◌then◌else◌,
}
use mathlib.Core.Path.{subst}
use sbu_os.Prelude.Int.{pos}
use sbu_os.Pages.{PageTable, free_page_for_program}
use sbu_os.Pages.Use.{IsValid}
use sbu_os.Process.{
  Mapping, Proc, Procs, Kernel, Outcome, switched, update, process_cleanup, wake_parent, free_maps,
  close_files, process_schedule,
}
use sbu_os.Process.Scan.{IsSwitch, process_schedule-IsSwitch}
use sbu_os.Process.Cleanup.{TableValid, CleanedUp, process_cleanup-CleanedUp}

abbrev proc : (id parent : ℕ) → (on_hold terminated : Bool) → List Mapping → Proc
proc id parent on_hold terminated maps = record {
  id = id;
  parent = parent;
  on_hold = on_hold;
  terminated = terminated;
  cleaned = false;
  first_map = maps;
  open_fd = 0 ∷ [];
  sig_pending = 0;
  id_wait_for = 12;
  id_wait_for_p = 0;
}

-- At address 100 the shell waits for process 12; at 200 that has terminated, with one page; at 300
-- another process can run.
abbrev procs : Procs
procs p =
    if p == 100
    then proc 10 0 true false []
    else if p == 200
    then proc 12 100 false true (record { address = 81; phy_page = 0 } ∷ [])
    else proc 13 100 false false []

abbrev table : PageTable
table = record { base = 0x400000; used_by = 3; use_record = 81 ∷ [] } ∷ []

abbrev kernel : Kernel
kernel = record {
  procs = procs;
  run_list = 100 ∷ 200 ∷ 300 ∷ [];
  current_process = 100;
  previous_process = 0;
  table = table;
  open_counts = λ _. pos 1;
}

abbrev current_of : Outcome → ℕ
current_of (switched k) = k.current_process
current_of _ = 0

-- The dead child is cleaned up on the way, and the next process is chosen.
schedules : current_of (process_schedule 3 kernel) ≡ 300
unfolding process_schedule process_cleanup wake_parent free_maps free_page_for_program close_files
schedules = refl

process_schedule-IsSwitch_example : IsSwitch kernel (process_schedule 3 kernel)
process_schedule-IsSwitch_example =
    process_schedule-IsSwitch 3 kernel [] (200 ∷ 300 ∷ []) (omega arith) refl refl refl
      (omega arith)

entry-IsValid : IsValid (record { base = 0x400000; used_by = 3; use_record = 81 ∷ [] })
entry-IsValid = record { shared = λ e h. cc; distinct = (refl, tt) }

table-TableValid : TableValid table
table-TableValid zero page e = subst IsValid (some_inj e) entry-IsValid
table-TableValid (suc i) page e = absurd (cc)

process_cleanup-CleanedUp_example : CleanedUp kernel 200 (record kernel {
  procs =
      update
        (update procs 100 (λ r. record r { on_hold = false; id_wait_for_p = 200 }))
        200
        (λ r. record r { cleaned = true });
  table = record { base = 0x400000; used_by = 0; use_record = 81 ∷ [] } ∷ [];
})
process_cleanup-CleanedUp_example =
    process_cleanup-CleanedUp kernel _ 200 table-TableValid
      (unfold process_cleanup wake_parent free_maps free_page_for_program close_files in refl)
