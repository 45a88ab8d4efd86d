-- ===== src/Disk/Tests.antt =====
-- Tests and examples for the disk tasks.
use sbu_os.Prelude.{
  ℕ, ◌+◌, ◌≡◌, refl, Bool, true, false, none, some, ◌⊎◌, [], ◌∷◌, leb, ◌==◌, if◌then◌else◌,
}
use sbu_os.Pages.{find_free_page_entry}
use sbu_os.Disk.{no_slot, issued_at, Ahci, Task, Disk, retried, check_disk_task}
use sbu_os.Disk.Queue.{Passed, Stopped, check_disk_task-Passed}

-- A controller with 32 slots, given out one after the other; each command is done when asked for.
abbrev controller : Ahci ℕ
controller = record {
  ahci_task =
      λ c is_write disk_id lba base. if leb 32 c then (no_slot, c) else (issued_at c, c + 1);
  check_ahci_port = λ c disk_id slot. (true, c);
}

abbrev task : Bool → ℕ → Task
task issued proc = record {
  disk_id = 0;
  slot = 0;
  lba = 7;
  is_write = false;
  issued = issued;
  rw_to = 1;
  proc = proc;
}

-- Two tasks, the first one issued, and a free page behind a used one.
abbrev disk : Disk ℕ
disk = record {
  tasks = task true 40 ∷ task false 50 ∷ [];
  pages =
      record { base = 4096; used_by = 2; use_record = [] }
      ∷ record { base = 8192; used_by = 0; use_record = [] }
      ∷ [];
  on_hold = λ q. true;
  terminated = λ q. false;
  controller = 3;
}

-- The first task is done, and the second one is issued.
one_pass :
    check_disk_task controller disk
    ≡ some (record disk {
      tasks = record (task false 50) { issued = true; slot = 3 } ∷ [];
      on_hold = λ q. if q == 40 then false else true;
      controller = 4;
    })
unfolding check_disk_task retried
one_pass = refl

check_disk_task-Passed_example :
    ((s' : Disk ℕ) × (check_disk_task controller disk ≡ some s')
      × Passed controller disk disk.tasks s'.tasks s')
    ⊎ ((check_disk_task controller disk ≡ none)
        × Stopped controller disk.pages disk.controller disk.tasks)
check_disk_task-Passed_example = check_disk_task-Passed controller disk

free_page : find_free_page_entry disk.pages ≡ some 1
unfolding find_free_page_entry
free_page = refl
