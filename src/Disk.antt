-- ===== src/Disk.antt =====
-- sys/disk/disk_driver.c: the queue of the disk tasks, a linked list behind `dummy_task`. The disk
-- controller is behind the three functions of sys/ahci.c that the driver calls, which drive the
-- registers of the hardware; they are a parameter, with the state of the controller.
pub mod Queue
pub mod Request
mod Tests
use sbu_os.Prelude.{
  ℕ, ◌%◌, ◌^◌, Bool, true, false, not, ◌&&◌, Option, none, some, List, [], ◌∷◌, ◌++◌, ◌==◌,
  if◌then◌else◌, ◌>>=◌, get_elem?, modify,
}
use sbu_os.Pages.{PageEntry, PageTable, find_free_page_entry, set_used}
use sbu_os.Pipe.{Holds}

-- `op_info`: the result -1, 0, or 1 with a slot.
pub data Answer : Type 0 where
  no_slot : Answer
  failed : Answer
  issued_at : ℕ → Answer

-- `ahci_read_task`, or `ahci_write_task` if `is_write`; and `check_ahci_port`.
pub record Ahci (C : Type 0) : Type 0 where
  pub ahci_task : C → (is_write : Bool) → (disk_id lba base : ℕ) → Answer × C
  pub check_ahci_port : C → (disk_id slot : ℕ) → Bool × C

-- `disk_task`; `rw_to` is the index of the page entry.
pub record Task : Type 0 where
  pub disk_id : ℕ
  pub slot : ℕ
  pub lba : ℕ
  pub is_write : Bool
  pub issued : Bool
  pub rw_to : ℕ
  pub proc : ℕ

-- The tasks, the pages, `on_hold` and `terminated` of each process, and the controller.
pub record Disk (C : Type 0) : Type 0 where
  pub tasks : List Task
  pub pages : PageTable
  pub on_hold : Holds
  pub terminated : ℕ → Bool
  pub controller : C

-- `page->base`
abbrev pub base_at : PageTable → ℕ → ℕ
base_at t i = elim (get_elem? t i) [ none ↦ 0 | some e ↦ e.base ]

module _ {C : Type 0} (ahci : Ahci C) where
  -- Puts the task behind the last one.
  abbrev pub insert : Task → Disk C → Disk C
  insert t s = record s { tasks = s.tasks ++ (t ∷ []) }

  -- `read_disk_block_req` behind the answer, with the page `w_to`, and its result; 0 is `none`.
  unfoldable pub read_reply : Disk C → (disk_i proc lba w_to : ℕ) → Answer → Option ℕ × Disk C
  read_reply s disk_i proc lba w_to no_slot = (
    some w_to,
    insert
        (record {
          disk_id = disk_i;
          slot = 0;
          lba = lba;
          is_write = false;
          issued = false;
          rw_to = w_to;
          proc = proc;
        })
        s,
  )
  read_reply s disk_i proc lba w_to failed =
      (none, record s { pages = modify s.pages w_to (set_used 0) })
  read_reply s disk_i proc lba w_to (issued_at n) = (
    some w_to,
    insert
        (record {
          disk_id = disk_i;
          slot = n;
          lba = 0;
          is_write = false;
          issued = true;
          rw_to = w_to;
          proc = proc;
        })
        s,
  )

  -- `read_disk_block_req` behind its search.
  unfoldable pub read_into : Disk C → (disk_i proc lba w_to : ℕ) → Option ℕ × Disk C
  unfolding read_reply
  read_into s disk_i proc lba w_to =
      let (answer, c) = ahci.ahci_task s.controller false disk_i lba (base_at s.pages w_to) in
      read_reply (record s { pages = modify s.pages w_to (set_used 2); controller = c }) disk_i proc
        lba w_to answer

  -- `read_disk_block_req`; without a free page it reads through NULL, which is `none`.
  unfoldable pub read_disk_block_req : Disk C → (disk_i proc lba : ℕ) → Option (Option ℕ × Disk C)
  unfolding read_into
  read_disk_block_req s disk_i proc lba = do
    w_to ← find_free_page_entry s.pages
    some (read_into s disk_i proc lba w_to)

  -- `write_disk_block_req`, and its result as a Bool. `disk_i` is an `int` here, and `diskID` a byte.
  unfoldable pub write_disk_block_req : Disk C → (disk_i proc lba page : ℕ) → Bool × Disk C
  write_disk_block_req s disk_i proc lba page =
      let (answer, c) =
        ahci.ahci_task s.controller true (disk_i % 2 ^ 8) lba (base_at s.pages page) in
      let t = record s { controller = c } in
      elim answer [
        | no_slot ↦ (
          true,
          insert
              (record {
                disk_id = disk_i % 2 ^ 8;
                slot = 0;
                lba = lba;
                is_write = true;
                issued = false;
                rw_to = page;
                proc = proc;
              })
              t,
        )
        | failed ↦ (false, t)
        | issued_at n ↦ (
          true,
          insert
              (record {
                disk_id = disk_i % 2 ^ 8;
                slot = n;
                lba = 0;
                is_write = true;
                issued = true;
                rw_to = page;
                proc = proc;
              })
              t,
        )
      ]

  -- What `check_task` makes of the answer for a task that was not issued yet; the `assert` on a
  -- failed one never returns, which is `none`.
  unfoldable pub retried : Task → Answer → Option Task
  retried t no_slot = some t
  retried t failed = none
  retried t (issued_at n) = some (record t { issued = true; slot = n })

  -- `check_task`: whether the task is done, the task, and the new state.
  unfoldable pub check_task : Disk C → Task → Option (Bool × Task × Disk C)
  unfolding retried
  check_task s t =
      if not t.issued
      then (let (answer, c) =
            ahci.ahci_task s.controller t.is_write t.disk_id t.lba (base_at s.pages t.rw_to) in
          do u ← retried t answer; some (false, u, record s { controller = c }))
      else (let (done, c) = ahci.check_ahci_port s.controller t.disk_id t.slot in
          let wakes = done && not (s.terminated t.proc) in
          some (
            done,
            t,
            record s {
              controller = c;
              on_hold = λ q. if wakes && q == t.proc then false else s.on_hold q;
            },
          ))

  -- The loop of `check_disk_task`: the tasks that stay, and the new state.
  unfoldable pub check_tasks : Disk C → List Task → Option (List Task × Disk C)
  check_tasks s [] = some ([], s)
  check_tasks s (t ∷ ts) = do
    (done, u, s') ← check_task s t
    (us, s'') ← check_tasks s' ts
    some (if done then us else u ∷ us, s'')

  -- `check_disk_task`
  unfoldable pub check_disk_task : Disk C → Option (Disk C)
  unfolding check_tasks check_task
  check_disk_task s = do (us, s') ← check_tasks s s.tasks; some (record s' { tasks = us })
