-- ===== src/Disk/Request.antt =====
-- A request for a block.
use sbu_os.Prelude.{
  ℕ, zero, suc, ◌≡◌, refl, ap, false, Option, none, some, [], ◌∷◌, ◌++◌, arith, get_elem?, modify,
}
use sbu_os.Pages.{PageTable, is_used, find_free_page_entry, set_used}
use sbu_os.Pages.Find.{IsFirstFree, find_free_page_entry-IsFirstFree}
use mathlib.Core.Path.{subst}
use sbu_os.Disk.{
  Answer, no_slot, failed, issued_at, Ahci, Task, Disk, base_at, read_reply, read_into,
  read_disk_block_req,
}

-- Marking a free entry and freeing it again changes nothing.
modify_undone :
    (t : PageTable) (i : ℕ)
    → is_used (get_elem? t i) ≡ false
    → modify (modify t i (set_used 2)) i (set_used 0) ≡ t
modify_undone [] i h = refl
modify_undone (e ∷ t) zero h =
    ap (λ u. record e { used_by = u } ∷ t) {x = 0} {y = e.used_by} (ground arith)
modify_undone (e ∷ t) (suc i) h = ap (λ f. e ∷ f) (modify_undone t i h)

first_free_is_free :
    (t : PageTable) (i : ℕ) → find_free_page_entry t ≡ some i → is_used (get_elem? t i) ≡ false
first_free_is_free t i e =
    let h = subst (IsFirstFree t) e (find_free_page_entry-IsFirstFree t) in h.0

-- How a request ends: with a page marked as a kernel page and one task for it behind the others, or
-- refused, with the queue and the pages as they were.
pub record Accepted {C : Type 0} (s : Disk C) (proc w_to : ℕ) (s' : Disk C) : Type 0 where
  pub was_free : is_used (get_elem? s.pages w_to) ≡ false
  pub marked : s'.pages ≡ modify s.pages w_to (set_used 2)
  pub task : Task
  pub queued : s'.tasks ≡ s.tasks ++ (task ∷ [])
  pub for_page : task.rw_to ≡ w_to
  pub for_proc : task.proc ≡ proc
  pub reads : task.is_write ≡ false

abbrev pub Requested : {C : Type 0} → Disk C → (proc : ℕ) → Option ℕ × Disk C → Type 0
Requested s proc (none, s') = (s'.tasks ≡ s.tasks) × (s'.pages ≡ s.pages)
Requested s proc (some w_to, s') = Accepted s proc w_to s'

module _ {C : Type 0} (ahci : Ahci C) (s : Disk C) (disk_i proc lba : ℕ) where
  read_into-Requested :
      (w_to : ℕ)
      → is_used (get_elem? s.pages w_to) ≡ false
      → Requested s proc (read_into ahci s disk_i proc lba w_to)
  unfolding read_into
  read_into-Requested w_to h =
      reply (ahci.ahci_task s.controller false disk_i lba (base_at s.pages w_to)).0
    where
      base : Disk C
      base = record s {
        pages = modify s.pages w_to (set_used 2);
        controller = (ahci.ahci_task s.controller false disk_i lba (base_at s.pages w_to)).1;
      }

      reply : (a : Answer) → Requested s proc (read_reply ahci base disk_i proc lba w_to a)
      reply no_slot = record {
        was_free = h;
        marked = refl;
        task = _;
        queued = refl;
        for_page = refl;
        for_proc = refl;
        reads = refl;
      }
      reply failed = (refl, modify_undone s.pages w_to h)
      reply (issued_at n) = record {
        was_free = h;
        marked = refl;
        task = _;
        queued = refl;
        for_page = refl;
        for_proc = refl;
        reads = refl;
      }

  -- A request to read, with a free page left, returns: a page that was free is marked as used by the
  -- kernel and there is one task for it and the process behind the others, or the request is refused,
  -- and the tasks and the pages are as before.
  pub read_disk_block_req-Requested :
      (i : ℕ)
      → find_free_page_entry s.pages ≡ some i
      → (out : Option ℕ × Disk C) × (read_disk_block_req ahci s disk_i proc lba ≡ some out)
        × Requested s proc out
  unfolding read_disk_block_req
  read_disk_block_req-Requested i e = (
    read_into ahci s disk_i proc lba i,
    rw e refl,
    read_into-Requested i (first_free_is_free s.pages i e),
  )
