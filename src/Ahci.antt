-- ===== src/Ahci.antt =====
-- sys/ahci.c, the commands that the kernel gives to a disk that exists. The registers of its port
-- belong to the hardware and change on their own: what a read of one gives, and what a write does, is
-- a parameter, with the state of the hardware. Messages, which read registers again, are left out.
pub mod Slot
pub mod Issue
mod Tests
use Prim.Native.Nat.{bit_or}
use sbu_os.Prelude.{
  ℕ, zero, suc, ◌+◌, ◌-◌, ◌*◌, ◌/◌, ◌%◌, ◌^◌, Bool, true, false, not, ◌&&◌, ◌||◌, Option, none,
  some, ◌==◌, if◌then◌else◌,
}
use sbu_os.Disk.{Ahci, Answer, no_slot, failed, issued_at}

-- `hba_port_t`: the registers that the code reads and writes.
pub record Registers (H : Type 0) : Type 0 where
  pub read_sact : H → ℕ × H
  pub read_ci : H → ℕ × H
  pub read_tfd : H → ℕ × H
  pub read_is_rwc : H → ℕ × H
  pub write_ci : H → (value : ℕ) → H
  pub write_is_rwc : H → (value : ℕ) → H

-- `hba_cmd_header_t`, as far as it is set.
pub record Header : Type 0 where
  pub cfl : ℕ
  pub w : Bool
  pub c : Bool
  pub prdtl : ℕ

-- `hba_cmd_tbl_t`: `cfis` as a `fis_reg_h2d_t`, with its bit `c`, and the first `prdt_entry`, with its
-- bit `i`; all other bytes are 0.
pub record Table : Type 0 where
  pub fis_type : ℕ
  pub cfis_c : Bool
  pub command : ℕ
  pub device : ℕ
  pub lba0 : ℕ
  pub lba1 : ℕ
  pub lba2 : ℕ
  pub lba3 : ℕ
  pub lba4 : ℕ
  pub lba5 : ℕ
  pub count : ℕ
  pub dba : ℕ
  pub dbc : ℕ
  pub prdt_i : Bool

-- A port, with its command headers and their tables, as `init_port` puts them together.
pub record Port (H : Type 0) : Type 0 where
  pub registers : H
  pub cmds : ℕ → Header
  pub cmdtbl : ℕ → Table

abbrev pub has_bit : (x n : ℕ) → Bool
has_bit x n = x / 2 ^ n % 2 == 1

-- The loop over the slots, with `left` of the 32 rounds to go.
unfoldable pub free_slot : (left slot i : ℕ) → Option ℕ
free_slot zero slot i = none
free_slot (suc left) slot i =
    let rest = free_slot left (slot / 2) (i + 1) in if slot % 2 == 0 then some i else rest

-- The header of a command. A write leaves `c` as it is.
abbrev pub set_header : (is_write : Bool) → Header → Header
set_header is_write h = record h {
  cfl = 5;
  w = is_write;
  c = if is_write then h.c else true;
  prdtl = 1;
}

-- ATA_CMD_WRITE_DMA_EX and ATA_CMD_READ_DMA_EX
abbrev pub ata_command : (is_write : Bool) → ℕ
ata_command is_write = if is_write then 0x35 else 0x25

-- The table of a command, with the conversions to the widths of its fields.
abbrev pub new_table : (is_write : Bool) → (startl starth sector_count buffer : ℕ) → Table
new_table is_write startl starth sector_count buffer = record {
  fis_type = 0x27;
  cfis_c = true;
  command = ata_command is_write;
  device = 64;
  lba0 = startl % 2 ^ 8;
  lba1 = startl / 2 ^ 8 % 2 ^ 8;
  lba2 = startl / 2 ^ 16 % 2 ^ 8;
  lba3 = startl / 2 ^ 24 % 2 ^ 8;
  lba4 = starth % 2 ^ 8;
  lba5 = starth / 2 ^ 8 % 2 ^ 8;
  count = sector_count % 2 ^ 16;
  dba = buffer;
  dbc = (sector_count * 512 + 2 ^ 32 - 1) % 2 ^ 22;
  prdt_i = true;
}

-- `tfd & (ATA_DEV_BUSY | ATA_DEV_DRQ)`, `tfd & ATA_DEV_ERR` and `is_rwc & HBA_PxIS_TFES`
abbrev pub is_busy : (tfd : ℕ) → Bool
is_busy tfd = has_bit tfd 7 || has_bit tfd 3

abbrev pub is_error : (tfd : ℕ) → Bool
is_error tfd = has_bit tfd 0

abbrev pub task_file_error : (is_rwc : ℕ) → Bool
task_file_error is_rwc = has_bit is_rwc 30

-- The command in a slot that was free.
abbrev pub fill_slot :
    {H : Type 0}
    → Port H
    → H
    → (slot : ℕ) → (is_write : Bool) → (startl starth sector_count buffer : ℕ) → Port H
fill_slot p h slot is_write startl starth sector_count buffer = record {
  registers = h;
  cmds = λ k. if k == slot then set_header is_write (p.cmds slot) else p.cmds k;
  cmdtbl =
      λ k. if k == slot then new_table is_write startl starth sector_count buffer else p.cmdtbl k;
}

-- The number of rounds that the wait for a task may take.
abbrev pub max_spin : ℕ
max_spin = 10000001

module _ {H : Type 0} (regs : Registers H) where
  -- The loop that waits for the port, with `left` rounds to go before it counts as hung.
  unfoldable pub wait_busy : (left : ℕ) → H → Bool × H
  wait_busy zero h =
      let (tfd, h1) = regs.read_tfd h in
      if is_busy tfd then (false, (regs.read_tfd h1).1) else (true, h1)
  wait_busy (suc left) h =
      let (tfd, h1) = regs.read_tfd h in
      let (again, h2) = regs.read_tfd h1 in
      elim (is_busy tfd) [
        | false ↦ (true, h1)
        | true ↦ elim (is_error again) [ true ↦ (false, h2) | false ↦ wait_busy left h2 ]
      ]

  -- The part up to the search: `is_rwc` is cleared, and `sact` and `ci` are read.
  unfoldable pub find_slot : H → Option ℕ × H
  unfolding free_slot
  find_slot h =
      let (sact, h1) = regs.read_sact (regs.write_is_rwc h (2 ^ 32 - 1)) in
      let (ci, h2) = regs.read_ci h1 in (free_slot 32 (bit_or sact ci) 0, h2)

  -- What `ahci_read_task` and `ahci_write_task` share: the command for 8 sectors, without waiting
  -- for its end. `lba_4k * 8` and its halves are words; the upper half is not moved down.
  unfoldable pub issue_task : Port H → (is_write : Bool) → (lba_4k buffer : ℕ) → Answer × Port H
  unfolding find_slot wait_busy
  issue_task p is_write lba_4k buffer =
      let lba = lba_4k * 8 % 2 ^ 64 in
      let startl = lba % 2 ^ 32 in
      let starth = lba / 2 ^ 32 * 2 ^ 32 % 2 ^ 32 in
      let (found, h) = find_slot p.registers in
      elim found [
        | none ↦ (no_slot, record p { registers = h })
        | some slot ↦
            let q = fill_slot p h slot is_write startl starth 8 buffer in
            let (ready, h') = wait_busy max_spin h in
            if ready
            then (issued_at slot, record q { registers = regs.write_ci h' (2 ^ slot) })
            else (failed, record q { registers = h' })
      ]

  unfoldable pub ahci_read_task : Port H → (lba_4k buffer : ℕ) → Answer × Port H
  unfolding issue_task
  ahci_read_task p lba_4k buffer = issue_task p false lba_4k buffer

  unfoldable pub ahci_write_task : Port H → (lba_4k buffer : ℕ) → Answer × Port H
  unfolding issue_task
  ahci_write_task p lba_4k buffer = issue_task p true lba_4k buffer

  -- `check_ahci_port`
  unfoldable pub check_ahci_port : Port H → (slot : ℕ) → Bool × Port H
  check_ahci_port p slot =
      let (is_rwc, h1) = regs.read_is_rwc p.registers in
      let (ci, h2) = regs.read_ci h1 in
      let (is_rwc', h3) = regs.read_is_rwc h2 in
      if task_file_error is_rwc
      then (false, record p { registers = h1 })
      else if has_bit ci slot
      then (false, record p { registers = h2 })
      else (not (task_file_error is_rwc'), record p { registers = h3 })

  -- The loop that waits for the end of a command; `none`: the fuel ran out.
  unfoldable pub wait_done : (fuel : ℕ) → H → (slot : ℕ) → Option Bool × H
  wait_done zero h slot = (none, h)
  wait_done (suc fuel) h slot =
      let (ci, h1) = regs.read_ci h in
      let (is_rwc, h2) = regs.read_is_rwc h1 in
      elim (has_bit ci slot) [
        | false ↦ (some true, h1)
        | true ↦ elim (task_file_error is_rwc) [
          | true ↦ (some false, h2)
          | false ↦ wait_done fuel h2 slot
        ]
      ]

  -- The end of `ahci_read` and `ahci_write`: the command goes out, and the port is read until it is
  -- done.
  unfoldable pub complete : (fuel : ℕ) → Port H → H → (slot : ℕ) → Option Bool × Port H
  unfolding wait_done
  complete fuel p h slot =
      let (done, h1) = wait_done fuel (regs.write_ci h (2 ^ slot)) slot in
      let (is_rwc, h2) = regs.read_is_rwc h1 in
      elim done [
        | none ↦ (none, record p { registers = h1 })
        | some false ↦ (some false, record p { registers = h1 })
        | some true ↦ (some (not (task_file_error is_rwc)), record p { registers = h2 })
      ]

  -- `ahci_read`; the result is `none` if the fuel ran out.
  unfoldable pub ahci_read :
      (fuel : ℕ) → Port H → (startl starth sector_count buffer : ℕ) → Option Bool × Port H
  unfolding find_slot wait_busy complete
  ahci_read fuel p startl starth sector_count buffer =
      let (found, h) = find_slot p.registers in
      elim found [
        | none ↦ (some false, record p { registers = h })
        | some slot ↦
            let q = fill_slot p h slot false startl starth sector_count buffer in
            let (ready, h') = wait_busy max_spin h in
            if ready then complete fuel q h' slot else (some false, record q { registers = h' })
      ]

  -- The loop of `ahci_write` that waits for the port, with no bound of its own.
  unfoldable pub wait_ready : (fuel : ℕ) → H → Option Bool × H
  wait_ready zero h = (none, h)
  wait_ready (suc fuel) h =
      let (tfd, h1) = regs.read_tfd h in
      let (again, h2) = regs.read_tfd h1 in
      elim (is_busy tfd) [
        | false ↦ (some true, h1)
        | true ↦ elim (is_error again) [ true ↦ (some false, h2) | false ↦ wait_ready fuel h2 ]
      ]

  -- `ahci_write`
  unfoldable pub ahci_write :
      (fuel : ℕ) → Port H → (startl starth sector_count buffer : ℕ) → Option Bool × Port H
  unfolding find_slot wait_ready complete
  ahci_write fuel p startl starth sector_count buffer =
      let (found, h) = find_slot p.registers in
      elim found [
        | none ↦ (some false, record p { registers = h })
        | some slot ↦
            let q = fill_slot p h slot true startl starth sector_count buffer in
            let (ready, h') = wait_ready fuel h in
            elim ready [
              | some true ↦ complete fuel q h' slot
              | some false ↦ (some false, record q { registers = h' })
              | none ↦ (none, record q { registers = h' })
            ]
      ]

-- The driver of the disks in the form that the queue of the disk tasks uses, on disks that exist.
abbrev pub driver : {H : Type 0} → Registers H → Ahci (ℕ → Port H)
driver regs = record {
  ahci_task = λ ports is_write disk_id lba base.
      let (answer, p) =
        if is_write
        then ahci_write_task regs (ports disk_id) lba base
        else ahci_read_task regs (ports disk_id) lba base in
      (answer, λ d. if d == disk_id then p else ports d);
  check_ahci_port = λ ports disk_id slot.
      let (done, p) = check_ahci_port regs (ports disk_id) slot in
      (done, λ d. if d == disk_id then p else ports d);
}
