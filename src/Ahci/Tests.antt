-- ===== src/Ahci/Tests.antt =====
-- A port whose registers hold still, and a task on it.
use sbu_os.Prelude.{ℕ, ◌^◌, ◌≡◌, refl, true, false, none}
use sbu_os.Disk.{failed, issued_at}
use sbu_os.Ahci.{
  Registers, Header, Table, Port, free_slot, wait_busy, find_slot, issue_task, ahci_read, wait_done,
  complete,
}
use sbu_os.Ahci.Issue.{Issued, issue_task-Issued}

-- The values of the registers.
record Still : Type 0 where
  sact : ℕ
  ci : ℕ
  tfd : ℕ
  is_rwc : ℕ

abbrev still : Registers Still
still = record {
  read_sact = λ h. (h.sact, h);
  read_ci = λ h. (h.ci, h);
  read_tfd = λ h. (h.tfd, h);
  read_is_rwc = λ h. (h.is_rwc, h);
  write_ci = λ h value. record h { ci = value };
  write_is_rwc = λ h value. record h { is_rwc = 0 };
}

abbrev no_command : Header
no_command = record { cfl = 0; w = false; c = false; prdtl = 8 }

abbrev no_table : Table
no_table = record {
  fis_type = 0;
  cfis_c = false;
  command = 0;
  device = 0;
  lba0 = 0;
  lba1 = 0;
  lba2 = 0;
  lba3 = 0;
  lba4 = 0;
  lba5 = 0;
  count = 0;
  dba = 0;
  dbc = 0;
  prdt_i = false;
}

-- Slots 0 and 2 are active, and slot 1 is issued.
abbrev port : (tfd : ℕ) → Port Still
port tfd = record {
  registers = record { sact = 5; ci = 2; tfd = tfd; is_rwc = 0 };
  cmds = λ k. no_command;
  cmdtbl = λ k. no_table;
}

-- The free slot, and its bit in `ci`.
task-answer : (issue_task still (port 0x50) false 7 4096).0 ≡ issued_at 3
unfolding issue_task find_slot free_slot wait_busy
task-answer = refl

task-ci : (issue_task still (port 0x50) false 7 4096).1.registers.ci ≡ 8
unfolding issue_task find_slot free_slot wait_busy
task-ci = refl

-- A port that is busy with an error fails.
task-fails : (issue_task still (port 0x81) true 7 4096).0 ≡ failed
unfolding issue_task find_slot free_slot wait_busy
task-fails = refl

-- Block 2 ^ 29 of 8 sectors is addressed as block 0: the upper half of the number is lost.
task-address : ((issue_task still (port 0x50) true (2 ^ 29) 4096).1.cmdtbl 3).lba4 ≡ 0
unfolding issue_task find_slot free_slot wait_busy
task-address = refl

read-fails : (ahci_read still 1 (port 0x50) 56 0 8 4096).0 ≡ none
unfolding ahci_read find_slot free_slot wait_busy complete wait_done
read-fails = refl

issue_task-Issued_example :
    Issued still
      (port 0x50)
      false
      7
      4096
      (issue_task still (port 0x50) false 7 4096).0
      (issue_task still (port 0x50) false 7 4096).1
issue_task-Issued_example = issue_task-Issued still (port 0x50) false 7 4096
