-- ===== src/Ahci/Issue.antt =====
-- What the tasks of a disk do to its port.
use Prim.Native.Nat.{bit_or}
use mathlib.Core.Path.{subst}
use sbu_os.Prelude.{
  ℕ, zero, suc, ◌-◌, ◌*◌, ◌/◌, ◌%◌, ◌^◌, ◌<◌, ◌≡◌, ◌≢◌, refl, sym, ◌∙◌, inl, inr, Bool, true, false,
  Option, none, some, arith, ◌==◌, if◌then◌else◌, Bool-cases,
}
use sbu_os.Disk.{Answer, no_slot, failed, issued_at}
use sbu_os.Ahci.{
  Registers, Port, free_slot, is_busy, is_error, wait_busy, find_slot, fill_slot, max_spin,
  issue_task,
}
use sbu_os.Ahci.Slot.{is_taken, Found, full, lowest, find-Found, fis_lba, fis_lba-new_table}

-- The command stands in the slot, for 8 sectors of the disk and the page; its address keeps only the
-- lower 32 bits of that of the first sector. The other slots are as before.
pub record Filled {H : Type 0} (p q : Port H) (slot : ℕ) (is_write : Bool) (lba_4k buffer : ℕ)
    : Type 0 where
  pub writes : (q.cmds slot).w ≡ is_write
  pub header :
      ((q.cmds slot).cfl ≡ 5)
      × ((q.cmds slot).prdtl ≡ 1)
      × ((q.cmds slot).c ≡ (if is_write then (p.cmds slot).c else true))
  pub fis :
      ((q.cmdtbl slot).fis_type ≡ 0x27)
      × ((q.cmdtbl slot).cfis_c ≡ true)
      × ((q.cmdtbl slot).device ≡ 64)
      × ((q.cmdtbl slot).prdt_i ≡ true)
  pub command : (q.cmdtbl slot).command ≡ (if is_write then 0x35 else 0x25)
  pub address : fis_lba (q.cmdtbl slot) ≡ lba_4k * 8 % 2 ^ 32
  pub sectors : (q.cmdtbl slot).count ≡ 8
  pub memory : ((q.cmdtbl slot).dba ≡ buffer) × ((q.cmdtbl slot).dbc ≡ 4095)
  pub others : (k : ℕ) → k ≢ slot → (q.cmds k ≡ p.cmds k) × (q.cmdtbl k ≡ p.cmdtbl k)

fill_slot-Filled :
    {H : Type 0} (p : Port H) (h h' : H) (slot : ℕ) (is_write : Bool) (lba_4k buffer : ℕ)
    → Filled p
        (record (fill_slot p h slot is_write
          (lba_4k * 8 % 2 ^ 64 % 2 ^ 32)
          (lba_4k * 8 % 2 ^ 64 / 2 ^ 32 * 2 ^ 32 % 2 ^ 32)
          8
          buffer) { registers = h' })
        slot
        is_write
        lba_4k
        buffer
fill_slot-Filled p h h' slot is_write lba_4k buffer =
    let here : (slot == slot) ≡ true = ground arith in
    record {
      writes = rw here refl;
      header = (rw here refl, rw here refl, rw here refl);
      fis = (rw here refl, rw here refl, rw here refl, rw here refl);
      command = rw here refl;
      address = rw here (
          fis_lba-new_table is_write (lba_4k * 8 % 2 ^ 64 % 2 ^ 32)
            (lba_4k * 8 % 2 ^ 64 / 2 ^ 32 * 2 ^ 32 % 2 ^ 32) 8 buffer (omega arith) (omega arith)
          ∙ omega arith);
      sectors = rw here refl;
      memory = (rw here refl, rw here refl);
      others =
          λ k ne. let there : (k == slot) ≡ false = ground arith in (rw there refl, rw there refl);
    }

module _ {H : Type 0} (regs : Registers H) where
  module _ (left : ℕ) (h : H) where
    wait_busy-stops :
        is_busy (regs.read_tfd h).0 ≡ false
        → wait_busy regs (suc left) h ≡ (true, (regs.read_tfd h).1)
    unfolding wait_busy
    wait_busy-stops e = rw (wait_busy, e) refl

    wait_busy-fails :
        is_busy (regs.read_tfd h).0 ≡ true
        → is_error (regs.read_tfd (regs.read_tfd h).1).0 ≡ true
        → wait_busy regs (suc left) h ≡ (false, (regs.read_tfd (regs.read_tfd h).1).1)
    unfolding wait_busy
    wait_busy-fails e e' = rw (wait_busy, e, e') refl

    wait_busy-goes_on :
        is_busy (regs.read_tfd h).0 ≡ true
        → is_error (regs.read_tfd (regs.read_tfd h).1).0 ≡ false
        → wait_busy regs (suc left) h ≡ wait_busy regs left (regs.read_tfd (regs.read_tfd h).1).1
    unfolding wait_busy
    wait_busy-goes_on e e' = rw (wait_busy, e, e') refl

  -- How a wait ends: with a read that says that the port is free, with one that says that there is an
  -- error, or in the last round.
  pub data Waited : (left : ℕ) → H → (r : Bool × H) → Type 0 where
    ready :
        (left : ℕ) (h : H)
        → is_busy (regs.read_tfd h).0 ≡ false
        → Waited left h (true, (regs.read_tfd h).1)
    broken :
        (left : ℕ) (h : H)
        → is_busy (regs.read_tfd h).0 ≡ true
        → is_error (regs.read_tfd (regs.read_tfd h).1).0 ≡ true
        → Waited left h (false, (regs.read_tfd (regs.read_tfd h).1).1)
    hung :
        (h : H)
        → is_busy (regs.read_tfd h).0 ≡ true
        → Waited zero h (false, (regs.read_tfd (regs.read_tfd h).1).1)
    again :
        (left : ℕ) (h : H) (r : Bool × H)
        → is_busy (regs.read_tfd h).0 ≡ true
        → is_error (regs.read_tfd (regs.read_tfd h).1).0 ≡ false
        → Waited left (regs.read_tfd (regs.read_tfd h).1).1 r
        → Waited (suc left) h r

  zero_case : (h : H) → Waited zero h (wait_busy regs zero h)
  unfolding wait_busy
  zero_case h = elim (Bool-cases (is_busy (regs.read_tfd h).0)) [
    | inl busy ↦ rw (wait_busy, busy) (hung h busy)
    | inr free ↦ rw (wait_busy, free) (ready zero h free)
  ]

  wait_busy-Waited : (left : ℕ) (h : H) → Waited left h (wait_busy regs left h)
  wait_busy-Waited zero h = zero_case h
  wait_busy-Waited (suc left) h = elim (Bool-cases (is_busy (regs.read_tfd h).0)) [
    | inr free ↦
        subst (Waited (suc left) h) (sym (wait_busy-stops left h free)) (ready (suc left) h free)
    | inl busy ↦ elim (Bool-cases (is_error (regs.read_tfd (regs.read_tfd h).1).0)) [
      | inl error ↦
          subst (Waited (suc left) h) (sym (wait_busy-fails left h busy error))
            (broken (suc left) h busy error)
      | inr fine ↦
          let h2 = (regs.read_tfd (regs.read_tfd h).1).1 in
          subst (Waited (suc left) h) (sym (wait_busy-goes_on left h busy fine))
            (again left h (wait_busy regs left h2) busy fine (wait_busy-Waited left h2))
    ]
  ]

  -- `sact` and `ci` as the search reads them.
  abbrev pub sact_at : H → ℕ
  sact_at h = (regs.read_sact (regs.write_is_rwc h (2 ^ 32 - 1))).0

  abbrev pub ci_at : H → ℕ
  ci_at h = (regs.read_ci (regs.read_sact (regs.write_is_rwc h (2 ^ 32 - 1))).1).0

  -- The state of the registers behind the search.
  abbrev pub searched : H → H
  searched h = (regs.read_ci (regs.read_sact (regs.write_is_rwc h (2 ^ 32 - 1))).1).1

  -- What becomes of a task, on all branches, with the state that the hardware is left in.
  pub data Issued (p : Port H) (is_write : Bool) (lba_4k buffer : ℕ)
      : Answer → Port H → Type 0 where
    all_taken :
        (q : Port H)
        → ((n : ℕ) → n < 32 → is_taken (sact_at p.registers) (ci_at p.registers) n ≡ true)
        → (q.cmds ≡ p.cmds)
        → (q.cmdtbl ≡ p.cmdtbl)
        → (q.registers ≡ searched p.registers)
        → Issued p is_write lba_4k buffer no_slot q
    sent :
        (slot : ℕ) (q : Port H) (h' : H)
        → slot < 32
        → is_taken (sact_at p.registers) (ci_at p.registers) slot ≡ false
        → ((n : ℕ) → n < slot → is_taken (sact_at p.registers) (ci_at p.registers) n ≡ true)
        → Waited max_spin (searched p.registers) (true, h')
        → Filled p q slot is_write lba_4k buffer
        → (q.registers ≡ regs.write_ci h' (2 ^ slot))
        → Issued p is_write lba_4k buffer (issued_at slot) q
    not_ready :
        (slot : ℕ) (q : Port H) (h' : H)
        → slot < 32
        → is_taken (sact_at p.registers) (ci_at p.registers) slot ≡ false
        → ((n : ℕ) → n < slot → is_taken (sact_at p.registers) (ci_at p.registers) n ≡ true)
        → Waited max_spin (searched p.registers) (false, h')
        → Filled p q slot is_write lba_4k buffer
        → (q.registers ≡ h')
        → Issued p is_write lba_4k buffer failed q

  issue_found :
      (p : Port H) (is_write : Bool) (lba_4k buffer : ℕ) (o : Option ℕ)
      → free_slot 32 (bit_or (sact_at p.registers) (ci_at p.registers)) 0 ≡ o
      → Found (sact_at p.registers) (ci_at p.registers) 32 o
      → Issued p is_write lba_4k buffer
          (issue_task regs p is_write lba_4k buffer).0
          (issue_task regs p is_write lba_4k buffer).1
  unfolding issue_task find_slot
  issue_found p is_write lba_4k buffer none e (full all) =
      rw (issue_task, e)
        (all_taken
          (record p {
            registers =
                (regs.read_ci (regs.read_sact (regs.write_is_rwc p.registers (2 ^ 32 - 1))).1).1;
          })
          all refl refl refl)
  issue_found p is_write lba_4k buffer (some slot) e (lowest k less free all) =
      let h = (regs.read_ci (regs.read_sact (regs.write_is_rwc p.registers (2 ^ 32 - 1))).1).1 in
      let waited = wait_busy-Waited max_spin h in
      let h' = (wait_busy regs max_spin h).1 in
      let startl = lba_4k * 8 % 2 ^ 64 % 2 ^ 32 in
      let starth = lba_4k * 8 % 2 ^ 64 / 2 ^ 32 * 2 ^ 32 % 2 ^ 32 in
      let q : Port H = fill_slot p h slot is_write startl starth 8 buffer in
      elim (Bool-cases (wait_busy regs max_spin h).0) [
        | inl ready' ↦
            rw (issue_task, e, ready')
              (sent slot (record q { registers = regs.write_ci h' (2 ^ slot) }) h' less free all
                (subst (λ b. Waited max_spin h (b, h')) ready' waited)
                (fill_slot-Filled p h (regs.write_ci h' (2 ^ slot)) slot is_write lba_4k buffer)
                refl)
        | inr busy' ↦
            rw (issue_task, e, busy')
              (not_ready slot (record q { registers = h' }) h' less free all
                (subst (λ b. Waited max_spin h (b, h')) busy' waited)
                (fill_slot-Filled p h h' slot is_write lba_4k buffer) refl)
      ]

  -- A task for a disk ends. If every slot is taken in `sact` or `ci`, it leaves the commands as they
  -- are; otherwise the command goes to the lowest slot that is free, for the block and the page, and
  -- no other slot changes. The wait for the port begins with the registers behind the search. The bit of the slot, and no other, is written to `ci` just if the port was
  -- read as free before it counts as hung; if not, the task fails.
  pub issue_task-Issued :
      (p : Port H) (is_write : Bool) (lba_4k buffer : ℕ)
      → Issued p is_write lba_4k buffer
          (issue_task regs p is_write lba_4k buffer).0
          (issue_task regs p is_write lba_4k buffer).1
  issue_task-Issued p is_write lba_4k buffer =
      issue_found p is_write lba_4k buffer
        (free_slot 32 (bit_or (sact_at p.registers) (ci_at p.registers)) 0) refl
        (find-Found (sact_at p.registers) (ci_at p.registers))
