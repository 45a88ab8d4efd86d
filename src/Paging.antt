-- ===== src/Paging.antt =====
-- The page table walks of sys/memory/phy_page.c: `translate_cr3` and `set_pte_rw`. The physical
-- memory is read in words of 64 bits, by the address of their first byte. `x & 0xFFFFFFFFFF000`
-- keeps the bits 12 to 51, and `x & 1` is the present bit.
pub mod Laws
mod Tests
use sbu_os.Prelude.{
  ℕ, ◌+◌, ◌-◌, ◌*◌, ◌/◌, ◌%◌, ◌^◌, Bool, true, false, Option, none, some, ◌==◌, if◌then◌else◌,
  ◌>>=◌,
}

abbrev pub Words : Type 0
Words = ℕ → ℕ

abbrev pub is_present : ℕ → Bool
is_present entry = entry % 2 == 1

-- `entry & 0xFFFFFFFFFF000`
abbrev pub frame : ℕ → ℕ
frame entry = entry / 4096 % 2 ^ 40 * 4096

-- `&((uint64_t*)(entry & 0xFFFFFFFFFF000))[(virtual_addr >> shift) & 0b111111111]`
abbrev pub slot : (entry virtual_addr shift : ℕ) → ℕ
slot entry virtual_addr shift = frame entry + 8 * (virtual_addr / 2 ^ shift % 512)

-- One level of a walk: the entry that `entry` leads to, if it is present.
unfoldable pub next_entry : Words → (entry virtual_addr shift : ℕ) → Option ℕ
next_entry m entry virtual_addr shift =
    let e = m (slot entry virtual_addr shift) in if is_present e then some e else none

-- The three upper levels, with an early return at each: the address of the page table entry.
unfoldable pub pte_slot : Words → (pml4 virtual_addr : ℕ) → Option ℕ
unfolding next_entry
pte_slot m pml4 virtual_addr = do
  pdp ← next_entry m pml4 virtual_addr 39
  pd ← next_entry m pdp virtual_addr 30
  pt ← next_entry m pd virtual_addr 21
  some (slot pt virtual_addr 12)

-- `translate_cr3`; the result 0 stands for an address that is not mapped.
unfoldable pub translate_cr3 : Words → (pml4 virtual_addr : ℕ) → ℕ
translate_cr3 m pml4 virtual_addr = elim (pte_slot m pml4 virtual_addr) [
  | none ↦ 0
  | some a ↦ let pte = m a in if is_present pte then frame pte + virtual_addr % 4096 else 0
]

abbrev pub write_word : Words → ℕ → ℕ → Words
write_word m a v b = if b == a then v else m b

-- Bit 1 of an entry, cleared by `&= 0xFFFFFFFFFFFFFFFD` or set by `|= 0x2`.
abbrev pub with_rw : ℕ → Bool → ℕ
with_rw entry rw = if rw then entry + 2 - entry / 2 % 2 * 2 else entry - entry / 2 % 2 * 2

-- `set_pte_rw`: its result, and the memory afterwards.
unfoldable pub set_pte_rw : Words → (pml4 virtual_addr : ℕ) → (rw : Bool) → Bool × Words
set_pte_rw m pml4 virtual_addr rw = elim (pte_slot m pml4 virtual_addr) [
  | none ↦ (false, m)
  | some a ↦
      let pte = m a in
      if is_present pte then (true, write_word m a (with_rw pte rw)) else (false, m)
]
