-- ===== src/AddressSpace/PageFault.antt =====
-- sys/idt.c, the branch TASK_PROC_PAGE_FAULT_HANDLE of `kernel_space_handler`.
use sbu_os.Prelude.{
  ℕ, ◌+◌, ◌-◌, ◌%◌, ◌^◌, ◌≤◌, ◌≡◌, ◌≢◌, refl, ap, sym, ◌∙◌, ◌⊎◌, ◌<◌, some_inj, inl, inr, Bool,
  true, false, not, ◌&&◌, ◌||◌, Option, none, some, List, [], ◌∷◌, arith, ltb, leb, ◌==◌,
  if◌then◌else◌, ◌>>=◌, Bool-cases, Option-cases, get_elem?,
}
use sbu_os.Pages.{PageEntry, free_page_for_program}
use sbu_os.AddressSpace.{MMap, Space, upper_levels, add_page_for_process}
use sbu_os.AddressSpace.Alloc.{page_of, IsTable}
use sbu_os.AddressSpace.Tables.{Safe}
use sbu_os.AddressSpace.Translate.{Reached, add_page_for_process-Reached}
use sbu_os.AddressSpace.Total.{free_count, add_page_for_process_total}
use sbu_os.AddressSpace.Fault.{find_map, behind_first, check_and_handle_rw_page_fault}
use sbu_os.AddressSpace.Split.{handler_splits}

-- The fields of the current process that the branch reads and writes.
pub record Faulting : Type 0 where
  pub space : Space
  pub heap_start : ℕ
  pub heap_break : ℕ
  pub rsp_current : ℕ
  pub sig_handler : ℕ
  pub sig_pending : ℕ
  pub on_hold : Bool
  pub terminated : Bool

-- SIGSEGV
abbrev pub sigsegv : ℕ
sigsegv = 11

-- A page for the address.
abbrev pub give_page : Faulting → (requested_addr rsp : ℕ) → Option Faulting
give_page p requested_addr rsp = do
  (dest, t) ← add_page_for_process p.space requested_addr true 2
  some (record p { space = t; rsp_current = rsp })

-- The branches behind the first one.
unfoldable pub heap_or_stack :
    (process_initial_rsp : ℕ) → Faulting → (requested_addr : ℕ) → Option Faulting
unfolding add_page_for_process
heap_or_stack process_initial_rsp p requested_addr =
    if ltb requested_addr p.heap_break && leb p.heap_start requested_addr
    then give_page p requested_addr p.rsp_current
    else if leb requested_addr process_initial_rsp
        && leb ((p.rsp_current + (2 ^ 64 - 0x4000)) % 2 ^ 64) requested_addr
    then give_page p requested_addr requested_addr
    else some (
        if not (p.sig_handler == 0)
        then record p { sig_pending = sigsegv; on_hold = false }
        else record p { on_hold = true; terminated = true })

-- The whole branch.
unfoldable pub page_fault :
    (process_initial_rsp : ℕ) → Faulting → (err_num requested_addr : ℕ) → Option Faulting
unfolding check_and_handle_rw_page_fault heap_or_stack
page_fault process_initial_rsp p err_num requested_addr =
    if err_num == 7 || err_num == 5
    then (do
      (split, t) ← check_and_handle_rw_page_fault p.space requested_addr
      if split
          then some (record p { space = t })
          else heap_or_stack process_initial_rsp (record p { space = t }) requested_addr)
    else heap_or_stack process_initial_rsp p requested_addr

-- Where an address lies.
abbrev pub InHeap : Faulting → (addr : ℕ) → Type 0
InHeap p addr = (p.heap_start ≤ addr) × (addr < p.heap_break)

abbrev pub OutOfHeap : Faulting → (addr : ℕ) → Type 0
OutOfHeap p addr = (addr < p.heap_start) ⊎ (p.heap_break ≤ addr)

-- The stack may grow down to here: 16 KiB below the lowest address so far.
abbrev pub stack_floor : Faulting → ℕ
stack_floor p = (p.rsp_current + (2 ^ 64 - 0x4000)) % 2 ^ 64

abbrev pub InStack : (process_initial_rsp : ℕ) → Faulting → (addr : ℕ) → Type 0
InStack process_initial_rsp p addr = (stack_floor p ≤ addr) × (addr ≤ process_initial_rsp)

abbrev pub OutOfStack : (process_initial_rsp : ℕ) → Faulting → (addr : ℕ) → Type 0
OutOfStack process_initial_rsp p addr = (addr < stack_floor p) ⊎ (process_initial_rsp < addr)

-- No page is copied: the fault is not one of a page that is there, or the mapping cannot be written.
abbrev pub NoCopy : (err_num : ℕ) → List MMap → (addr : ℕ) → Type 0
NoCopy err_num maps addr =
    ((err_num ≢ 7) × (err_num ≢ 5)) ⊎ ((m : MMap) → find_map addr maps ≡ some m → m.rw ≡ false)

-- How a fault ends: the address has a page of its own, as a copy, or in the heap, or on the stack; or
-- the process gets the signal, or it is terminated.
pub data Answered (process_initial_rsp err_num : ℕ) (maps : List MMap) (p : Faulting) (addr : ℕ)
    (p' : Faulting) : Type 0 where
  copied :
      (m : MMap) (e : PageEntry) (dest : ℕ)
      → (err_num ≡ 7) ⊎ (err_num ≡ 5)
      → find_map addr maps ≡ some m
      → m.rw ≡ true
      → get_elem? p.space.table m.phy_page ≡ some e
      → Reached p'.space.words p.space.cr3 addr dest
      → page_of dest ≢ page_of e.base
      → Answered process_initial_rsp err_num maps p addr p'
  in_heap :
      (dest : ℕ)
      → NoCopy err_num maps addr
      → InHeap p addr
      → Reached p'.space.words p.space.cr3 addr dest
      → dest % 4096 ≡ 0
      → p'.rsp_current ≡ p.rsp_current
      → Answered process_initial_rsp err_num maps p addr p'
  on_stack :
      (dest : ℕ)
      → NoCopy err_num maps addr
      → OutOfHeap p addr
      → InStack process_initial_rsp p addr
      → Reached p'.space.words p.space.cr3 addr dest
      → dest % 4096 ≡ 0
      → p'.rsp_current ≡ addr
      → Answered process_initial_rsp err_num maps p addr p'
  signalled :
      NoCopy err_num maps addr
      → OutOfHeap p addr
      → OutOfStack process_initial_rsp p addr
      → p.sig_handler ≢ 0
      → p' ≡ record p { sig_pending = sigsegv; on_hold = false }
      → Answered process_initial_rsp err_num maps p addr p'
  killed :
      NoCopy err_num maps addr
      → OutOfHeap p addr
      → OutOfStack process_initial_rsp p addr
      → p.sig_handler ≡ 0
      → p' ≡ record p { on_hold = true; terminated = true }
      → Answered process_initial_rsp err_num maps p addr p'

-- What a run of a handler gives.
abbrev pub Answers :
    (process_initial_rsp err_num : ℕ) → List MMap → Option Faulting → Faulting → (addr : ℕ) → Type 0
Answers process_initial_rsp err_num maps o p addr =
    (p' : Faulting) × (o ≡ some p') × Answered process_initial_rsp err_num maps p addr p'

-- What the mapping that is found for an address stands for: a program page that it uses, which none of
-- the tables for the address stands in.
abbrev pub IsShared : Space → (addr : ℕ) → MMap → Type 0
IsShared s addr m =
    (e : PageEntry) × (e' : PageEntry) × (get_elem? s.table m.phy_page ≡ some e)
    × (e.used_by ≢ 0)
    × (free_page_for_program m.address e ≡ some e')
    × Safe upper_levels s s.cr3 addr (page_of e.base ∷ [])

module _ (s : Space) (addr : ℕ) (first : MMap) (maps : List MMap)
    (from : behind_first s.first_map ≡ some (first, maps)) where
  no_map : find_map addr maps ≡ none → check_and_handle_rw_page_fault s addr ≡ some (false, s)
  unfolding check_and_handle_rw_page_fault
  no_map missing = rw (check_and_handle_rw_page_fault, from, ◌>>=◌, missing) refl

  no_write :
      (m : MMap)
      → find_map addr maps ≡ some m
      → m.rw ≡ false
      → check_and_handle_rw_page_fault s addr ≡ some (false, s)
  unfolding check_and_handle_rw_page_fault
  no_write m found fixed = rw (check_and_handle_rw_page_fault, from, ◌>>=◌, found, fixed) refl

leb-false : (a b : ℕ) → leb a b ≡ false → b < a
leb-false a b h = ground (arith, h)

leb-both : (a b c : ℕ) → (leb a b && leb c a) ≡ true → (c ≤ a) × (a ≤ b)
leb-both a b c h = (ground (arith, h), ground (arith, h))

-- The tests of the code say where the address lies.
heap_case :
    (p : Faulting) (addr : ℕ)
    → (ltb addr p.heap_break && leb p.heap_start addr) ≡ false
    → OutOfHeap p addr
heap_case p addr h = elim (Bool-cases (ltb addr p.heap_break)) [
  | inl below ↦ inl (ground (arith, h, below))
  | inr above ↦ inr (ground (arith, above))
]

stack_case :
    (stack : ℕ) (p : Faulting) (addr : ℕ)
    → (leb addr stack && leb (stack_floor p) addr) ≡ false
    → OutOfStack stack p addr
stack_case stack p addr h = elim (Bool-cases (leb addr stack)) [
  | inl below ↦
      let under : leb (stack_floor p) addr ≡ false = rw below at h in
      inl (leb-false (stack_floor p) addr under)
  | inr above ↦ inr (leb-false addr stack above)
]

module _ (p : Faulting) (addr : ℕ) (v : IsTable p.space.table) (free : 4 ≤ free_count p.space.table)
    (safe : Safe upper_levels p.space p.space.cr3 addr []) where
  -- A page for the address, with the register that goes with it.
  abbrev Given : (rsp : ℕ) → Option Faulting → Type 0
  Given rsp o =
      (p' : Faulting) × (dest : ℕ) × (o ≡ some p')
      × Reached p'.space.words p.space.cr3 addr dest
      × (dest % 4096 ≡ 0)
      × (p'.rsp_current ≡ rsp)

  give_page-Given : (rsp : ℕ) → Given rsp (give_page p addr rsp)
  give_page-Given rsp =
      let (dest, t, added) = add_page_for_process_total p.space addr 2 true free in
      let (reached, al, _) = add_page_for_process-Reached p.space t addr 2 dest true v safe added in
      (record p { space = t; rsp_current = rsp }, dest, rw added refl, reached, al, refl)

  heap_or_stack-Answers :
      (stack err_num : ℕ) (maps : List MMap)
      → NoCopy err_num maps addr
      → Answers stack err_num maps (heap_or_stack stack p addr) p addr
  unfolding heap_or_stack
  heap_or_stack-Answers stack err_num maps no_copy =
      elim (Bool-cases (ltb addr p.heap_break && leb p.heap_start addr)) [
        | inl heap ↦
            let (p', dest, gives, reached, al, rsp) = give_page-Given p.rsp_current in
            (
              p',
              rw (heap_or_stack, heap) gives,
              in_heap dest no_copy (ground (arith, heap), ground (arith, heap)) reached al rsp,
            )
        | inr no_heap ↦
            let out = heap_case p addr no_heap in
            elim (Bool-cases (leb addr stack && leb (stack_floor p) addr)) [
              | inl grows ↦
                  let (p', dest, gives, reached, al, rsp) = give_page-Given addr in
                  (
                    p',
                    rw (heap_or_stack, no_heap, grows) gives,
                    on_stack dest no_copy out (leb-both addr stack (stack_floor p) grows) reached al
                        rsp,
                  )
              | inr outside ↦
                  let beyond = stack_case stack p addr outside in
                  elim (Bool-cases (p.sig_handler == 0)) [
                    | inl none' ↦ (
                      record p { on_hold = true; terminated = true },
                      rw (heap_or_stack, no_heap, outside, none') refl,
                      killed no_copy out beyond (ground (arith, none')) refl,
                    )
                    | inr handler ↦ (
                      record p { sig_pending = sigsegv; on_hold = false },
                      rw (heap_or_stack, no_heap, outside, handler) refl,
                      signalled no_copy out beyond (ground (arith, handler)) refl,
                    )
                  ]
            ]
      ]

  after_check : (stack : ℕ) → Bool × Space → Option Faulting
  unfolding heap_or_stack
  after_check stack (split, t) =
      if split
      then some (record p { space = t })
      else heap_or_stack stack (record p { space = t }) addr

  not_split :
      (stack err_num : ℕ) (maps : List MMap)
      → NoCopy err_num maps addr
      → check_and_handle_rw_page_fault p.space addr ≡ some (false, p.space)
      → Answers stack err_num maps
          (check_and_handle_rw_page_fault p.space addr >>= after_check stack)
          p
          addr
  unfolding after_check
  not_split stack err_num maps no_copy runs =
      rw runs (heap_or_stack-Answers stack err_num maps no_copy)

  split-Answers :
      (stack err_num : ℕ) (first : MMap) (maps : List MMap)
      → (err_num ≡ 7) ⊎ (err_num ≡ 5)
      → p.space.first_map ≡ first ∷ maps
      → ((m : MMap) → find_map addr maps ≡ some m → m.rw ≡ true → IsShared p.space addr m)
      → Answers stack err_num maps
          (check_and_handle_rw_page_fault p.space addr >>= after_check stack)
          p
          addr
  unfolding after_check behind_first
  split-Answers stack err_num first maps write from each =
      let from' : behind_first p.space.first_map ≡ some (first, maps) = ap behind_first from in
      elim (Option-cases (find_map addr maps)) [
        | inl missing ↦
            not_split stack err_num maps (inr λ m found. absurd (cc (found, missing)))
              (no_map p.space addr first maps from' missing)
        | inr (m, found) ↦ elim (Bool-cases m.rw) [
          | inr fixed ↦
              not_split stack err_num maps
                (inr λ n found'. ap (λ (x : MMap). x.rw) (some_inj (sym found' ∙ found)) ∙ fixed)
                (no_write p.space addr first maps from' m found fixed)
          | inl can ↦
              let (e, e', at, busy, given, apart) = each m found can in
              let (u, dest, _, runs, reached, al, differ, _, _, _, _) =
                handler_splits p.space addr first m maps e e' v free from found can at busy given
                  apart in
              (
                record p { space = u },
                rw runs refl,
                copied m e dest write found can at reached differ,
              )
        ]
      ]

write_case : (err_num : ℕ) → (err_num == 7 || err_num == 5) ≡ true → (err_num ≡ 7) ⊎ (err_num ≡ 5)
write_case err_num h = elim (Bool-cases (err_num == 7)) [
  | inl seven ↦ inl (ground (arith, seven))
  | inr other ↦ inr (ground (arith, h, other))
]

pub page_fault-Answered :
    (stack : ℕ) (p : Faulting) (err_num addr : ℕ) (first : MMap) (maps : List MMap)
    → IsTable p.space.table
    → 4 ≤ free_count p.space.table
    → Safe upper_levels p.space p.space.cr3 addr []
    → p.space.first_map ≡ first ∷ maps
    → ((m : MMap) → find_map addr maps ≡ some m → m.rw ≡ true → IsShared p.space addr m)
    → Answers stack err_num maps (page_fault stack p err_num addr) p addr
unfolding page_fault after_check
page_fault-Answered stack p err_num addr first maps v free safe from each =
    elim (Bool-cases (err_num == 7 || err_num == 5)) [
      | inl write ↦
          rw (page_fault, write)
            (split-Answers p addr v free safe stack err_num first maps (write_case err_num write)
              from each)
      | inr other ↦
          rw (page_fault, other)
            (heap_or_stack-Answers p addr v free safe stack err_num maps
              (inl (ground (arith, other), ground (arith, other))))
    ]
