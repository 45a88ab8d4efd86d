-- ===== src/Paging/Tests.antt =====
-- A walk through three tables, at addresses 0x1000 to 0x4000.
use sbu_os.Prelude.{◌≡◌, refl, true, ◌==◌, if◌then◌else◌}
use sbu_os.Paging.Laws.{PteSet, set_pte_rw-PteSet, translate_cr3-set_pte_rw}
use sbu_os.Paging.{Words, pte_slot, translate_cr3, set_pte_rw}

-- The address 0x201234 goes through entry 0 twice, then entry 1 and entry 1.
abbrev words : Words
words a =
    if a == 0x1000
    then 0x2007
    else if a == 0x2000
    then 0x3007
    else if a == 0x3008
    then 0x4007
    else if a == 0x4008
    then 0x9005
    else 0

translates : translate_cr3 words 0x1000 0x201234 ≡ 0x9234
unfolding translate_cr3 pte_slot
translates = refl

not_mapped : translate_cr3 words 0x1000 0x401234 ≡ 0
unfolding translate_cr3 pte_slot
not_mapped = refl

made_writable : (set_pte_rw words 0x1000 0x201234 true).1 0x4008 ≡ 0x9007
unfolding set_pte_rw pte_slot
made_writable = refl

set_pte_rw-PteSet_example :
    PteSet words 0x1000 0x201234 true (set_pte_rw words 0x1000 0x201234 true)
set_pte_rw-PteSet_example = set_pte_rw-PteSet words 0x1000 0x201234 true

translate_cr3-set_pte_rw_example :
    translate_cr3 (set_pte_rw words 0x1000 0x201234 true).1 0x1000 0x201fff
    ≡ translate_cr3 words 0x1000 0x201fff
translate_cr3-set_pte_rw_example =
    translate_cr3-set_pte_rw words 0x1000 0x201234 true 0x1000 0x201fff
