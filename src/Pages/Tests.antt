-- ===== src/Pages/Tests.antt =====
-- The page table at work, and the theorems at concrete tables.
use sbu_os.Prelude.{ℕ, ◌≡◌, refl, none, some, [], ◌∷◌, arith}
use sbu_os.Pages.{
  PageEntry, PageTable, Phys, hand_out, find_free_page_entry, find_free_page_entry_many,
  get_phy_page,
}
use sbu_os.Pages.Table.{GotPages, get_phy_page-GotPages}
use sbu_os.Pages.Use.{
  IsValid, UsedBy, Ends, taken, given_up, page_of, users_after, run, run-users_after,
}

abbrev page : ℕ → ℕ → PageEntry
page b u = record { base = b; used_by = u; use_record = [] }

abbrev table : PageTable
table =
    page 0x400000 1
    ∷ page 0x401000 2
    ∷ page 0x402000 0
    ∷ page 0x403000 0
    ∷ page 0x404000 0
    ∷ page 0x405000 0
    ∷ []

abbrev phys : Phys
phys = record { table = table; ram = λ _. 7 }

first_free : find_free_page_entry table ≡ some 2
unfolding find_free_page_entry
first_free = refl

-- The used entry at index 1 ends a run, and the search goes on behind the entry after it.
two_pages : find_free_page_entry_many table 0 2 ≡ some 2
unfolding find_free_page_entry_many
two_pages = refl

-- The four free entries at the end of the table are not found.
four_pages : find_free_page_entry_many table 0 4 ≡ none
unfolding find_free_page_entry_many
four_pages = refl

abbrev shared : PageEntry
shared = page_of 0x402000 3 (81 ∷ 82 ∷ [])

shared-IsValid : IsValid shared
shared-IsValid = record { shared = λ e h. cc; distinct = (refl, (refl, tt)) }

get_phy_page-GotPages_example : GotPages 1 2 phys (
    hand_out phys
      (page 0x400000 1
        ∷ page 0x401000 2
        ∷ page 0x402000 2
        ∷ page 0x403000 0
        ∷ page 0x404000 0
        ∷ page 0x405000 0
        ∷ [])
      2)
get_phy_page-GotPages_example =
    get_phy_page-GotPages 1 2 phys 0 (unfold get_phy_page find_free_page_entry in refl)

shared-UsedBy : UsedBy shared (81 ∷ 82 ∷ [])
shared-UsedBy = record {
  valid = shared-IsValid;
  users = refl;
  free_iff = (λ e. absurd (omega arith), λ e. absurd (cc));
}

run-users_after_example :
    Ends (run (taken 83 ∷ given_up 82 ∷ given_up 81 ∷ given_up 83 ∷ []) shared) []
run-users_after_example =
    run-users_after (taken 83 ∷ given_up 82 ∷ given_up 81 ∷ given_up 83 ∷ []) shared (81 ∷ 82 ∷ [])
      [] shared-UsedBy (unfold users_after in refl)
