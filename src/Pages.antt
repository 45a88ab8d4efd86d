-- ===== src/Pages.antt =====
-- sys/memory/phy_page.c, the physical pages: the table of page entries, the searches for free
-- pages, and the records of the mappings that use a program page. `page_entry_base` and
-- `page_entry_end` delimit the table, which is a list; a `page_entry*` is an index into it, and a
-- NULL one, or a call that never returns (`assert`, `while(1)`), is `none`.
pub mod Find
pub mod Many
pub mod Use
pub mod Table
mod Tests
use sbu_os.Prelude.{
  ℕ, zero, suc, ◌+◌, ◌-◌, ◌%◌, ◌^◌, Bool, true, false, not, ◌||◌, Option, none, some, List, [], ◌∷◌,
  ◌++◌, ltb, ◌==◌, if◌then◌else◌, length, get_elem?, modify,
}
use sbu_os.Memory.{Ram, memset}

-- `page_entry`. The list `use_record` holds the field `pt` of each `page_use_record`, first to
-- last: the address of the `m_map` that uses the page. Their `type` is 1 throughout.
pub record PageEntry : Type 0 where
  pub base : ℕ
  pub used_by : ℕ
  pub use_record : List ℕ

abbrev pub PageTable : Type 0
PageTable = List PageEntry

find_from : PageTable → ℕ → Option ℕ
find_from [] cursor = none
find_from (e ∷ t) cursor =
    let rest = find_from t (cursor + 1) in if e.used_by == 0 then some cursor else rest

-- `find_free_page_entry`
unfoldable pub find_free_page_entry : PageTable → Option ℕ
unfolding find_from
find_free_page_entry t = find_from t 0

abbrev base_of : Option PageEntry → ℕ
base_of none = 0
base_of (some e) = e.base

abbrev pub is_used : Option PageEntry → Bool
is_used none = true
is_used (some e) = not (e.used_by == 0)

-- `find_free_page_entry_many`. `below` is what the code reads as `(cursor-1)->base` when `cursor` is
-- the first entry: a word in front of the table.
module _ (t : PageTable) (below num : ℕ) where
  -- `(cursor-1)->base`
  abbrev pub previous_base : ℕ → ℕ
  previous_base zero = below
  previous_base (suc i) = base_of (get_elem? t i)

  -- `(cursor-1)->base + 4096 != cursor->base`
  abbrev pub is_apart : ℕ → Bool
  is_apart cursor = not ((previous_base cursor + 4096) % 2 ^ 64 == base_of (get_elem? t cursor))

  pub data Run : Type 0 where
    found : Run
    stopped : ℕ → Run

  -- The inner loop, with `left` entries from `cursor` to the end of the table.
  pub extend : (left cursor accu : ℕ) → Run
  extend zero cursor accu = stopped cursor
  extend (suc left) cursor accu =
      let rest = extend left (cursor + 1) (accu + 1) in
      if accu == num
      then found
      else if is_apart cursor || is_used (get_elem? t cursor)
      then stopped cursor
      else rest

  -- The outer loop; every round moves the cursor on, so the length of the table is fuel enough.
  pub search_from : (fuel cursor : ℕ) → Option ℕ
  search_from zero cursor = none
  search_from (suc fuel) cursor =
      if ltb cursor (length t)
      then elim (extend (length t - cursor) cursor 0) [
        | found ↦ some cursor
        | stopped c ↦ search_from fuel (c + 1)
      ]
      else none

  unfoldable pub find_free_page_entry_many : Option ℕ
  unfolding search_from extend
  find_free_page_entry_many = search_from (length t + 1) 0

-- The entries and the bytes of the physical memory.
pub record Phys : Type 0 where
  pub table : PageTable
  pub ram : Ram

abbrev pub set_used : ℕ → PageEntry → PageEntry
set_used used_by e = record e { used_by = used_by }

-- The loop of `get_phy_page` that marks `num` entries from `c` on; its `assert` hangs on a used one.
pub mark : (num c used_by : ℕ) → PageTable → Option PageTable
mark zero c used_by t = some t
mark (suc num) c used_by t =
    if is_used (get_elem? t c)
    then none
    else mark num (c + 1) used_by (modify t c (set_used used_by))

-- Zeroes the page of entry `i` and returns its address.
abbrev hand_out : Phys → PageTable → ℕ → ℕ × Phys
hand_out m t i =
    let base = base_of (get_elem? m.table i) in
    (base, record { table = t; ram = memset m.ram base 0 4096 })

-- What `get_phy_page` does with the entry that its search returned.
take_many : (num used_by : ℕ) → Phys → Option ℕ → Option (ℕ × Phys)
unfolding mark
take_many num used_by m none = none
take_many num used_by m (some i) = elim (mark num i used_by m.table) [
  | none ↦ none
  | some t ↦ some (hand_out m t i)
]

take_one : (used_by : ℕ) → Phys → Option ℕ → Option (ℕ × Phys)
take_one used_by m none = none
take_one used_by m (some i) = some (hand_out m (modify m.table i (set_used used_by)) i)

-- `get_phy_page`. Of several pages only the first is zeroed.
unfoldable pub get_phy_page : (below num used_by : ℕ) → Phys → Option (ℕ × Phys)
unfolding take_many take_one
get_phy_page below num used_by m =
    if ltb 1 num
    then take_many num used_by m (find_free_page_entry_many m.table below num)
    else take_one used_by m (find_free_page_entry m.table)

-- `get_phy_page_for_program`: the entry, given to the mapping `map`.
unfoldable pub get_phy_page_for_program : (map : ℕ) → PageTable → Option (ℕ × PageTable)
get_phy_page_for_program map t = elim (find_free_page_entry t) [
  | none ↦ none
  | some i ↦ some (i, modify t i (λ e. record e { used_by = 3; use_record = map ∷ [] }))
]

-- `dup_page_for_program`: the loop walks to the last record and links a new one behind it.
unfoldable pub dup_page_for_program : (map : ℕ) → PageEntry → Option PageEntry
dup_page_for_program map page = if not (page.used_by == 3) then none else elim page.use_record [
  | [] ↦ none
  | c ∷ cs ↦ some (record page { use_record = (c ∷ cs) ++ (map ∷ []) })
]

-- The loop of `free_page_for_program` behind the first record: `found`, and what is left.
pub unlink : (map : ℕ) → List ℕ → Bool × List ℕ
unlink map [] = (false, [])
unlink map (c ∷ cs) =
    let (b, rest) = unlink map cs in if c == map then (true, rest) else (b, c ∷ rest)

-- The part of `free_page_for_program` for a page with the records `c ∷ cs`. With the last record the
-- page is free; `use_record` then still points at the record, which is given back.
release_record : (map : ℕ) → PageEntry → ℕ → List ℕ → Option PageEntry
release_record map page c [] = if c == map then some (record page { used_by = 0 }) else none
release_record map page c (d ∷ ds) =
    if c == map
    then some (record page { use_record = d ∷ ds })
    else (let (hit, rest) = unlink map (d ∷ ds) in
        if hit then some (record page { use_record = c ∷ rest }) else none)

-- `free_page_for_program`. It hangs on a page that is no program page, and on a mapping that has no
-- record there.
unfoldable pub free_page_for_program : (map : ℕ) → PageEntry → Option PageEntry
unfolding release_record unlink
free_page_for_program map page =
    if not (page.used_by == 3)
    then none
    else elim page.use_record [ [] ↦ none | c ∷ cs ↦ release_record map page c cs ]
