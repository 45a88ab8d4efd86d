-- ===== src/Fs/Dir.antt =====
-- sys/disk/file_system.c, `directory_compare` and the part of `list_next_file` that reads the disk:
-- the entries of a directory, which is what the names of the files have in front.
use sbu_os.Prelude.{
  ℕ, zero, suc, ◌+◌, ◌-◌, ◌≤◌, ◌≡◌, ◌≢◌, refl, ap, sym, ◌∙◌, ◌↔◌, inl, inr, Bool, true, false, ◌||◌,
  Option, none, some, List, [], ◌∷◌, ◌++◌, arith, ◌==◌, if◌then◌else◌, ◌>>=◌, Option-cases,
  Bool-cases, some_inj, length, get_elem?, append-nil,
}
use sbu_os.Fs.{FileRecord, Listing, Device, is_present}
use sbu_os.Fs.Search.{Works}

-- The loop over `dir_path`: what `sub_name` has behind it.
unfoldable pub behind : (sub_name dir_path : List ℕ) → Option (List ℕ)
behind sub_name [] = some sub_name
behind [] (c ∷ dir_path) = none
behind (x ∷ sub_name) (c ∷ dir_path) =
    let rest = behind sub_name dir_path in if c == x then rest else none

-- The loop over the rest of `sub_name`: is there a '/' with a byte behind it?
unfoldable pub has_sub : List ℕ → Bool
has_sub [] = false
has_sub (x ∷ []) = false
has_sub (x ∷ y ∷ name) = x == b'/' || has_sub (y ∷ name)

-- `directory_compare`; `none` is the result 0.
unfoldable pub directory_compare : (file dir_path : List ℕ) → Option (List ℕ)
unfolding behind has_sub
directory_compare [] dir_path = none
directory_compare (x ∷ file) dir_path = do
  name ← behind (x ∷ file) dir_path
  if has_sub name then none else some name

-- The entry that a record makes.
unfoldable pub entry_of : FileRecord → (dir_path : List ℕ) → Option (List ℕ)
unfolding directory_compare
entry_of r dir_path = if is_present r.attr then directory_compare r.name dir_path else none

-- The loop over the records of one list: the name, and `counter`.
unfoldable pub list_records :
    List FileRecord → (dir_path : List ℕ) → (next_i counter : ℕ) → Option (List ℕ) × ℕ
unfolding entry_of
list_records [] dir_path next_i counter = (none, counter)
list_records (r ∷ rs) dir_path next_i counter = elim (entry_of r dir_path) [
  | none ↦ list_records rs dir_path next_i counter
  | some name ↦ elim (counter == next_i) [
    | true ↦ (some name, counter)
    | false ↦ list_records rs dir_path next_i (counter + 1)
  ]
]

module _ {D : Type 0} (dev : Device D) where
  -- The loop of `list_next_file` over the lists of the disk; the outer `none`: the fuel ran out.
  unfoldable pub list_lists :
      (fuel : ℕ)
      → D
      → (dir_path : List ℕ) → (next_i counter lba_c : ℕ) → Option (Option (List ℕ) × D)
  list_lists zero d dir_path next_i counter lba_c = none
  list_lists (suc fuel) d dir_path next_i counter lba_c =
      let (readed, d') = dev.read_list d lba_c in
      elim readed [
        | none ↦ some (none, d')
        | some l ↦
            let (name, counter') = list_records l.records dir_path next_i counter in
            elim name [
              | some n ↦ some (some n, d')
              | none ↦
                  if l.next_lba == 0
                  then some (none, d')
                  else list_lists fuel d' dir_path next_i counter' l.next_lba
            ]
      ]

-- A name is an entry of a directory if there is no '/' in it but at its end.
abbrev pub IsEntry : (name : List ℕ) → Type 0
IsEntry name = (front back : List ℕ) → name ≡ front ++ (b'/' ∷ back) → back ≡ []

tail_of : {x y : ℕ} {xs ys : List ℕ} → x ∷ xs ≡ y ∷ ys → (x ≡ y) × (xs ≡ ys)
tail_of h = (cc h, cc h)

has_sub-front : (front back : List ℕ) (b : ℕ) → has_sub (front ++ (b'/' ∷ b ∷ back)) ≡ true
unfolding has_sub
has_sub-front [] back b = refl
has_sub-front (x ∷ []) back b = ground arith
has_sub-front (x ∷ y ∷ front) back b =
    let rest = has_sub-front (y ∷ front) back b in ground (arith, rest)

IsEntry-has_sub : (name : List ℕ) → has_sub name ≡ false → IsEntry name
IsEntry-has_sub name plain front [] e = refl
IsEntry-has_sub name plain front (b ∷ back) e =
    let yes = has_sub-front front back b in
    let not_so = ap has_sub (sym e) ∙ plain in absurd (cc (yes, not_so))

has_sub-IsEntry : (name : List ℕ) → IsEntry name → has_sub name ≡ false
unfolding has_sub
has_sub-IsEntry [] h = refl
has_sub-IsEntry (x ∷ []) h = refl
has_sub-IsEntry (x ∷ y ∷ name) h = elim (Bool-cases (x == b'/')) [
  | inl slash ↦
      let e : x ≡ b'/' = ground arith in
      let none_left = h [] (y ∷ name) (ap (λ c. c ∷ y ∷ name) e) in absurd (cc none_left)
  | inr other ↦
      let rest =
        has_sub-IsEntry (y ∷ name) λ front back e. h (x ∷ front) back (ap (λ l. x ∷ l) e) in
      rw (other, rest) refl
]

behind-append : (dir name : List ℕ) → behind (dir ++ name) dir ≡ some name
unfolding behind
behind-append [] name = refl
behind-append (c ∷ dir) name = ground (arith, behind-append dir name)

append-behind : (file dir name : List ℕ) → behind file dir ≡ some name → file ≡ dir ++ name
unfolding behind
append-behind file [] name h = some_inj h
append-behind [] (c ∷ dir) name h = absurd (cc h)
append-behind (x ∷ file) (c ∷ dir) name h = ground (arith, append-behind file dir name)

-- `directory_compare` gives a name exactly for a file whose path, which is not empty, is the one of the
-- directory with the name directly behind it, where no '/' is in the name but at its end.
pub directory_compare-IsEntry :
    (file dir_path name : List ℕ)
    → (directory_compare file dir_path ≡ some name)
      ↔ ((file ≡ dir_path ++ name) × (file ≢ []) × IsEntry name)
unfolding directory_compare
directory_compare-IsEntry [] dir_path name =
    (λ h. absurd (cc h), λ (e, full, entry). absurd (full refl))
directory_compare-IsEntry (x ∷ file) dir_path name = (
  λ h. elim (Option-cases (behind (x ∷ file) dir_path)) [
    | inl missed ↦ absurd (ground arith)
    | inr (n, found) ↦
        let e : (has_sub name ≡ false) × (n ≡ name) = ground arith in
        (
          append-behind (x ∷ file) dir_path name (found ∙ ap some e.1),
          λ p. cc p,
          IsEntry-has_sub name e.0,
        )
  ],
  λ (e, full, entry).
      let plain = has_sub-IsEntry name entry in
      rw (ap (λ f. behind f dir_path) e ∙ behind-append dir_path name, plain) refl,
)

-- The entries that the records make.
abbrev pub entries : List FileRecord → (dir_path : List ℕ) → List (List ℕ)
entries [] dir_path = []
entries (r ∷ rs) dir_path = elim (entry_of r dir_path) [
  | none ↦ entries rs dir_path
  | some name ↦ name ∷ entries rs dir_path
]

-- What the loop over the records has done.
list_records-entries :
    (rs : List FileRecord) (dir_path : List ℕ) (i counter next_i : ℕ)
    → next_i ≡ counter + i
    → ((list_records rs dir_path next_i counter).0 ≡ get_elem? (entries rs dir_path) i)
      × ((list_records rs dir_path next_i counter).0 ≡ none
          → ((list_records rs dir_path next_i counter).1 ≡ counter + length (entries rs dir_path))
            × (length (entries rs dir_path) ≤ i))
unfolding list_records
list_records-entries [] dir_path i counter next_i e = (refl, λ h. ground arith)
list_records-entries (r ∷ rs) dir_path zero counter next_i e =
    elim (Option-cases (entry_of r dir_path)) [
      | inl missed ↦
          rw (list_records, entries, missed)
            (list_records-entries rs dir_path zero counter next_i e)
      | inr (name, found) ↦
          let here : (counter == next_i) ≡ true = ground arith in
          rw (list_records, entries, found, here) (refl, λ h. absurd (cc h))
    ]
list_records-entries (r ∷ rs) dir_path (suc i) counter next_i e =
    elim (Option-cases (entry_of r dir_path)) [
      | inl missed ↦
          rw (list_records, entries, missed)
            (list_records-entries rs dir_path (suc i) counter next_i e)
      | inr (name, found) ↦
          let there : (counter == next_i) ≡ false = ground arith in
          let (got, past) = list_records-entries rs dir_path i (counter + 1) next_i (omega arith) in
          rw (list_records, entries, found, there)
            (got, λ h. let (c, l) = past h in (omega arith, omega arith))
    ]

get_elem?-append_left :
    (xs ys : List (List ℕ)) (i : ℕ) (x : List ℕ)
    → get_elem? xs i ≡ some x
    → get_elem? (xs ++ ys) i ≡ some x
get_elem?-append_left [] ys i x h = absurd (cc h)
get_elem?-append_left (y ∷ xs) ys zero x h = h
get_elem?-append_left (y ∷ xs) ys (suc i) x h = get_elem?-append_left xs ys i x h

get_elem?-append_right :
    (xs ys : List (List ℕ)) (i j : ℕ) → i ≡ length xs + j → get_elem? (xs ++ ys) i ≡ get_elem? ys j
get_elem?-append_right [] ys i j e = ap (get_elem? ys) (omega arith)
get_elem?-append_right (y ∷ xs) ys zero j e = absurd (omega arith)
get_elem?-append_right (y ∷ xs) ys (suc i) j e = get_elem?-append_right xs ys i j (omega arith)

-- The lists from `lba` on: each has the block of the next one behind its records, the last one 0.
abbrev pub IsChain : (stored : ℕ → Listing) → (lba : ℕ) → List Listing → Type 0
IsChain stored lba [] = ⊥
IsChain stored lba (l ∷ []) = (stored lba ≡ l) × (l.next_lba ≡ 0)
IsChain stored lba (l ∷ k ∷ ls) =
    (stored lba ≡ l) × (l.next_lba ≢ 0) × IsChain stored l.next_lba (k ∷ ls)

-- The entries of all the lists.
abbrev pub all_entries : List Listing → (dir_path : List ℕ) → List (List ℕ)
all_entries [] dir_path = []
all_entries (l ∷ ls) dir_path = entries l.records dir_path ++ all_entries ls dir_path

module _ {D : Type 0} (dev : Device D) (w : Works dev) where
  open w use {lists, read_list_gives, read_list_keeps}

  module _ (fuel : ℕ) (d : D) (dir_path : List ℕ) (next_i counter lba : ℕ) (l : Listing)
      (at : lists d lba ≡ l) where
    step-found :
        (n : List ℕ)
        → (list_records l.records dir_path next_i counter).0 ≡ some n
        → list_lists dev (suc fuel) d dir_path next_i counter lba
          ≡ some (some n, (dev.read_list d lba).1)
    unfolding list_lists
    step-found n found = rw (list_lists, read_list_gives d lba, at, found) refl

    step-last :
        (list_records l.records dir_path next_i counter).0 ≡ none
        → l.next_lba ≡ 0
        → list_lists dev (suc fuel) d dir_path next_i counter lba
          ≡ some (none, (dev.read_list d lba).1)
    unfolding list_lists
    step-last missed ends = rw (list_lists, read_list_gives d lba, at, missed, at, ends) refl

    step-more :
        (list_records l.records dir_path next_i counter).0 ≡ none
        → (l.next_lba == 0) ≡ false
        → list_lists dev (suc fuel) d dir_path next_i counter lba
          ≡ list_lists dev fuel
              (dev.read_list d lba).1
              dir_path
              next_i
              (list_records l.records dir_path next_i counter).1
              l.next_lba
    unfolding list_lists
    step-more missed more = rw (list_lists, read_list_gives d lba, at, missed, at, more) refl

  IsChain-keeps :
      (s t : ℕ → Listing) (lba : ℕ) (ls : List Listing)
      → ((k : ℕ) → t k ≡ s k)
      → IsChain s lba ls
      → IsChain t lba ls
  IsChain-keeps s t lba [] h c = c
  IsChain-keeps s t lba (l ∷ []) h (at, ends) = (h lba ∙ at, ends)
  IsChain-keeps s t lba (l ∷ k ∷ ls) h (at, more, rest) =
      (h lba ∙ at, more, IsChain-keeps s t l.next_lba (k ∷ ls) h rest)

  pub list_lists-entries :
      (fuel : ℕ) (d : D) (dir_path : List ℕ) (i counter next_i lba : ℕ) (ls : List Listing)
      → length ls ≤ fuel
      → IsChain (lists d) lba ls
      → next_i ≡ counter + i
      → (d' : D) × (list_lists dev fuel d dir_path next_i counter lba
          ≡ some (get_elem? (all_entries ls dir_path) i, d'))
  list_lists-entries fuel d dir_path i counter next_i lba [] h c e = absurd c
  list_lists-entries zero d dir_path i counter next_i lba (l ∷ ls) h c e = absurd (omega arith)
  list_lists-entries (suc fuel) d dir_path i counter next_i lba (l ∷ []) h (at, ends) e =
      let (got, past) = list_records-entries l.records dir_path i counter next_i e in
      elim (Option-cases (list_records l.records dir_path next_i counter).0) [
        | inl missed ↦ (
          (dev.read_list d lba).1,
          step-last fuel d dir_path next_i counter lba l at missed ends
              ∙ ap (λ o. some (o, (dev.read_list d lba).1))
                  (sym missed
                    ∙ got
                    ∙ ap (λ es. get_elem? es i) (sym (append-nil (entries l.records dir_path)))),
        )
        | inr (n, found) ↦ (
          (dev.read_list d lba).1,
          step-found fuel d dir_path next_i counter lba l at n found
              ∙ ap (λ o. some (o, (dev.read_list d lba).1))
                  (sym
                    (get_elem?-append_left (entries l.records dir_path) [] i n (sym got ∙ found))),
        )
      ]
  list_lists-entries (suc fuel) d dir_path i counter next_i lba (l ∷ k ∷ ls) h (at, more, rest) e =
      let (got, past) = list_records-entries l.records dir_path i counter next_i e in
      let others = all_entries (k ∷ ls) dir_path in
      elim (Option-cases (list_records l.records dir_path next_i counter).0) [
        | inl missed ↦
            let (c, l') = past missed in
            let j = i - length (entries l.records dir_path) in
            let (d', eq) =
              list_lists-entries fuel (dev.read_list d lba).1 dir_path j
                (list_records l.records dir_path next_i counter).1 next_i l.next_lba (k ∷ ls)
                (omega arith)
                (IsChain-keeps (lists d) (lists (dev.read_list d lba).1) l.next_lba (k ∷ ls)
                  (λ q. (read_list_keeps d lba q).0) rest)
                (omega arith) in
            (
              d',
              step-more fuel d dir_path next_i counter lba l at missed (ground arith)
                  ∙ eq
                  ∙ ap (λ o. some (o, d'))
                      (sym (
                        get_elem?-append_right (entries l.records dir_path) others i j
                          (omega arith))),
            )
        | inr (n, found) ↦ (
          (dev.read_list d lba).1,
          step-found fuel d dir_path next_i counter lba l at n found
              ∙ ap (λ o. some (o, (dev.read_list d lba).1))
                  (sym (
                    get_elem?-append_left (entries l.records dir_path) others i n
                      (sym got ∙ found))),
        )
      ]
