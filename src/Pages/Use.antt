-- ===== src/Pages/Use.antt =====
-- The mappings that use a program page: `dup_page_for_program` and `free_page_for_program` count
-- them by the list of use records.
use sbu_os.Prelude.{
  ℕ, ◌≡◌, ◌≢◌, ◌↔◌, refl, Bool, false, ◌||◌, Option, none, some, List, [], ◌∷◌, ◌++◌, arith, ◌==◌,
  if◌then◌else◌, Bool-cases, some_inj, inl, inr,
}
use mathlib.Core.Path.{subst}
use sbu_os.Pages.{PageEntry, dup_page_for_program, unlink, release_record, free_page_for_program}

-- Is the mapping in the list?
abbrev pub has : ℕ → List ℕ → Bool
has q [] = false
has q (x ∷ xs) = x == q || has q xs

-- The list without the mapping.
abbrev pub without : ℕ → List ℕ → List ℕ
without q [] = []
without q (x ∷ xs) = if x == q then without q xs else x ∷ without q xs

-- No mapping stands twice in the list.
abbrev pub Distinct : List ℕ → Type 0
Distinct [] = Unit {0}
Distinct (x ∷ xs) = (has x xs ≡ false) × Distinct xs

-- Who uses the page: the records of a program page, and nobody otherwise.
abbrev pub owners : PageEntry → List ℕ
owners page = if page.used_by == 3 then page.use_record else []

-- A program page has a user, and no user has two records.
pub record IsValid (page : PageEntry) : Type 0 where
  pub shared : page.used_by ≡ 3 → page.use_record ≢ []
  pub distinct : Distinct (owners page)

without-absent : (q : ℕ) (xs : List ℕ) → has q xs ≡ false → without q xs ≡ xs
without-absent q [] h = refl
without-absent q (x ∷ xs) h = ground (arith, without-absent q xs)

unlink-without : (q : ℕ) (xs : List ℕ) → unlink q xs ≡ (has q xs, without q xs)
unfolding unlink
unlink-without q [] = refl
unlink-without q (x ∷ xs) = ground (arith, unlink-without q xs)

has-append : (q : ℕ) (xs ys : List ℕ) → has q (xs ++ ys) ≡ (has q xs || has q ys)
has-append q [] ys = refl
has-append q (x ∷ xs) ys = ground (arith, has-append q xs ys)

has-without : (q x : ℕ) (xs : List ℕ) → has x xs ≡ false → has x (without q xs) ≡ false
has-without q x [] h = refl
has-without q x (y ∷ xs) h = ground (arith, has-without q x xs)

Distinct-without : (q : ℕ) (xs : List ℕ) → Distinct xs → Distinct (without q xs)
Distinct-without q [] d = tt
Distinct-without q (x ∷ xs) d = ground (arith, Distinct-without q xs, has-without q x xs)

Distinct-append : (q : ℕ) (xs : List ℕ) → has q xs ≡ false → Distinct xs → Distinct (xs ++ q ∷ [])
Distinct-append q [] h d = ground arith
Distinct-append q (x ∷ xs) h d = ground (arith, Distinct-append q xs, has-append x xs (q ∷ []))

-- What the two functions promise, on the users of a page alone.
abbrev pub share : ℕ → List ℕ → Option (List ℕ)
share q [] = none
share q (x ∷ xs) = some ((x ∷ xs) ++ (q ∷ []))

abbrev pub release : ℕ → List ℕ → Option (List ℕ)
release q xs = if has q xs then some (without q xs) else none

-- The page has the given users, is valid, and is free exactly when it has none.
pub record UsedBy (page : PageEntry) (xs : List ℕ) : Type 0 where
  pub valid : IsValid page
  pub users : owners page ≡ xs
  pub free_iff : (page.used_by ≡ 0) ↔ (xs ≡ [])

-- The code and the promise go on, or both stop.
abbrev pub Agrees : Option PageEntry → Option (List ℕ) → Type 0
Agrees none none = Unit {0}
Agrees none (some xs) = ⊥
Agrees (some page) none = ⊥
Agrees (some page) (some xs) = UsedBy page xs

abbrev pub page_of : ℕ → ℕ → List ℕ → PageEntry
page_of b u records = record { base = b; used_by = u; use_record = records }

-- A program page with users is used by them.
program_page :
    (b : ℕ) (x : ℕ) (xs : List ℕ) → Distinct (x ∷ xs) → UsedBy (page_of b 3 (x ∷ xs)) (x ∷ xs)
program_page b x xs d = record {
  valid = record { shared = λ e h. absurd (cc); distinct = d };
  users = refl;
  free_iff = (λ e. absurd (omega arith), λ e. absurd (cc));
}

-- A page that was given back has no user.
free_page : (b : ℕ) (xs : List ℕ) → UsedBy (page_of b 0 xs) []
free_page b xs = record {
  valid = record { shared = λ e h. omega arith; distinct = tt };
  users = refl;
  free_iff = (λ e. refl, λ e. refl);
}

dup-program :
    (q b : ℕ) (xs : List ℕ)
    → Distinct xs
    → has q xs ≡ false
    → Agrees (dup_page_for_program q (page_of b 3 xs)) (share q xs)
unfolding dup_page_for_program
dup-program q b [] d new = tt
dup-program q b (x ∷ xs) d new =
    program_page b x (xs ++ (q ∷ [])) (Distinct-append q (x ∷ xs) new d)

release_record-release :
    (q b x y : ℕ) (ys : List ℕ)
    → Distinct (x ∷ y ∷ ys)
    → Agrees (release_record q (page_of b 3 (x ∷ y ∷ ys)) x (y ∷ ys)) (release q (x ∷ y ∷ ys))
unfolding release_record
release_record-release q b x y ys d = elim (Bool-cases (x == q)) [
  | inl hit ↦
      let e : x ≡ q = ground arith in
      let kept : without q (y ∷ ys) ≡ y ∷ ys =
        without-absent q (y ∷ ys) (subst (λ z. has z (y ∷ ys) ≡ false) e d.0) in
      rw (hit, kept) (program_page b y ys d.1)
  | inr miss ↦
      rw (miss, unlink-without q (y ∷ ys))
        (elim (Bool-cases (has q (y ∷ ys))) [
          | inl there ↦ rw there (
              program_page b x (without q (y ∷ ys))
                (has-without q x (y ∷ ys) d.0, Distinct-without q (y ∷ ys) d.1))
          | inr absent ↦ rw absent tt
        ])
]

free-program :
    (q b : ℕ) (xs : List ℕ)
    → Distinct xs
    → Agrees (free_page_for_program q (page_of b 3 xs)) (release q xs)
unfolding free_page_for_program
free-program q b [] d = tt
free-program q b (x ∷ []) d = elim (Bool-cases (x == q)) [
  | inl last ↦ rw last (free_page b (x ∷ []))
  | inr other ↦ rw other tt
]
free-program q b (x ∷ y ∷ ys) d = release_record-release q b x y ys d

-- A page that is no program page has no users, and both functions hang on it.
by_kind : (P : ℕ → Type 0) (u : ℕ) → ((u == 3) ≡ false → P u) → P 3 → P u
by_kind P u other program = elim (Bool-cases (u == 3)) [
  | inl e ↦ let e' : u ≡ 3 = ground arith in rw e' program
  | inr e ↦ other e
]

-- `dup_page_for_program` adds a mapping that does not use the page yet behind its users, and hangs
-- on a page that no mapping uses.
pub dup_page_for_program-share :
    (q : ℕ) (page : PageEntry)
    → IsValid page
    → has q (owners page) ≡ false
    → Agrees (dup_page_for_program q page) (share q (owners page))
dup_page_for_program-share q page v new =
    by_kind
      (λ u.
        IsValid (page_of page.base u page.use_record)
        → has q (owners (page_of page.base u page.use_record)) ≡ false
        → Agrees (dup_page_for_program q (page_of page.base u page.use_record))
            (share q (owners (page_of page.base u page.use_record))))
      page.used_by (λ other v new. unfold dup_page_for_program in rw other tt)
      (λ v new. dup-program q page.base page.use_record v.distinct new) v new

-- `free_page_for_program` removes a mapping from the users of the page, frees the page with the
-- last one, and hangs on a mapping that does not use it.
pub free_page_for_program-release :
    (q : ℕ) (page : PageEntry)
    → IsValid page
    → Agrees (free_page_for_program q page) (release q (owners page))
free_page_for_program-release q page v =
    by_kind
      (λ u.
        IsValid (page_of page.base u page.use_record)
        → Agrees (free_page_for_program q (page_of page.base u page.use_record))
            (release q (owners (page_of page.base u page.use_record))))
      page.used_by (λ other v. unfold free_page_for_program in rw other tt)
      (λ v. free-program q page.base page.use_record v.distinct) v

-- What happens to a program page in its life: a mapping takes it on, or gives it up.
pub data Event : Type 0 where
  taken : ℕ → Event
  given_up : ℕ → Event

unfoldable pub run : List Event → PageEntry → Option PageEntry
run [] page = some page
run (taken q ∷ es) page = elim (dup_page_for_program q page) [ none ↦ none | some p ↦ run es p ]
run (given_up q ∷ es) page = elim (free_page_for_program q page) [ none ↦ none | some p ↦ run es p ]

-- The same on the users alone; a mapping that uses the page already does not take it on again.
unfoldable pub users_after : List Event → List ℕ → Option (List ℕ)
users_after [] xs = some xs
users_after (taken q ∷ es) xs =
    let next = share q xs in
    if has q xs then none else elim next [ none ↦ none | some ys ↦ users_after es ys ]
users_after (given_up q ∷ es) xs =
    let next = release q xs in elim next [ none ↦ none | some ys ↦ users_after es ys ]

abbrev pub Ends : Option PageEntry → List ℕ → Type 0
Ends none ys = ⊥
Ends (some page) ys = UsedBy page ys

step-Ends :
    (es : List Event) (o : Option PageEntry) (s : Option (List ℕ)) (ys : List ℕ)
    → Agrees o s
    → elim s as (λ _. Option (List ℕ)) [ none ↦ none | some xs ↦ users_after es xs ] ≡ some ys
    → ((page : PageEntry) (xs : List ℕ)
        → UsedBy page xs
        → users_after es xs ≡ some ys
        → Ends (run es page) ys)
    → Ends (elim o [ none ↦ none | some p ↦ run es p ]) ys
step-Ends es none none ys a e ih = absurd (cc)
step-Ends es none (some xs) ys a e ih = absurd a
step-Ends es (some page) none ys a e ih = absurd a
step-Ends es (some page) (some xs) ys a e ih = ih page xs a e

-- Over any life of a page in which only mappings that use it give it up, and it is taken only by mappings
-- that do not use it yet, and only while some mapping uses it, no call hangs, the page is used by
-- exactly the mappings that are left, and it is free exactly when none is left.
pub run-users_after :
    (es : List Event) (page : PageEntry) (xs ys : List ℕ)
    → UsedBy page xs
    → users_after es xs ≡ some ys
    → Ends (run es page) ys
unfolding run users_after
run-users_after [] page xs ys u e = subst (UsedBy page) (some_inj e) u
run-users_after (taken q ∷ es) page xs ys u e = elim (Bool-cases (has q xs)) [
  | inl again ↦ absurd (let e' = rw again at e in cc)
  | inr new ↦
      step-Ends es _ (share q xs) ys
        (subst (λ zs. has q zs ≡ false → Agrees (dup_page_for_program q page) (share q zs)) u.users
          (dup_page_for_program-share q page u.valid) new)
        (rw new at e) (λ p zs. run-users_after es p zs ys)
]
run-users_after (given_up q ∷ es) page xs ys u e =
    step-Ends es _ (release q xs) ys
      (subst (λ zs. Agrees (free_page_for_program q page) (release q zs)) u.users
        (free_page_for_program-release q page u.valid))
      e (λ p zs. run-users_after es p zs ys)
