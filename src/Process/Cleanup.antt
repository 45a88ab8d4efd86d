-- ===== src/Process/Cleanup.antt =====
-- `process_cleanup`: what it gives back, and whom it wakes.
use sbu_os.Prelude.{
  ℕ, ◌≡◌, refl, ap, sym, ◌∙◌, Bool, true, false, not, ◌&&◌, ◌||◌, Option, none, some, List, [], ◌∷◌,
  arith, ◌==◌, if◌then◌else◌, Bool-cases, Option-cases, some_inj, inl, inr, get_elem?, modify,
  get_elem?-modify_self, get_elem?-modify_ne,
}
use mathlib.Core.Path.{subst}
use sbu_os.Pages.{PageEntry, PageTable, free_page_for_program}
use sbu_os.Pages.Use.{
  IsValid, UsedBy, Agrees, owners, has, without, release, free_page_for_program-release,
}
use sbu_os.Process.{Mapping, Kernel, Procs, any_child, wake_parent, free_maps, process_cleanup}

-- Every page entry is valid.
abbrev pub TableValid : PageTable → Type 0
TableValid t = (i : ℕ) (page : PageEntry) → get_elem? t i ≡ some page → IsValid page

-- Who uses the page with index `i`?
abbrev pub owners_at : PageTable → ℕ → List ℕ
owners_at t i = elim (get_elem? t i) [ none ↦ [] | some page ↦ owners page ]

-- Is the mapping with address `q` among those of page `i`?
abbrev pub maps_to : (q i : ℕ) → List Mapping → Bool
maps_to q i [] = false
maps_to q i (m ∷ ms) = (m.address == q && m.phy_page == i) || maps_to q i ms

has-without : (q a : ℕ) (xs : List ℕ) → has q (without a xs) ≡ (has q xs && not (a == q))
has-without q a [] = refl
has-without q a (x ∷ xs) = ground (arith, has-without q a xs)

-- What a successful release says of the page.
released :
    (a : ℕ) (o : Option PageEntry) (xs : List ℕ) (freed : PageEntry)
    → Agrees o (release a xs)
    → o ≡ some freed
    → IsValid freed × (owners freed ≡ without a xs)
released a none xs freed h e = absurd (cc)
released a (some page) xs freed h e = elim (Bool-cases (has a xs)) [
  | inl there ↦
      let u : UsedBy page (without a xs) = rw there at h in
      subst (λ r. IsValid r × (owners r ≡ without a xs)) (some_inj e) (u.valid, u.users)
  | inr absent ↦ absurd (rw absent at h)
]

module _ (t : PageTable) (valid : TableValid t) (j a : ℕ) (page freed : PageEntry)
    (at : get_elem? t j ≡ some page) (done : free_page_for_program a page ≡ some freed) where
  one_released : IsValid freed × (owners freed ≡ without a (owners page))
  one_released =
      released a _ (owners page) freed (free_page_for_program-release a page (valid j page at)) done

  entry_after :
      (i : ℕ)
      → get_elem? (modify t j (λ _. freed)) i ≡ (if j == i then some freed else get_elem? t i)
  entry_after i = elim (Bool-cases (j == i)) [
    | inl same ↦
        let e : i ≡ j = ground arith in
        rw same
          (ap (get_elem? (modify t j (λ _. freed))) e ∙ get_elem?-modify_self t j (λ _. freed) at)
    | inr other ↦ rw other (get_elem?-modify_ne t j i (λ _. freed) (ground arith))
  ]

  modify-TableValid : TableValid (modify t j (λ _. freed))
  modify-TableValid i r e = elim (Bool-cases (j == i)) [
    | inl same ↦
        subst IsValid
          (some_inj
            (sym (entry_after i ∙ ap (λ b. if b then some freed else get_elem? t i) same) ∙ e))
          one_released.0
    | inr other ↦
        valid i r
          (sym (entry_after i ∙ ap (λ b. if b then some freed else get_elem? t i) other) ∙ e)
  ]

  owners_after :
      (q i : ℕ)
      → has q (owners_at (modify t j (λ _. freed)) i)
        ≡ (has q (owners_at t i) && not (a == q && j == i))
  owners_after q i = elim (Bool-cases (j == i)) [
    | inl same ↦
        let e : i ≡ j = ground arith in
        let before : get_elem? t i ≡ some page = ap (get_elem? t) e ∙ at in
        ground (arith, entry_after i, one_released.1, has-without q a (owners page))
    | inr other ↦ ground (arith, entry_after i)
  ]

-- Giving up the mappings keeps every entry valid, and takes from the users of each page exactly
-- the mappings of that page.
free_maps-owners :
    (ms : List Mapping) (t t' : PageTable)
    → TableValid t
    → free_maps ms t ≡ some t'
    → TableValid t'
      × ((q i : ℕ) → has q (owners_at t' i) ≡ (has q (owners_at t i) && not (maps_to q i ms)))
unfolding free_maps
free_maps-owners [] t t' v e =
    subst
      (λ u. TableValid u × ((q i : ℕ) → has q (owners_at u i) ≡ (has q (owners_at t i) && true)))
      (some_inj e) (v, λ q i. ground arith)
free_maps-owners (m ∷ ms) t t' v e = elim (Option-cases (get_elem? t m.phy_page)) [
  | inl out ↦ absurd (let e' = rw (out, free_maps) at e in cc)
  | inr (page, at) ↦ elim (Option-cases (free_page_for_program m.address page)) [
    | inl hang ↦ absurd (let e' = rw (at, hang, free_maps) at e in cc)
    | inr (freed, done) ↦
        let rest =
          free_maps-owners ms (modify t m.phy_page (λ _. freed)) t'
            (modify-TableValid t v m.phy_page m.address page freed at done)
            (rw (at, done, free_maps) at e) in
        (
          rest.0,
          λ q i.
              ground
                (arith, rest.1 q i, owners_after t v m.phy_page m.address page freed at done q i),
        )
  ]
]

-- Does the parent wait for the process?
abbrev pub is_awaited : Procs → ℕ → Bool
is_awaited procs p =
    not ((procs p).parent == 0)
    && ((procs (procs p).parent).id_wait_for == (procs p).id
        || (procs (procs p).parent).id_wait_for == any_child)

wake_parent_lem :
    (procs : Procs) (p q : ℕ)
    → let woken = is_awaited procs p && q == (procs p).parent in
      let r = wake_parent procs p q in
      (r.on_hold ≡ (if woken then false else (procs q).on_hold))
      × (r.id_wait_for_p ≡ (if woken then p else (procs q).id_wait_for_p))
      × (r.first_map ≡ (procs q).first_map)
      × (r.cleaned ≡ (procs q).cleaned)
unfolding wake_parent
wake_parent_lem procs p q = ground arith

-- What a clean-up of the process leaves behind.
pub record CleanedUp (k : Kernel) (p : ℕ) (k' : Kernel) : Type 0 where
  pub valid : TableValid k'.table
  pub given_back :
      (q i : ℕ)
      → has q (owners_at k'.table i)
        ≡ (has q (owners_at k.table i) && not (maps_to q i (k.procs p).first_map))
  pub holds :
      (q : ℕ)
      → (k'.procs q).on_hold
        ≡ (if is_awaited k.procs p && q == (k.procs p).parent then false else (k.procs q).on_hold)
  pub awaited :
      (q : ℕ)
      → (k'.procs q).id_wait_for_p
        ≡ (if is_awaited k.procs p && q == (k.procs p).parent then p else (k.procs q).id_wait_for_p)
  pub zombies : (q : ℕ) → (k'.procs q).cleaned ≡ (if q == p then true else (k.procs q).cleaned)

-- A clean-up that ends keeps every page entry valid and takes exactly the mappings of the process
-- from the users of the pages; it marks the process as cleaned, and no other; and it takes off hold
-- exactly the parent that waits for it, which learns of it.
pub process_cleanup-CleanedUp :
    (k k' : Kernel) (p : ℕ) → TableValid k.table → process_cleanup k p ≡ some k' → CleanedUp k p k'
unfolding process_cleanup
process_cleanup-CleanedUp k k' p v e =
    elim (Option-cases (free_maps (wake_parent k.procs p p).first_map k.table)) [
      | inl hang ↦ absurd (let e' = rw (hang, process_cleanup) at e in cc)
      | inr (t, done) ↦
          let freed =
            free_maps-owners (k.procs p).first_map k.table t v
              (subst (λ ms. free_maps ms k.table ≡ some t) (wake_parent_lem k.procs p p).2 done) in
          subst (CleanedUp k p) (some_inj (rw (done, process_cleanup) at e)) (record {
            valid = freed.0;
            given_back = freed.1;
            holds = λ q. ground (arith, wake_parent_lem k.procs p q);
            awaited = λ q. ground (arith, wake_parent_lem k.procs p q);
            zombies = λ q. ground (arith, wake_parent_lem k.procs p q);
          })
    ]
