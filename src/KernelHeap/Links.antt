-- ===== src/KernelHeap/Links.antt =====
-- sys/memory/kmalloc.c: what happens to the links of the free list around a block, and what stays as it
-- was.
use sbu_os.Prelude.{
  ℕ, ◌+◌, ◌*◌, ◌≤◌, ◌<◌, ◌≡◌, ◌≢◌, refl, ◌∙◌, ◌⊎◌, inl, inr, true, false, List, [], ◌∷◌, arith,
  ◌==◌, if◌then◌else◌, Bool-cases,
}
use mathlib.Core.Path.{subst}
use sbu_os.Paging.{Words}
use sbu_os.KernelHeap.{SfHeap, write_if}
use sbu_os.KernelHeap.Tags.{write-other}
use sbu_os.KernelHeap.Tiles.{Block, Tiles, IsTag, IsHead, IsLink, link-no_tag}

-- The block of `n` units at `h` has the neighbours `next` and `prev` in the free list, or NULL. Then the
-- next one leads back to `to_next`, and the previous one, or the head of the list, on to `to_prev`.
-- Outside of the block no other word has changed, and nothing of the heap but its head.
pub record Relinked (s : SfHeap) (h n next prev to_next to_prev : ℕ) (s' : SfHeap) : Type 0 where
  pub next_link : (next ≡ 0) ⊎ (s'.words (next + 16) ≡ to_next)
  pub prev_link :
      ((prev ≡ 0) × (s'.freelist_head ≡ to_prev))
      ⊎ ((prev ≢ 0) × (s'.words (prev + 8) ≡ to_prev) × (s'.freelist_head ≡ s.freelist_head))
  pub others :
      (x : ℕ)
      → (x < h) ⊎ (h + 16 * n ≤ x)
      → (next ≡ 0) ⊎ (x ≢ next + 16)
      → (prev ≡ 0) ⊎ (x ≢ prev + 8)
      → s'.words x ≡ s.words x
  pub same_heap :
      (s'.heap_start_ptr ≡ s.heap_start_ptr)
      × (s'.first_page_initialized ≡ s.first_page_initialized)
      × (s'.break ≡ s.break)

pub write_if-other : (m : Words) (p d v x : ℕ) → (p ≡ 0) ⊎ (x ≢ p + d) → write_if m p d v x ≡ m x
write_if-other m p d v x h = elim (Bool-cases (p == 0)) [
  | inl null ↦ rw null refl
  | inr there ↦ elim h [
    | inl e ↦ absurd (ground arith)
    | inr ne ↦ rw there (write-other m (p + d) v x ne)
  ]
]

write_if-at : (m : Words) (p d v : ℕ) → p ≢ 0 → write_if m p d v (p + d) ≡ v
write_if-at m p d v ne =
    let there : (p == 0) ≡ false = ground (arith, ne) in
    let same : (p + d == p + d) ≡ true = ground arith in rw (there, same) refl

pub IsHead-IsTag : (a x : ℕ) (bs : List Block) → IsHead a bs x → IsTag a bs x
IsHead-IsTag a x [] h = h
IsHead-IsTag a x (b ∷ bs) (inl e) = inl e
IsHead-IsTag a x (b ∷ bs) (inr h) = inr (inr (IsHead-IsTag (a + 16 * b.size) x bs h))

-- Two links are at different words.
links-apart :
    (m : Words) (a stop p q : ℕ) (bs : List Block)
    → Tiles m a bs stop
    → IsLink a bs p
    → IsLink a bs q
    → p ≢ 0
    → (q ≡ 0) ⊎ (p + 16 ≢ q + 8)
links-apart m a stop p q bs t (inl e) k ne = absurd (ne e)
links-apart m a stop p q bs t (inr i) (inl e) ne = inl e
links-apart m a stop p q bs t (inr i) (inr j) ne = inr λ z.
    link-no_tag m a stop p 8 bs t i (omega arith) (omega arith)
      (subst (IsTag a bs) (omega (arith, z)) (IsHead-IsTag a q bs j))

-- The two links of a block are at other words than those of another one.
pub two-links :
    (m : Words) (a stop h p d e : ℕ) (bs : List Block)
    → Tiles m a bs stop
    → IsHead a bs h
    → IsLink a bs p
    → p ≢ h
    → (d ≡ 8) ⊎ (d ≡ 16)
    → (e ≡ 8) ⊎ (e ≡ 16)
    → (p ≡ 0) ⊎ (h + e ≢ p + d)
two-links m a stop h p d e bs t i (inl null) ne kd ke = inl null
two-links m a stop h p d e bs t i (inr j) ne (inl kd) (inl ke) = inr λ z. ne (omega arith)
two-links m a stop h p d e bs t i (inr j) ne (inr kd) (inr ke) = inr λ z. ne (omega arith)
two-links m a stop h p d e bs t i (inr j) ne (inl kd) (inr ke) = inr λ z.
    link-no_tag m a stop h 8 bs t i (omega arith) (omega arith)
      (subst (IsTag a bs) (omega (arith, z)) (IsHead-IsTag a p bs j))
two-links m a stop h p d e bs t i (inr j) ne (inr kd) (inl ke) = inr λ z.
    link-no_tag m a stop p 8 bs t j (omega arith) (omega arith)
      (subst (IsTag a bs) (omega (arith, z)) (IsHead-IsTag a h bs i))

-- Memory that has changed in the block at most, and then in the two links.
pub relinked :
    (s : SfHeap) (h n next prev to_next to_prev start stop : ℕ) (bs : List Block) (m m' : Words)
    → Tiles m start bs stop
    → IsLink start bs next
    → IsLink start bs prev
    → ((x : ℕ) → (x < h) ⊎ (h + 16 * n ≤ x) → m' x ≡ s.words x)
    → Relinked s h n next prev to_next to_prev (record s {
      words = write_if (write_if m' next 16 to_next) prev 8 to_prev;
      freelist_head = if prev == 0 then to_prev else s.freelist_head;
    })
relinked s h n next prev to_next to_prev start stop bs m m' t next_is prev_is same =
    let m2 : Words = write_if m' next 16 to_next in
    record {
      next_link = elim (Bool-cases (next == 0)) [
        | inl null ↦ inl (ground (arith, null))
        | inr there ↦
            let ne : next ≢ 0 = ground (arith, there) in
            inr (
              write_if-other m2 prev 8 to_prev (next + 16)
                (links-apart m start stop next prev bs t next_is prev_is ne)
              ∙ write_if-at m' next 16 to_next ne)
      ];
      prev_link = elim (Bool-cases (prev == 0)) [
        | inl null ↦ inl (ground (arith, null), rw null refl)
        | inr there ↦
            let ne : prev ≢ 0 = ground (arith, there) in
            inr (ne, write_if-at m2 prev 8 to_prev ne, rw there refl)
      ];
      others = λ x out n16 p8.
          write_if-other m2 prev 8 to_prev x p8
          ∙ write_if-other m' next 16 to_next x n16
          ∙ same x out;
      same_heap = (refl, refl, refl);
    }
