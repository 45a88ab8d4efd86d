-- ===== src/Paging/Laws.antt =====
-- What `set_pte_rw` changes, and what it leaves to `translate_cr3`.
use sbu_os.Prelude.{
  ℕ, ◌/◌, ◌%◌, ◌^◌, ◌≡◌, ◌≢◌, refl, Bool, true, false, Option, none, some, arith, ◌==◌,
  if◌then◌else◌, Bool-cases, Option-cases, inl, inr,
}
use sbu_os.Paging.{
  Words, is_present, slot, next_entry, pte_slot, translate_cr3, write_word, with_rw, set_pte_rw,
  ◌>>=◌,
}

-- The two memories lead every walk the same way: they agree in the present bits and the frames.
pub record SameWalks (m m' : Words) : Type 0 where
  pub present : (a : ℕ) → m' a % 2 ≡ m a % 2
  pub frames : (a : ℕ) → m' a / 4096 % 2 ^ 40 ≡ m a / 4096 % 2 ^ 40

-- Two entries that agree in the present bit and the frame.
abbrev Alike : Option ℕ → Option ℕ → Type 0
Alike none none = Unit {0}
Alike none (some y) = ⊥
Alike (some x) none = ⊥
Alike (some x) (some y) = x / 4096 % 2 ^ 40 ≡ y / 4096 % 2 ^ 40

entry-Alike :
    (e e' : ℕ)
    → e' % 2 ≡ e % 2
    → e' / 4096 % 2 ^ 40 ≡ e / 4096 % 2 ^ 40
    → Alike (if is_present e' then some e' else none) (if is_present e then some e else none)
entry-Alike e e' p f = elim (Bool-cases (is_present e)) [
  | inl h ↦ let h' : is_present e' ≡ true = ground arith in rw (h, h') f
  | inr h ↦ let h' : is_present e' ≡ false = ground arith in rw (h, h') tt
]

module _ {m m' : Words} (s : SameWalks m m') where
  next_entry-Alike :
      (x y v shift : ℕ)
      → y / 4096 % 2 ^ 40 ≡ x / 4096 % 2 ^ 40
      → Alike (next_entry m' y v shift) (next_entry m x v shift)
  unfolding next_entry
  next_entry-Alike x y v shift e =
      rw e (entry-Alike _ _ (s.present (slot x v shift)) (s.frames (slot x v shift)))

  -- One level of the two walks, and what follows it.
  bind-eq :
      (o o' : Option ℕ) (f f' : ℕ → Option ℕ)
      → Alike o' o
      → ((x y : ℕ) → y / 4096 % 2 ^ 40 ≡ x / 4096 % 2 ^ 40 → f' y ≡ f x)
      → (o' >>= f') ≡ (o >>= f)
  bind-eq none none f f' a k = refl
  bind-eq none (some y) f f' a k = absurd a
  bind-eq (some x) none f f' a k = absurd a
  bind-eq (some x) (some y) f f' a k = k x y a

  pte_slot-SameWalks : (p v : ℕ) → pte_slot m' p v ≡ pte_slot m p v
  unfolding pte_slot
  pte_slot-SameWalks p v = bind-eq _ _ _ _ (next_entry-Alike p p v 39 refl) λ x y e.
      bind-eq _ _ _ _ (next_entry-Alike x y v 30 e)
        λ x y e. bind-eq _ _ _ _ (next_entry-Alike x y v 21 e) λ x y e. rw e

  translate_cr3-SameWalks : (p v : ℕ) → translate_cr3 m' p v ≡ translate_cr3 m p v
  unfolding translate_cr3
  translate_cr3-SameWalks p v = elim (Option-cases (pte_slot m p v)) [
    | inl e ↦ ground (arith, pte_slot-SameWalks p v)
    | inr (a, e) ↦ ground (arith, pte_slot-SameWalks p v, s.present a, s.frames a)
  ]

-- What `set_pte_rw` did: the write bit of the entry of the address, if that is present, and nothing
-- otherwise.
pub record PteSet (m : Words) (p v : ℕ) (writable : Bool) (out : Bool × Words) : Type 0 where
  pub walks : SameWalks m out.1
  pub bit :
      (a : ℕ)
      → pte_slot m p v ≡ some a
      → is_present (m a) ≡ true
      → (out.0 ≡ true) × (out.1 a / 2 % 2 ≡ (if writable then 1 else 0))
  pub elsewhere : (a : ℕ) → pte_slot m p v ≢ some a → out.1 a ≡ m a
  pub missing : out.0 ≡ false → (a : ℕ) → out.1 a ≡ m a
  pub unmapped :
      ((a : ℕ) → pte_slot m p v ≡ some a → is_present (m a) ≡ false)
      → (out.0 ≡ false) × ((a : ℕ) → out.1 a ≡ m a)

with_rw_bits :
    (e : ℕ) (writable : Bool)
    → (with_rw e writable % 2 ≡ e % 2)
      × (with_rw e writable / 4096 % 2 ^ 40 ≡ e / 4096 % 2 ^ 40)
      × (with_rw e writable / 2 % 2 ≡ (if writable then 1 else 0))
with_rw_bits e true = omega arith
with_rw_bits e false = omega arith

write-SameWalks :
    (m : Words) (a : ℕ) (writable : Bool) → SameWalks m (write_word m a (with_rw (m a) writable))
write-SameWalks m a writable = record {
  present = λ b. ground (arith, with_rw_bits (m a) writable);
  frames = λ b. ground (arith, with_rw_bits (m a) writable);
}

PteSet-same :
    (m : Words) (p v : ℕ) (writable : Bool)
    → ((a : ℕ) → pte_slot m p v ≡ some a → is_present (m a) ≡ false)
    → PteSet m p v writable (false, m)
PteSet-same m p v writable absent = record {
  walks = record { present = λ a. refl; frames = λ a. refl };
  bit = λ a e h. ground (arith, absent a);
  elsewhere = λ a h. refl;
  missing = λ h a. refl;
  unmapped = λ h. (refl, λ a. refl);
}

PteSet-written :
    (m : Words) (p v : ℕ) (writable : Bool) (a : ℕ)
    → pte_slot m p v ≡ some a
    → is_present (m a) ≡ true
    → PteSet m p v writable (true, write_word m a (with_rw (m a) writable))
PteSet-written m p v writable a e h = record {
  walks = write-SameWalks m a writable;
  bit = λ b k l. ground (arith, with_rw_bits (m a) writable);
  elsewhere = λ b k. elim (Bool-cases (b == a)) [
    | inl same ↦ absurd (k (let e' : b ≡ a = ground arith in rw e' e))
    | inr other ↦ rw other
  ];
  missing = λ k b. absurd (cc k);
  unmapped = λ k. let no = k a e in absurd (cc (no, h));
}

-- `set_pte_rw` changes the write bit of the page table entry of a mapped address to the one asked
-- for and returns 1; for an address without a present entry it returns 0 and changes nothing. In
-- either case no walk changes its way, and no other word changes.
pub set_pte_rw-PteSet :
    (m : Words) (p v : ℕ) (writable : Bool) → PteSet m p v writable (set_pte_rw m p v writable)
unfolding set_pte_rw
set_pte_rw-PteSet m p v writable = elim (Option-cases (pte_slot m p v)) [
  | inl e ↦ rw (e, set_pte_rw) (PteSet-same m p v writable (λ a h. absurd (cc e)))
  | inr (a, e) ↦
      rw (e, set_pte_rw)
        (elim (Bool-cases (is_present (m a))) [
          | inl h ↦ rw h (PteSet-written m p v writable a e h)
          | inr h ↦ rw h (PteSet-same m p v writable (λ b k. ground arith))
        ])
]

-- `set_pte_rw` leaves the translation of every address as it was, in every page table.
pub translate_cr3-set_pte_rw :
    (m : Words) (p v : ℕ) (writable : Bool) (p' v' : ℕ)
    → translate_cr3 (set_pte_rw m p v writable).1 p' v' ≡ translate_cr3 m p' v'
translate_cr3-set_pte_rw m p v writable p' v' =
    translate_cr3-SameWalks (set_pte_rw-PteSet m p v writable).walks p' v'
