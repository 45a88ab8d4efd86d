-- ===== src/Print/Bounded.antt =====
-- `kprintfa` writes into a buffer of a given size.
use sbu_os.Prelude.{
  ℕ, ◌+◌, ◌-◌, ◌≤◌, ◌≡◌, ◌≢◌, ap, sym, ◌∙◌, true, false, List, [], ◌∷◌, ◌++◌, append_assoc,
  append-nil, arith, leb, Bool-cases, inl, inr, length, take, take-cons, take-nil, length-take,
  length-append,
}
use sbu_os.Print.{format_loop, kprintfa_print, kprintfa_chars, kprintfa}

-- No character is the 0.
abbrev pub NoZero : List ℕ → Type 0
NoZero [] = Unit {0}
NoZero (c ∷ cs) = (c ≢ 0) × NoZero cs

module _ (limit : ℕ) (dest : List ℕ) (c : ℕ) (ne : c ≢ 0) where
  kprintfa_print-full : leb limit (length dest + 1) ≡ true → kprintfa_print limit dest c ≡ dest
  unfolding kprintfa_print
  kprintfa_print-full h = ground arith

  kprintfa_print-room :
      leb limit (length dest + 1) ≡ false → kprintfa_print limit dest c ≡ dest ++ (c ∷ [])
  unfolding kprintfa_print
  kprintfa_print-room h = ground arith

-- Of characters other than 0 those are kept that fit in front of the last byte.
kprintfa_chars-take :
    (limit : ℕ) (dest cs : List ℕ)
    → NoZero cs
    → kprintfa_chars limit dest cs ≡ dest ++ take (limit - 1 - length dest) cs
unfolding kprintfa_chars
kprintfa_chars-take limit dest [] n = rw (take-nil, append-nil)
kprintfa_chars-take limit dest (c ∷ cs) n = elim (Bool-cases (leb limit (length dest + 1))) [
  | inl full ↦
      let e : limit - 1 - length dest ≡ 0 = ground arith in
      rw (kprintfa_print-full limit dest c n.0 full) (
        kprintfa_chars-take limit dest cs n.1
        ∙ ap (λ k. dest ++ take k cs) e
        ∙ ap (λ k. dest ++ take k (c ∷ cs)) (sym e))
  | inr room ↦ rw (kprintfa_print-room limit dest c n.0 room) (
      kprintfa_chars-take limit (dest ++ (c ∷ [])) cs n.1
      ∙ append_assoc dest (c ∷ []) (take (limit - 1 - length (dest ++ (c ∷ []))) cs)
      ∙ ap (λ k. dest ++ (c ∷ take k cs)) (omega (arith, length-append dest (c ∷ [])))
      ∙ ap (λ t. dest ++ t) (sym (take-cons (limit - 1 - length dest) c cs (ground arith))))
]

kprintfa_print-zero : (limit : ℕ) (dest : List ℕ) → kprintfa_print limit dest 0 ≡ dest ++ (0 ∷ [])
unfolding kprintfa_print
kprintfa_print-zero limit dest = ground arith

-- `kprintfa` with a known format writes the characters of the output as far as they leave room for
-- the 0, and the 0 behind them; so with a size of at least 1 it stays inside the buffer, if no
-- character of the output is 0.
pub kprintfa_bounded :
    (texts : ℕ → List ℕ) (size : ℕ) (format args : List ℕ)
    → size ≢ 0
    → (format_loop texts format args).1 ≡ true
    → NoZero (format_loop texts format args).0
    → (kprintfa texts size format args
        ≡ take (size - 1) (format_loop texts format args).0 ++ (0 ∷ []))
      × (length (kprintfa texts size format args) ≤ size)
unfolding kprintfa
kprintfa_bounded texts size format args ne ended n =
    let out = (format_loop texts format args).0 in
    let e : kprintfa texts size format args ≡ take (size - 1) out ++ (0 ∷ []) = rw ended (
      kprintfa_print-zero size (kprintfa_chars size [] out)
      ∙ ap (λ d. d ++ (0 ∷ [])) (kprintfa_chars-take size [] out n)
      ∙ ap (λ k. take k out ++ (0 ∷ [])) (let z : size - 1 - 0 ≡ size - 1 = omega arith in z)) in
    (
      e,
      omega (
        arith,
        ap length e,
        length-append (take (size - 1) out) (0 ∷ []),
        length-take (size - 1) out,
      ),
    )
