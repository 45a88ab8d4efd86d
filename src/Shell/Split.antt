-- ===== src/Shell/Split.antt =====
-- Splitting at a separator is the inverse of joining, and text without needless spaces is left as it is.
use sbu_os.Prelude.{
  ℕ, ◌≡◌, refl, ap, sym, ◌∙◌, Bool, true, false, ◌&&◌, List, [], ◌∷◌, ◌++◌, append-nil,
  append_assoc, arith, ◌==◌,
}
use mathlib.Core.Path.{subst}
use sbu_os.Shell.{is_empty, strip_end, strip_front, strip_extra_space, split_at}

-- The texts with a separator between two of them.
abbrev pub join : (separator : ℕ) → List (List ℕ) → List ℕ
join separator [] = []
join separator (t ∷ []) = t
join separator (t ∷ u ∷ ts) = t ++ (separator ∷ join separator (u ∷ ts))

-- The byte is none of the text.
abbrev pub Without : ℕ → List ℕ → Type 0
Without x [] = Unit {0}
Without x (c ∷ cs) = ((c == x) ≡ false) × Without x cs

abbrev pub AllWithout : ℕ → List (List ℕ) → Type 0
AllWithout x [] = Unit {0}
AllWithout x (t ∷ ts) = Without x t × AllWithout x ts

split_at-append :
    (x : ℕ) (save t rest : List ℕ)
    → Without x t
    → split_at x save (t ++ (x ∷ rest)) ≡ (save ++ t) ∷ split_at x [] rest
unfolding split_at
split_at-append x save [] rest w =
    let here : (x == x) ≡ true = ground arith in
    rw (split_at, here) (ap (λ z. z ∷ split_at x [] rest) (sym (append-nil save)))
split_at-append x save (c ∷ t) rest w =
    let other = w.0 in
    rw (split_at, other)
      (split_at-append x (save ++ (c ∷ [])) t rest w.1
        ∙ ap (λ z. z ∷ split_at x [] rest) (append_assoc save (c ∷ []) t))

split_at-end : (x : ℕ) (save t : List ℕ) → Without x t → split_at x save t ≡ (save ++ t) ∷ []
unfolding split_at
split_at-end x save [] w = ap (λ z. z ∷ []) (sym (append-nil save))
split_at-end x save (c ∷ t) w =
    let other = w.0 in
    rw (split_at, other)
      (split_at-end x (save ++ (c ∷ [])) t w.1 ∙ ap (λ z. z ∷ []) (append_assoc save (c ∷ []) t))

pub split_at-join :
    (x : ℕ) (t : List ℕ) (ts : List (List ℕ))
    → AllWithout x (t ∷ ts)
    → split_at x [] (join x (t ∷ ts)) ≡ t ∷ ts
split_at-join x t [] w = split_at-end x [] t w.0
split_at-join x t (u ∷ ts) w =
    split_at-append x [] t (join x (u ∷ ts)) w.0 ∙ ap (λ z. t ∷ z) (split_at-join x u ts w.1)

-- No space behind a space, or at the end; `b` tells that a space is in front.
abbrev pub Neat : Bool → List ℕ → Type 0
Neat b [] = b ≡ false
Neat b (c ∷ cs) = ((c == b' ' && b) ≡ false) × Neat (c == b' ') cs

pub strip_extra_space-Neat : (b : Bool) (cs : List ℕ) → Neat b cs → strip_extra_space b cs ≡ cs
unfolding strip_extra_space
strip_extra_space-Neat b [] n = refl
strip_extra_space-Neat b (c ∷ cs) n =
    let keep = n.0 in
    rw (strip_extra_space, keep) (ap (λ z. c ∷ z) (strip_extra_space-Neat (c == b' ') cs n.1))

pub strip_end-Neat : (b : Bool) (cs : List ℕ) → Neat b cs → strip_end cs ≡ cs
unfolding strip_end
strip_end-Neat b [] n = refl
strip_end-Neat b (c ∷ []) n = let keep = n.1 in rw (strip_end, keep) refl
strip_end-Neat b (c ∷ d ∷ cs) n =
    let rest = strip_end-Neat (c == b' ') (d ∷ cs) n.1 in rw (strip_end, rest) refl

pub strip_front-Neat : (c : ℕ) (cs : List ℕ) → Neat true (c ∷ cs) → strip_front (c ∷ cs) ≡ c ∷ cs
unfolding strip_front
strip_front-Neat c cs n =
    let other : (c == b' ') ≡ false = ground (arith, n.0) in rw (strip_front, other) refl

Neat-weaken : (cs : List ℕ) → Neat true cs → Neat false cs
Neat-weaken [] n = refl
Neat-weaken (c ∷ cs) n = (ground arith, n.1)

-- Text without a space in front of neat text.
Neat-append :
    (b : Bool) (c : ℕ) (cs rest : List ℕ)
    → Without b' ' (c ∷ cs)
    → Neat false rest
    → Neat b ((c ∷ cs) ++ rest)
Neat-append b c [] rest w n = (ground (arith, w.0), subst (λ z. Neat z rest) (sym w.0) n)
Neat-append b c (d ∷ cs) rest w n = (ground (arith, w.0), Neat-append (c == b' ') d cs rest w.1 n)

-- Words: not empty, and without spaces.
abbrev pub AreWords : List (List ℕ) → Type 0
AreWords [] = Unit {0}
AreWords (t ∷ ts) = (is_empty t ≡ false) × Without b' ' t × AreWords ts

pub Neat-words :
    (t : List ℕ) (ts : List (List ℕ)) → AreWords (t ∷ ts) → Neat true (join b' ' (t ∷ ts))
Neat-words [] ts w = absurd (cc (w.0))
Neat-words (c ∷ cs) [] w =
    subst (Neat true) (append-nil (c ∷ cs)) (Neat-append true c cs [] w.1 refl)
Neat-words (c ∷ cs) (u ∷ ts) w =
    Neat-append true c cs (b' ' ∷ join b' ' (u ∷ ts)) w.1 (refl, Neat-words u ts w.2)

-- A separator that is no space, between neat texts.
Neat-separated :
    (b : Bool) (x : ℕ) (cs rest : List ℕ)
    → (x == b' ') ≡ false
    → Neat b cs
    → Neat true rest
    → Neat b (cs ++ (x ∷ rest))
Neat-separated b x [] rest other n r =
    (ground (arith, other), subst (λ z. Neat z rest) (sym other) (Neat-weaken rest r))
Neat-separated b x (c ∷ cs) rest other n r = (n.0, Neat-separated (c == b' ') x cs rest other n.1 r)

abbrev pub AllNeat : List (List ℕ) → Type 0
AllNeat [] = Unit {0}
AllNeat (t ∷ ts) = Neat true t × AllNeat ts

pub Neat-join :
    (x : ℕ) (t : List ℕ) (ts : List (List ℕ))
    → (x == b' ') ≡ false
    → AllNeat (t ∷ ts)
    → Neat true (join x (t ∷ ts))
Neat-join x t [] other n = n.0
Neat-join x t (u ∷ ts) other n =
    Neat-separated true x t (join x (u ∷ ts)) other n.0 (Neat-join x u ts other n.1)

-- Joined texts do not have a byte that neither they nor the separator have.
Without-append : (x : ℕ) (s t : List ℕ) → Without x s → Without x t → Without x (s ++ t)
Without-append x [] t v w = w
Without-append x (c ∷ s) t v w = (v.0, Without-append x s t v.1 w)

pub Without-join :
    (x y : ℕ) (ts : List (List ℕ)) → (y == x) ≡ false → AllWithout x ts → Without x (join y ts)
Without-join x y [] other w = tt
Without-join x y (t ∷ []) other w = w.0
Without-join x y (t ∷ u ∷ ts) other w =
    Without-append x t (y ∷ join y (u ∷ ts)) w.0 (other, Without-join x y (u ∷ ts) other w.1)
