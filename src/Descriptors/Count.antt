-- ===== src/Descriptors/Count.antt =====
-- How often an entry stands in a table of descriptors, and what the handlers do to that number and to
-- `open_count`.
use sbu_os.Prelude.{
  ℕ, zero, suc, ◌+◌, ◌≤◌, ◌<◌, ◌≡◌, ◌≢◌, refl, ap, sym, ◌∙◌, ◌⊎◌, inl, inr, Bool, false, not, ◌&&◌,
  ◌||◌, Option, none, some, some_inj, List, [], ◌∷◌, arith, ltb, leb, ◌==◌, if◌then◌else◌,
  Bool-cases, Option-cases, get_or, set, length, length-set, get_or-set_self, get_or-set_ne,
}
use mathlib.Core.Path.{subst}
use sbu_os.Prelude.Int.{ℤ, pos, negsuc, incr, decr}
use sbu_os.Process.{close_files}
use sbu_os.Descriptors.{
  fd_size, Counts, opened_again, closed_once, opened, close_fd, sys_close, dup_to, sys_dup,
  is_outfd, find_fd, sys_pipe, sys_open_fd, dup_files,
}

-- 1 if `x` is `f`, 0 otherwise.
abbrev pub is_one : (x f : ℕ) → ℕ
is_one x f = if x == f then 1 else 0

-- How often `f` stands in the table.
abbrev pub count : (f : ℕ) → List ℕ → ℕ
count f [] = 0
count f (x ∷ xs) = is_one x f + count f xs

-- b + n
abbrev pub add : (b : ℤ) → (n : ℕ) → ℤ
add b zero = b
add b (suc n) = incr (add b n)

decr-incr : (z : ℤ) → decr (incr z) ≡ z
decr-incr (pos n) = refl
decr-incr (negsuc zero) = refl
decr-incr (negsuc (suc n)) = refl

add-decr : (b z : ℤ) (m n : ℕ) → z ≡ add b m → m ≡ suc n → decr z ≡ add b n
add-decr b z m n h e = ap decr (h ∙ ap (add b) e) ∙ decr-incr (add b n)

add-incr : (b z : ℤ) (m n : ℕ) → z ≡ add b m → n ≡ suc m → incr z ≡ add b n
add-incr b z m n h e = ap incr h ∙ ap (add b) (sym e)

count-set :
    (f : ℕ) (t : List ℕ) (i y : ℕ)
    → i < length t
    → count f (set t i y) + is_one (get_or t i 0) f ≡ count f t + is_one y f
count-set f [] i y h = absurd (omega arith)
count-set f (x ∷ xs) zero y h = omega arith
count-set f (x ∷ xs) (suc i) y h = omega (arith, count-set f xs i y)

get_or-count : (f : ℕ) (t : List ℕ) (i : ℕ) → get_or t i 0 ≡ f → f ≢ 0 → 1 ≤ count f t
get_or-count f [] i h ne = absurd (ne (sym h))
get_or-count f (x ∷ xs) zero h ne = ground arith
get_or-count f (x ∷ xs) (suc i) h ne = omega (arith, get_or-count f xs i h ne)

get_or-used : (t : List ℕ) (i : ℕ) → get_or t i 0 ≢ 0 → i < length t
get_or-used [] i h = absurd (h refl)
get_or-used (x ∷ xs) zero h = omega arith
get_or-used (x ∷ xs) (suc i) h = omega (arith, get_or-used xs i)

-- What a handler does for an entry with other references, `n` of them: the difference of `open_count`
-- and the number of references stays. Entries from `lo` on were not in use; those from `hi` on still
-- are not.
pub record Effect (t t' : List ℕ) (c c' : Counts) (lo hi : ℕ) : Type 0 where
  pub sized : (length t' ≡ length t) ⊎ (t' ≡ [])
  pub counted :
      (f : ℕ) (b : ℤ) (n : ℕ)
      → f ≢ 0
      → (lo ≤ f → (b ≡ pos 0) × (count f t + n ≡ 0))
      → c f ≡ add b (count f t + n)
      → c' f ≡ add b (count f t' + n)
  pub unused : (f : ℕ) → f ≢ 0 → hi ≤ f → count f t ≡ 0 → count f t' ≡ 0

pub Effect-refl : (t : List ℕ) (c : Counts) (lo hi : ℕ) → Effect t t c c lo hi
Effect-refl t c lo hi = record {
  sized = inl refl;
  counted = λ f b n ne new h. h;
  unused = λ f ne h e. e;
}

pub close_fd-Effect :
    (t : List ℕ) (c : Counts) (fd lo : ℕ) → Effect t (close_fd t c fd).0 c (close_fd t c fd).1 lo lo
unfolding close_fd
close_fd-Effect t c fd lo = elim (Bool-cases (get_or t fd 0 == 0)) [
  | inl free ↦ rw (close_fd, free) (Effect-refl t c lo lo)
  | inr used ↦
      let x = get_or t fd 0 in
      let inside = get_or-used t fd (ground arith) in
      rw (close_fd, used)
        (record {
          sized = inl (length-set t fd 0);
          counted = λ f b n ne new h.
              let fewer = count-set f t fd 0 inside in
              elim (Bool-cases (f == x)) [
                | inl this ↦
                    rw this
                      (add-decr b (c f) (count f t + n) (count f (set t fd 0) + n) h (ground arith))
                | inr other ↦
                    let same : count f t + n ≡ count f (set t fd 0) + n = ground arith in
                    rw other (h ∙ ap (add b) same)
              ];
          unused = λ f ne h e. ground (arith, count-set f t fd 0 inside);
        })
]

-- An entry that the table has already goes to a free place as well.
again-Effect :
    (t : List ℕ) (c : Counts) (x i lo : ℕ)
    → x ≢ 0
    → get_or t i 0 ≡ 0
    → i < length t
    → 1 ≤ count x t
    → Effect t (set t i x) c (opened_again x c) lo lo
again-Effect t c x i lo some_x free inside there = record {
  sized = inl (length-set t i x);
  counted = λ f b n ne new h.
      let more = count-set f t i x inside in
      elim (Bool-cases (f == x)) [
        | inl this ↦
            rw this (add-incr b (c f) (count f t + n) (count f (set t i x) + n) h (ground arith))
        | inr other ↦
            let same : count f t + n ≡ count f (set t i x) + n = ground arith in
            rw other (h ∙ ap (add b) same)
      ];
  unused = λ f ne h e. ground (arith, count-set f t i x inside);
}

-- A new entry goes to a free place.
new-Effect :
    (t : List ℕ) (c : Counts) (x i lo hi : ℕ)
    → x ≢ 0
    → get_or t i 0 ≡ 0
    → i < length t
    → lo ≤ x
    → x < hi
    → Effect t (set t i x) c (opened x c) lo hi
new-Effect t c x i lo hi some_x free inside from to = record {
  sized = inl (length-set t i x);
  counted = λ f b n ne new h.
      let more = count-set f t i x inside in
      elim (Bool-cases (f == x)) [
        | inl this ↦
            let (b0, n0) = new (ground arith) in
            let one : 1 ≡ count f (set t i x) + n = ground arith in
            rw this (ap (λ z. add z 1) (sym b0) ∙ ap (add b) one)
        | inr other ↦
            let same : count f t + n ≡ count f (set t i x) + n = ground arith in
            rw other (h ∙ ap (add b) same)
      ];
  unused = λ f ne h e. ground (arith, count-set f t i x inside);
}

Effect-chain :
    (t t' t'' : List ℕ) (c c' c'' : Counts) (lo mid hi : ℕ)
    → Effect t t' c c' lo mid
    → Effect t' t'' c' c'' mid hi
    → mid ≤ hi
    → lo ≤ mid
    → Effect t t'' c c'' lo hi
Effect-chain t t' t'' c c' c'' lo mid hi first second h k = record {
  sized = ground (arith, first.sized, second.sized);
  counted = λ f b n ne new e.
      second.counted f b n ne
        (λ from. let (b0, n0) = new (omega arith) in (b0, ground (arith, first.unused f ne from)))
        (first.counted f b n ne new e);
  unused = λ f ne from e. second.unused f ne from (first.unused f ne (omega arith) e);
}

-- A table has FD_SIZE places, or none once its process is gone.
abbrev pub IsSized : List ℕ → Type 0
IsSized t = (length t ≡ fd_size) ⊎ (t ≡ [])

pub sys_close-Effect :
    (t : List ℕ) (c : Counts) (fd lo : ℕ)
    → Effect t (sys_close t c fd).1 c (sys_close t c fd).2 lo lo
unfolding sys_close
sys_close-Effect t c fd lo = elim (Bool-cases (leb fd_size fd)) [
  | inl out ↦ rw (sys_close, out) (Effect-refl t c lo lo)
  | inr inside ↦ rw (sys_close, inside) (close_fd-Effect t c fd lo)
]

close_fd-free : (t : List ℕ) (c : Counts) (fd : ℕ) → get_or (close_fd t c fd).0 fd 0 ≡ 0
unfolding close_fd
close_fd-free t c fd = elim (Bool-cases (get_or t fd 0 == 0)) [
  | inl free ↦ ground arith
  | inr used ↦ rw (close_fd, used) (get_or-set_self t fd 0 0 (get_or-used t fd (ground arith)))
]

dup_to-Effect :
    (t : List ℕ) (c : Counts) (oldfd newfd lo : ℕ)
    → IsSized t
    → newfd < fd_size
    → get_or t newfd 0 ≡ 0
    → Effect t (dup_to t c oldfd newfd).1 c (dup_to t c oldfd newfd).2 lo lo
unfolding dup_to
dup_to-Effect t c oldfd newfd lo (inr gone) h free = rw gone (Effect-refl [] c lo lo)
dup_to-Effect t c oldfd newfd lo (inl full) h free = elim (Bool-cases (get_or t oldfd 0 == 0)) [
  | inl missing ↦ rw (dup_to, missing) (Effect-refl t c lo lo)
  | inr there ↦
      let some_f : get_or t oldfd 0 ≢ 0 = ground arith in
      rw (dup_to, there)
        (again-Effect t c (get_or t oldfd 0) newfd lo some_f free (omega arith)
          (get_or-count (get_or t oldfd 0) t oldfd refl some_f))
]

pub sys_dup-Effect :
    (t : List ℕ) (c : Counts) (oldfd newfd lo : ℕ) (r : ℤ × List ℕ × Counts)
    → IsSized t
    → sys_dup t c oldfd newfd ≡ some r
    → Effect t r.1 c r.2 lo lo
unfolding sys_dup
sys_dup-Effect t c oldfd newfd lo r sized h =
    elim (Bool-cases (ltb fd_size oldfd || ltb fd_size newfd)) [
      | inl out ↦
          subst (λ (q : ℤ × List ℕ × Counts). Effect t q.1 c q.2 lo lo)
            (some_inj (rw (sys_dup, out) at h)) (Effect-refl t c lo lo)
      | inr inside ↦ elim (Bool-cases (oldfd == fd_size || newfd == fd_size)) [
        | inl behind ↦ absurd (cc (rw (sys_dup, inside, behind) at h))
        | inr good ↦
            let freed = (close_fd t c newfd).0 in
            let c1 = (close_fd t c newfd).1 in
            let first = close_fd-Effect t c newfd lo in
            let sized' : IsSized freed = ground (arith, first.sized) in
            subst (λ (q : ℤ × List ℕ × Counts). Effect t q.1 c q.2 lo lo)
              (some_inj (rw (sys_dup, inside, good) at h))
              (Effect-chain t freed (dup_to freed c1 oldfd newfd).1 c c1
                (dup_to freed c1 oldfd newfd).2 lo lo lo first
                (dup_to-Effect freed c1 oldfd newfd lo sized' (ground arith)
                  (close_fd-free t c newfd))
                (omega arith) (omega arith))
      ]
    ]

-- What the search for a free descriptor finds.
pub find_fd-free :
    (t : List ℕ) (k i : ℕ) (outfd : Option ℕ)
    → find_fd t k outfd ≡ some i
    → (j : ℕ) × (i ≡ k + j) × (j < length t) × (get_or t j 0 ≡ 0) × (is_outfd outfd i ≡ false)
unfolding find_fd
find_fd-free [] k i outfd h = absurd (cc h)
find_fd-free (x ∷ xs) k i outfd h = elim (Bool-cases (x == 0 && not (is_outfd outfd k))) [
  | inl found ↦
      let e : k ≡ i = some_inj (rw (find_fd, found) at h) in
      (0, omega arith, omega arith, ground arith, ap (is_outfd outfd) (sym e) ∙ ground arith)
  | inr missed ↦
      let (j, e, inside, free, passed) =
        find_fd-free xs (k + 1) i outfd (rw (find_fd, missed) at h) in
      (suc j, omega arith, omega arith, free, passed)
]

pub sys_open_fd-Effect :
    (t : List ℕ) (c : Counts) (low_bits lo : ℕ) (found : Bool)
    → lo ≢ 0
    → Effect t
        (sys_open_fd t c low_bits (if found then some lo else none)).1
        c
        (sys_open_fd t c low_bits (if found then some lo else none)).2
        lo
        (lo + 1)
unfolding sys_open_fd
sys_open_fd-Effect t c low_bits lo found nz = elim (Option-cases (find_fd t 0 none)) [
  | inl full ↦ rw (sys_open_fd, full) (Effect-refl t c lo (lo + 1))
  | inr (i, place) ↦
      let (j, e, inside, free, passed) = find_fd-free t 0 i none place in
      let same : j ≡ i = omega arith in
      elim (Bool-cases (ltb 1 low_bits)) [
        | inl bad ↦ rw (sys_open_fd, place, bad) (Effect-refl t c lo (lo + 1))
        | inr good ↦ elim (Bool-cases found) [
          | inl yes' ↦
              rw (sys_open_fd, place, good, yes')
                (new-Effect t c lo i lo (lo + 1) nz (rw same at free) (omega arith) (omega arith)
                  (omega arith))
          | inr missing ↦ rw (sys_open_fd, place, good, missing) (Effect-refl t c lo (lo + 1))
        ]
      ]
]

pub sys_pipe-Effect :
    (t : List ℕ) (c : Counts) (lo : ℕ)
    → lo ≢ 0
    → Effect t (sys_pipe t c lo (lo + 1)).2 c (sys_pipe t c lo (lo + 1)).3 lo (lo + 2)
unfolding sys_pipe
sys_pipe-Effect t c lo nz = elim (Option-cases (find_fd t 0 none)) [
  | inl full ↦ rw (sys_pipe, full) (Effect-refl t c lo (lo + 2))
  | inr (o, first) ↦ elim (Option-cases (find_fd t 0 (some o))) [
    | inl full ↦ rw (sys_pipe, first, full) (Effect-refl t c lo (lo + 2))
    | inr (i, second) ↦
        let (j, e, inside, free, passed) = find_fd-free t 0 o none first in
        let (k, e', inside', free', passed') = find_fd-free t 0 i (some o) second in
        let same : j ≡ o = omega arith in
        let same' : k ≡ i = omega arith in
        let apart : o ≢ i = λ q. ground arith in
        let still : get_or (set t o lo) i 0 ≡ 0 =
          get_or-set_ne t o i lo 0 apart ∙ rw same' at free' in
        let size = length-set t o lo in
        rw (sys_pipe, first, second)
          (Effect-chain t (set t o lo) (set (set t o lo) i (lo + 1)) c (opened lo c)
            (opened (lo + 1) (opened lo c)) lo (lo + 1) (lo + 2)
            (new-Effect t c lo o lo (lo + 1) nz (rw same at free) (omega arith) (omega arith)
              (omega arith))
            (new-Effect (set t o lo) (opened lo c) (lo + 1) i (lo + 1) (lo + 2) (omega arith) still
              (omega arith) (omega arith) (omega arith))
            (omega arith) (omega arith))
  ]
]

add_zero : (m : ℕ) → m ≡ m + 0
add_zero m = omega arith

pub zero_add : (m : ℕ) → m ≡ 0 + m
zero_add m = omega arith

-- The copy of a table counts each of its entries once more.
pub dup_files-add :
    (t : List ℕ) (c : Counts) (f : ℕ) (b : ℤ) (m : ℕ)
    → f ≢ 0
    → c f ≡ add b m
    → dup_files t c f ≡ add b (m + count f t)
unfolding dup_files
dup_files-add [] c f b m ne h = h ∙ ap (add b) (add_zero m)
dup_files-add (x ∷ xs) c f b m ne h =
    let c' : Counts = if x == 0 then c else opened_again x c in
    elim (Bool-cases (f == x)) [
      | inl this ↦
          let some_x : (x == 0) ≡ false = ground arith in
          let here : c' f ≡ add b (suc m) = rw (some_x, this) (ap incr h) in
          let same : suc m + count f xs ≡ m + count f (x ∷ xs) = ground arith in
          dup_files-add xs c' f b (suc m) ne here ∙ ap (add b) same
      | inr other ↦
          let here : c' f ≡ add b m = ground arith in
          let same : m + count f xs ≡ m + count f (x ∷ xs) = ground arith in
          dup_files-add xs c' f b m ne here ∙ ap (add b) same
    ]

-- The clean-up closes every descriptor of the table.
pub close_files-add :
    (t : List ℕ) (c : Counts) (f : ℕ) (b : ℤ) (m : ℕ)
    → f ≢ 0
    → c f ≡ add b (count f t + m)
    → close_files t c f ≡ add b m
unfolding close_files
close_files-add [] c f b m ne h = h ∙ ap (add b) (sym (zero_add m))
close_files-add (x ∷ xs) c f b m ne h =
    let c' : Counts = if x == 0 then c else closed_once x c in
    elim (Bool-cases (f == x)) [
      | inl this ↦
          let some_x : (x == 0) ≡ false = ground arith in
          let here : c' f ≡ add b (count f xs + m) =
            rw (some_x, this)
              (add-decr b (c f) (count f (x ∷ xs) + m) (count f xs + m) h (ground arith)) in
          close_files-add xs c' f b m ne here
      | inr other ↦
          let same : count f (x ∷ xs) + m ≡ count f xs + m = ground arith in
          let here : c' f ≡ add b (count f xs + m) = ground (arith, h ∙ ap (add b) same) in
          close_files-add xs c' f b m ne here
    ]
