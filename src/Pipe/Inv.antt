-- ===== src/Pipe/Inv.antt =====
-- The invariant of the ring buffer, and the queue that it stands for.
use sbu_os.Prelude.{
  ℕ, zero, suc, ◌+◌, ◌-◌, ◌<◌, ◌≡◌, refl, ap, ap₂, List, [], ◌∷◌, ◌++◌, arith, ltb, if◌then◌else◌,
  length, get_or, set, length-replicate, get_or-set_self, get_or-set_ne,
}
use sbu_os.Pipe.{buffer_size, FileEntry, generate_entry_pair, advance}

-- Both cursors lie inside the buffer.
pub record IsValid (f : FileEntry) : Type 0 where
  pub storage : length f.buffer ≡ buffer_size
  pub consumer_in : f.buffer_c_c < buffer_size
  pub producer_in : f.buffer_p_c < buffer_size

-- The number of bytes between the cursors.
abbrev pub count : FileEntry → ℕ
count f =
    if ltb f.buffer_c_c f.buffer_p_c
    then f.buffer_p_c - f.buffer_c_c - 1
    else f.buffer_p_c + buffer_size - f.buffer_c_c - 1

-- The `n` bytes from index `i` on, going round at the end.
unfoldable pub window : List ℕ → ℕ → ℕ → List ℕ
window buf i zero = []
window buf i (suc n) = get_or buf i 0 ∷ window buf (advance i) n

-- What the pipe holds, oldest byte first.
abbrev pub contents : FileEntry → List ℕ
contents f = window f.buffer (advance f.buffer_c_c) (count f)

pub length-window : (buf : List ℕ) (i n : ℕ) → length (window buf i n) ≡ n
unfolding window
length-window buf i zero = refl
length-window buf i (suc n) = ap suc (length-window buf (advance i) n)

-- `n` steps on from index `i`.
abbrev pub position : ℕ → ℕ → ℕ
position i n = if ltb (i + n) buffer_size then i + n else i + n - buffer_size

-- Writing just past a window extends it by that byte.
pub window-set :
    (buf : List ℕ) (x n i j : ℕ)
    → length buf ≡ buffer_size
    → i < buffer_size
    → suc n < buffer_size
    → j ≡ position i n
    → window (set buf j x) i (suc n) ≡ window buf i n ++ (x ∷ [])
unfolding window
window-set buf x zero i j s hi hn e = ap (λ t. t ∷ []) (ground (arith, get_or-set_self buf j x 0))
window-set buf x (suc n) i j s hi hn e =
    ap₂ ◌∷◌ (get_or-set_ne buf j i x 0 (ground arith))
      (window-set buf x n (advance i) j s (ground arith) (omega arith) (ground arith))

-- The cursors and the buffer of the bytes of `generate_entry_pair`.
pub generate_entry_pair-IsValid :
    IsValid generate_entry_pair.output
    × (contents generate_entry_pair.output ≡ [])
    × IsValid generate_entry_pair.input
unfolding generate_entry_pair window
generate_entry_pair-IsValid = (v, refl, w)
  where
    v : IsValid generate_entry_pair.output
    v = record {
      storage = length-replicate {A = ℕ} buffer_size 0;
      consumer_in = omega arith;
      producer_in = omega arith;
    }

    w : IsValid generate_entry_pair.input
    w = record {
      storage = length-replicate {A = ℕ} buffer_size 0;
      consumer_in = omega arith;
      producer_in = omega arith;
    }
