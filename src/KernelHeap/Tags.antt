-- ===== src/KernelHeap/Tags.antt =====
-- The fields of a header that was written, and the two words that a block starts and ends with.
use sbu_os.Prelude.{ℕ, ◌+◌, ◌-◌, ◌*◌, ◌/◌, ◌%◌, ◌^◌, ◌≤◌, ◌<◌, ◌≡◌, ◌≢◌, ap, ◌∙◌, arith}
use sbu_os.Paging.{Words, write_word}
use sbu_os.KernelHeap.{alloc, block_size, header, get_footer}

header-alloc : (a s r : ℕ) → header a s r % 16 ≡ a % 16
header-alloc a s r = omega arith

header-size : (a s r : ℕ) → header a s r / 16 % 2 ^ 28 ≡ s % 2 ^ 28
header-size a s r = omega arith

-- A word that says a block of `size` has the state `state`.
pub record IsTagged (m : Words) (a state size : ℕ) : Type 0 where
  pub state_is : alloc m a ≡ state
  pub size_is : block_size m a ≡ size

pub written-IsTagged :
    (m : Words) (a state size r : ℕ)
    → state < 16
    → size < 2 ^ 28
    → IsTagged (write_word m a (header state size r)) a state size
written-IsTagged m a state size r l k =
    let e : write_word m a (header state size r) a ≡ header state size r = ground arith in
    record {
      state_is = ap (λ w. w % 16) e ∙ header-alloc state size r ∙ omega arith;
      size_is = ap (λ w. w / 16 % 2 ^ 28) e ∙ header-size state size r ∙ omega arith;
    }

pub IsTagged-kept :
    (m m' : Words) (a state size : ℕ)
    → m' a ≡ m a
    → IsTagged m a state size
    → IsTagged m' a state size
IsTagged-kept m m' a state size e t = record {
  state_is = ap (λ w. w % 16) e ∙ t.state_is;
  size_is = ap (λ w. w / 16 % 2 ^ 28) e ∙ t.size_is;
}

-- Where the footer stands, for a block that does not wrap around.
pub get_footer_at :
    (m : Words) (h size : ℕ)
    → block_size m h ≡ size
    → 1 ≤ size
    → h + 16 * size ≤ 2 ^ 64
    → get_footer m h ≡ h + 16 * size - 8
get_footer_at m h size e l k = ap (λ x. (h + 16 * x - 8) % 2 ^ 64) e ∙ omega arith

pub write-other : (m : Words) (a v b : ℕ) → b ≢ a → write_word m a v b ≡ m b
write-other m a v b ne = ground arith
