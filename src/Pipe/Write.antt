-- ===== src/Pipe/Write.antt =====
-- `file_write` on a pipe: the bytes that it takes, and the waiters that it wakes.
use sbu_os.Prelude.{
  ℕ, ◌+◌, ◌-◌, ◌≤◌, ◌<◌, ◌≡◌, suc, inl, inr, ap, ◌∙◌, refl, ap₂, sym, Bool, true, false, ◌||◌, List,
  [], ◌∷◌, ◌++◌, append-nil, append_assoc, arith, leb, ◌==◌, if◌then◌else◌, Bool-cases, length, set,
  take, take-cons, take-nil, length-set, min,
}
use sbu_os.Pipe.{FileEntry, Pair, advance, Holds, write_loop, wake_all, write}
use sbu_os.Pipe.Queue
use sbu_os.Pipe.Queue.{capacity}
use sbu_os.Pipe.Inv.{IsValid, count, contents, window, length-window, window-set}

-- The entry after one byte more.
abbrev push : FileEntry → ℕ → FileEntry
push f b = record f { buffer = set f.buffer f.buffer_p_c b; buffer_p_c = advance f.buffer_p_c }

module _ {f : FileEntry} (b : ℕ) (v : IsValid f)
    (room : (f.buffer_p_c == f.buffer_c_c) ≡ false) where
  push-IsValid : IsValid (push f b)
  push-IsValid = ground (arith, length-set f.buffer f.buffer_p_c b)

  count-push : count (push f b) ≡ count f + 1
  count-push = ground arith

  contents-push : contents (push f b) ≡ contents f ++ (b ∷ [])
  contents-push =
      ap (window (set f.buffer f.buffer_p_c b) (advance f.buffer_c_c))
        (let e : count (push f b) ≡ suc (count f) = omega (arith, count-push) in e)
      ∙ window-set f.buffer b (count f) (advance f.buffer_c_c) f.buffer_p_c v.storage (ground arith)
          (ground arith) (ground arith)

-- How the loop ends.
record Wrote (f : FileEntry) (bytes : List ℕ) (n : ℕ) (out : Bool × ℕ × FileEntry) : Type 0 where
  valid : IsValid out.2
  all : out.0 ≡ leb (length bytes) (capacity - count f)
  taken : out.1 ≡ n + min (length bytes) (capacity - count f)
  held : contents out.2 ≡ contents f ++ take (capacity - count f) bytes
  waiters : out.2.first_waiters ≡ f.first_waiters

module _ {f : FileEntry} (b : ℕ) (bytes : List ℕ) (n : ℕ) (v : IsValid f) where
  Wrote-full : (f.buffer_p_c == f.buffer_c_c) ≡ true → Wrote f (b ∷ bytes) n (false, n, f)
  Wrote-full full = record {
    valid = v;
    all = ground arith;
    taken = ground arith;
    held = let e : capacity - count f ≡ 0 = ground arith in rw (e, append-nil);
    waiters = refl;
  }

  Wrote-push :
      (f.buffer_p_c == f.buffer_c_c) ≡ false
      → {out : Bool × ℕ × FileEntry} → Wrote (push f b) bytes (n + 1) out
      → Wrote f (b ∷ bytes) n out
  Wrote-push room {out} w = record {
    valid = w.valid;
    all = ground (arith, w.all, count-push b v room);
    taken = ground (arith, w.taken, count-push b v room);
    held =
        w.held
        ∙ ap₂ ◌++◌ (contents-push b v room) (
            ap (λ k. take k bytes)
              (let e : capacity - count (push f b) ≡ capacity - count f - 1 =
                  omega (arith, count-push b v room) in
                e))
        ∙ append_assoc (contents f) (b ∷ []) (take (capacity - count f - 1) bytes)
        ∙ ap (λ t. contents f ++ t) (sym (take-cons (capacity - count f) b bytes (ground arith)));
    waiters = w.waiters;
  }

write_loop-Wrote :
    (bytes : List ℕ) {f : FileEntry} (n : ℕ) → IsValid f → Wrote f bytes n (write_loop f bytes n)
unfolding write_loop
write_loop-Wrote [] {f} n v = record {
  valid = v;
  all = ground arith;
  taken = omega arith;
  held = rw (take-nil, append-nil);
  waiters = refl;
}
write_loop-Wrote (b ∷ bytes) {f} n v = elim (Bool-cases (f.buffer_p_c == f.buffer_c_c)) [
  | inl full ↦ rw full (Wrote-full b bytes n v full)
  | inr room ↦
      rw room (Wrote-push b bytes n v room (write_loop-Wrote bytes (n + 1) (push-IsValid b v room)))
]

-- A write takes as many bytes as fit, in order, behind those that the pipe holds; it returns their
-- number, and the ring buffer stays valid.
pub write_refines :
    (p : Pair) (on_hold : Holds) (bytes : List ℕ)
    → IsValid p.output
    → let (n, p', _) = write p on_hold bytes in
      ((n, contents p'.output) ≡ Queue.put (contents p.output) bytes) × IsValid p'.output
unfolding write Queue.put
write_refines p on_hold bytes v = ground (
  arith,
  write_loop-Wrote bytes 0 v,
  length-window p.output.buffer (advance p.output.buffer_c_c) (count p.output),
)

-- Is the process among the waiters?
abbrev pub waits : ℕ → List ℕ → Bool
waits q [] = false
waits q (w ∷ ws) = (q == w) || waits q ws

wake_all-waits :
    (ws : List ℕ) (on_hold : Holds) (q : ℕ)
    → wake_all ws on_hold q ≡ (if waits q ws then false else on_hold q)
unfolding wake_all
wake_all-waits [] on_hold q = refl
wake_all-waits (w ∷ ws) on_hold q =
    ground (arith, wake_all-waits ws (λ r. if r == w then false else on_hold r) q)

-- A write that takes all its bytes wakes exactly the waiters and empties their list; a write that
-- the full buffer cuts short wakes nobody, and they go on waiting.
pub write_waiters :
    (p : Pair) (on_hold : Holds) (bytes : List ℕ) (q : ℕ)
    → IsValid p.output
    → let (_, p', on_hold') = write p on_hold bytes in
      (length bytes ≤ capacity - length (contents p.output)
        → (on_hold' q ≡ (if waits q p.output.first_waiters then false else on_hold q))
          × (p'.output.first_waiters ≡ []))
      × (capacity - length (contents p.output) < length bytes
          → (on_hold' q ≡ on_hold q) × (p'.output.first_waiters ≡ p.output.first_waiters))
unfolding write
write_waiters p on_hold bytes q v = ground (
  arith,
  write_loop-Wrote bytes 0 v,
  length-window p.output.buffer (advance p.output.buffer_c_c) (count p.output),
  wake_all-waits p.output.first_waiters on_hold q,
)
