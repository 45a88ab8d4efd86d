-- ===== src/Pipe/Read.antt =====
-- `file_read` on a pipe: the bytes that it gives, and where its test for an empty buffer fails.
use sbu_os.Prelude.{
  ℕ, zero, suc, ◌≡◌, refl, ◌≢◌, ap, sym, ◌∙◌, inl, inr, true, false, some, List, [], ◌∷◌, arith,
  Bool-cases, length, take, drop, get_or,
}
use sbu_os.Prelude.Int.{is_nonpos}
use sbu_os.Pipe.{FileEntry, Pair, advance, read_done, read_loop, read}
use sbu_os.Pipe.Queue
use sbu_os.Pipe.Inv.{IsValid, count, contents, window, length-window}

-- The entry after one byte less.
abbrev pop : FileEntry → FileEntry
pop f = record f { buffer_c_c = advance f.buffer_c_c }

module _ {f : FileEntry} (v : IsValid f) where
  pop-IsValid : IsValid (pop f)
  pop-IsValid = ground arith

-- What the loop gives when the producer's cursor is not at index 0.
record Took (f : FileEntry) (size : ℕ) (out : List ℕ × FileEntry) : Type 0 where
  valid : IsValid out.1
  bytes : out.0 ≡ take size (contents f)
  held : contents out.1 ≡ drop size (contents f)

module _ (size : ℕ) {f : FileEntry} (v : IsValid f) where
  Took-done : read_done f ≡ true → Took f (suc size) ([], f)
  unfolding window
  Took-done done =
      let e : count f ≡ 0 = ground arith in record { valid = v; bytes = rw e; held = rw e }

  contents-pop :
      f.buffer_p_c ≢ 0
      → read_done f ≡ false
      → contents f ≡ get_or f.buffer (advance f.buffer_c_c) 0 ∷ contents (pop f)
  unfolding window
  contents-pop ne more =
      ap (window f.buffer (advance f.buffer_c_c))
        (let e : count f ≡ suc (count (pop f)) = ground arith in e)

  Took-pop :
      f.buffer_p_c ≢ 0
      → read_done f ≡ false
      → {out : List ℕ × FileEntry} → Took (pop f) size out
      → Took f (suc size) (get_or f.buffer (advance f.buffer_c_c) 0 ∷ out.0, out.1)
  Took-pop ne more w = record {
    valid = w.valid;
    bytes =
        ap (λ t. get_or f.buffer (advance f.buffer_c_c) 0 ∷ t) w.bytes
        ∙ ap (take (suc size)) (sym (contents-pop ne more));
    held = w.held ∙ ap (drop (suc size)) (sym (contents-pop ne more));
  }

read_loop-Took :
    (size : ℕ) {f : FileEntry} → IsValid f → f.buffer_p_c ≢ 0 → Took f size (read_loop size f)
unfolding read_loop
read_loop-Took zero v ne = record { valid = v; bytes = refl; held = refl }
read_loop-Took (suc size) {f} v ne = elim (Bool-cases (read_done f)) [
  | inl done ↦ rw done (Took-done size v done)
  | inr more ↦ rw more (Took-pop size v ne more (read_loop-Took size (pop-IsValid v) ne))
]

-- A read gives the oldest bytes, as many as it asks for and the pipe holds, and removes exactly
-- those, or reports the end of the file when the pipe is empty and its write end is closed; the
-- ring buffer stays valid. It is so whenever the producer's cursor is not at index 0.
pub read_refines :
    (p : Pair) (size : ℕ)
    → IsValid p.output
    → p.output.buffer_p_c ≢ 0
    → let (r, p') = read p size in
      ((r, contents p'.output) ≡ Queue.get (is_nonpos p.input.open_count) (contents p.output) size)
      × IsValid p'.output
unfolding read Queue.get
read_refines p size v ne = ground (
  arith,
  read_loop-Took size v ne,
  length-window p.output.buffer (advance p.output.buffer_c_c) (count p.output),
)

-- With the producer's cursor at index 0 the loop never finds the buffer empty.
read_loop-wrapped :
    (size : ℕ) {f : FileEntry}
    → IsValid f
    → f.buffer_p_c ≡ 0
    → (length (read_loop size f).0 ≡ size) × IsValid (read_loop size f).1
unfolding read_loop
read_loop-wrapped zero v e = (refl, v)
read_loop-wrapped (suc size) {f} v e = ground (arith, read_loop-wrapped size (pop-IsValid v) e)

-- With the producer's cursor at index 0 a read gives as many bytes as it is asked for, whatever the
-- pipe holds, and also when the write end is closed; the cursors still stay inside the buffer.
pub read_wrapped :
    (p : Pair) (size : ℕ)
    → IsValid p.output
    → p.output.buffer_p_c ≡ 0
    → IsValid (read p size).1.output
      × ((bytes : List ℕ) × ((read p size).0 ≡ some bytes) × (length bytes ≡ size))
unfolding read
read_wrapped p size v e = (
  ground (arith, read_loop-wrapped size v e),
  (
    (read_loop size p.output).0,
    ground (arith, read_loop-wrapped size v e),
    (read_loop-wrapped size v e).0,
  ),
)
