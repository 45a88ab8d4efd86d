-- ===== src/Pipe/Tests.antt =====
-- A pipe at work, and the theorems at concrete pipes.
use sbu_os.Prelude.{
  ℕ, ◌<◌, ◌≡◌, refl, true, false, some, [], ◌∷◌, arith, replicate, length-replicate,
}
use sbu_os.Prelude.Int.{pos, is_nonpos}
use sbu_os.Pipe.{FileEntry, Pair, read, write, Holds}
use sbu_os.Pipe.Queue
use sbu_os.Pipe.Queue.{capacity}
use sbu_os.Pipe.Inv.{IsValid, contents}
use sbu_os.Pipe.Write.{write_refines}
use sbu_os.Pipe.Read.{read_refines}

abbrev nobody : Holds
nobody _ = true

-- A ring of zeros with the given cursors, on which process 7 waits.
abbrev ring : ℕ → ℕ → FileEntry
ring c p = record {
  io_type = 2;
  buffer = replicate 2048 0;
  buffer_c_c = c;
  buffer_p_c = p;
  open_count = pos 1;
  first_waiters = 7 ∷ [];
}

abbrev pair : ℕ → ℕ → Pair
pair c p = record { input = ring c p; output = ring c p }

ring-IsValid : (c p : ℕ) → c < 2048 → p < 2048 → IsValid (ring c p)
ring-IsValid c p hc hp = record {
  storage = length-replicate {A = ℕ} 2048 0;
  consumer_in = hc;
  producer_in = hp;
}

abbrev sent : Pair
sent = (write (pair 5 6) nobody (10 ∷ 11 ∷ 12 ∷ [])).1

write_then_read : (read sent 2).0 ≡ some (10 ∷ 11 ∷ [])
unfolding write read
write_then_read = refl

-- The empty pipe whose producer has just come round to index 0: three bytes are read from it.
wrapped_read : (read (pair 2047 0) 3).0 ≡ some (0 ∷ 0 ∷ 0 ∷ [])
unfolding read
wrapped_read = refl

wakes : (write (pair 5 6) nobody (10 ∷ [])).2 7 ≡ false
unfolding write
wakes = refl

write_refines_example :
    let (n, p', _) = write (pair 2047 0) nobody (1 ∷ 2 ∷ []) in
    ((n, contents p'.output) ≡ Queue.put (contents (ring 2047 0)) (1 ∷ 2 ∷ [])) × IsValid p'.output
write_refines_example =
    write_refines (pair 2047 0) nobody (1 ∷ 2 ∷ [])
      (ring-IsValid 2047 0 (omega arith) (omega arith))

read_refines_example :
    let (r, p') = read (pair 2040 3) 2 in
    ((r, contents p'.output)
      ≡ Queue.get (is_nonpos (ring 2040 3).open_count) (contents (ring 2040 3)) 2)
    × IsValid p'.output
read_refines_example =
    read_refines (pair 2040 3) 2 (ring-IsValid 2040 3 (omega arith) (omega arith)) (omega arith)
