-- ===== src/Pipe.antt =====
-- The pipes of sys/disk/file_system.c: the pair of file table entries that `generate_entry_pair`
-- makes (`io_type` 1 writes, `io_type` 2 reads), the branches of `file_read` and `file_write` for
-- them, and `file_close`. The two entries of a pair point at one another for ever, so a pair is one
-- record, and `in_from` and `out_to` are its fields. The ring buffer is that of the read end.
pub mod Queue
pub mod Inv
pub mod Write
pub mod Read
mod Tests
use sbu_os.Prelude.{
  ℕ, zero, suc, ◌+◌, ◌-◌, Bool, true, false, ◌&&◌, Option, none, some, List, [], ◌∷◌, ◌==◌,
  if◌then◌else◌, get_or, set, replicate,
}
use sbu_os.Prelude.Int.{ℤ, pos, negsuc, incr, decr, is_nonpos}

-- BUFFER_SIZE
abbrev pub buffer_size : ℕ
buffer_size = 2048

-- `file_table_entry`. A process is known by the address of its `Process`, and `first_waiters` is
-- the linked list of the processes that wait, first to last.
pub record FileEntry : Type 0 where
  pub io_type : ℕ
  pub buffer : List ℕ
  -- consumer cursor and producer cursor
  pub buffer_c_c : ℕ
  pub buffer_p_c : ℕ
  pub open_count : ℤ
  pub first_waiters : List ℕ

-- `file_table_entry_pair`
pub record Pair : Type 0 where
  pub input : FileEntry
  pub output : FileEntry

new_entry : ℕ → FileEntry
new_entry io_type = record {
  io_type = io_type;
  buffer = replicate buffer_size 0;
  buffer_c_c = 0;
  buffer_p_c = 1;
  open_count = pos 1;
  first_waiters = [];
}

-- `generate_entry_pair`; the memory of both entries is zeroed by `sf_calloc`.
unfoldable pub generate_entry_pair : Pair
unfolding new_entry
generate_entry_pair = record { input = new_entry 1; output = new_entry 2 }

-- One step of a cursor round the buffer.
abbrev pub advance : ℕ → ℕ
advance c = if c + 1 == buffer_size then 0 else c + 1

-- `buffer_p_c - 1 == buffer_c_c`. The cursors are C `int`s: at `buffer_p_c == 0` the left side is
-- -1, which no cursor equals, and `0 == c + 1` fails as well.
abbrev pub read_done : FileEntry → Bool
read_done f = f.buffer_p_c == f.buffer_c_c + 1

-- The loop of `file_read`: the bytes that go to `read_buffer`, and the entry. `read_count` is the
-- number of those bytes.
pub read_loop : ℕ → FileEntry → List ℕ × FileEntry
read_loop zero f = ([], f)
read_loop (suc size) f =
    let c = advance f.buffer_c_c in
    let (bytes, g) = read_loop size (record f { buffer_c_c = c }) in
    if read_done f then ([], f) else (get_or f.buffer c 0 ∷ bytes, g)

-- `file_read` at `io_type` 2. `none` stands for the result -1, and `some` for the bytes read.
unfoldable pub read : Pair → ℕ → Option (List ℕ) × Pair
unfolding read_loop
read p size =
    if is_nonpos p.input.open_count && read_done p.output
    then (none, p)
    else (let (bytes, f) = read_loop size p.output in (some bytes, record p { output = f }))

-- The loop of `file_write`: whether all bytes were taken, `read_count`, and the read end.
pub write_loop : FileEntry → List ℕ → ℕ → Bool × ℕ × FileEntry
write_loop f [] read_count = (true, read_count, f)
write_loop f (b ∷ bytes) read_count =
    let rest =
      write_loop
        (record f { buffer = set f.buffer f.buffer_p_c b; buffer_p_c = advance f.buffer_p_c }) bytes
        (read_count + 1) in
    if f.buffer_p_c == f.buffer_c_c then (false, read_count, f) else rest

-- `on_hold` of each process, and `waiter->on_hold = 0` for each waiter.
abbrev pub Holds : Type 0
Holds = ℕ → Bool

pub wake_all : List ℕ → Holds → Holds
wake_all [] on_hold = on_hold
wake_all (w ∷ ws) on_hold = wake_all ws (λ q. if q == w then false else on_hold q)

-- `file_write` at `io_type` 1. A write that fills the buffer returns before the waiters are woken.
unfoldable pub write : Pair → Holds → List ℕ → ℕ × Pair × Holds
unfolding write_loop wake_all
write p on_hold bytes =
    let (all, n, f) = write_loop p.output bytes 0 in
    if all
    then (
      n,
      record p { output = record f { first_waiters = [] } },
      wake_all f.first_waiters on_hold,
    )
    else (n, record p { output = f }, on_hold)

-- `file_close` at either end; the entries stay allocated.
unfoldable pub close : FileEntry → FileEntry
close f = record f { open_count = decr f.open_count }
