-- ===== src/Pipe/Queue.antt =====
-- What a pipe promises: a queue of at most `capacity` bytes, oldest first.
use sbu_os.Prelude.{
  ℕ, ◌-◌, List, ◌++◌, length, take, drop, min, Bool, Option, none, some, ◌&&◌, ◌==◌, if◌then◌else◌,
}
use sbu_os.Pipe.{buffer_size}

-- One cell of the buffer stays free.
abbrev pub capacity : ℕ
capacity = buffer_size - 1

abbrev pub Queue : Type 0
Queue = List ℕ

-- How many bytes a write takes, and the queue after it.
unfoldable pub put : Queue → List ℕ → ℕ × Queue
put q bytes = let room = capacity - length q in (min (length bytes) room, q ++ take room bytes)

-- A read of `size` bytes: `none` at the end of the file, which is an empty queue that nobody can
-- write to any more; otherwise the oldest bytes, with the queue that is left.
unfoldable pub get : Bool → Queue → ℕ → Option (List ℕ) × Queue
get closed q size = if closed && length q == 0 then (none, q) else (some (take size q), drop size q)
