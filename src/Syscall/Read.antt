-- ===== src/Syscall/Read.antt =====
-- A process that sleeps in sys_read until another one writes.
use mathlib.Core.Path.{subst}
use sbu_os.Prelude.{
  ℕ, suc, ◌-◌, ◌≤◌, ◌≡◌, ◌≢◌, refl, ap, ap₂, sym, ◌∙◌, true, false, Option, some, List, [], ◌∷◌,
  ◌++◌, arith, ◌==◌, if◌then◌else◌, length, take, take-all, drop, min,
}
use sbu_os.Prelude.Int.{is_nonpos}
use sbu_os.Pipe.{FileEntry, Pair, Holds, read, write}
use sbu_os.Pipe.Queue
use sbu_os.Pipe.Inv.{IsValid, contents}
use sbu_os.Pipe.Write.{write_refines, write_waiters, waits}
use sbu_os.Pipe.Read.{read_refines}
use sbu_os.Syscall.{Tried, returns, sleeps, try_read, woken_read}

read-input : (p : Pair) (size : ℕ) → (read p size).1.input ≡ p.input
unfolding read
read-input p size = ground arith

write-input :
    (p : Pair) (on_hold : Holds) (bytes : List ℕ) → (write p on_hold bytes).1.input ≡ p.input
unfolding write
write-input p on_hold bytes = ground arith

waits-last : (q : ℕ) (ws : List ℕ) → waits q (ws ++ (q ∷ [])) ≡ true
waits-last q [] = ground arith
waits-last q (w ∷ ws) = ground (arith, waits-last q ws)

-- A process that sleeps in the last place of the waiters.
abbrev pub waiting : Pair → (current_process : ℕ) → Pair
waiting p current_process = record p {
  output = record p.output { first_waiters = p.output.first_waiters ++ (current_process ∷ []) };
}

module _ (p : Pair) (on_hold : Holds) (current_process size : ℕ) where
  try_read-sleeps :
      (read p size).0 ≡ some []
      → try_read p on_hold current_process size ≡ (
        sleeps,
        waiting (read p size).1 current_process,
        λ q. if q == current_process then true else on_hold q,
      )
  unfolding try_read
  try_read-sleeps e = rw (try_read, e) refl

  try_read-returns :
      (b : ℕ) (bytes : List ℕ)
      → (read p size).0 ≡ some (b ∷ bytes)
      → (try_read p on_hold current_process size).0 ≡ returns (suc (length bytes)) (b ∷ bytes)
  unfolding try_read
  try_read-returns b bytes e = rw (try_read, e) refl

-- What a read of a pipe that can still be written gives.
read_open :
    (p : Pair) (size : ℕ)
    → IsValid p.output
    → p.output.buffer_p_c ≢ 0
    → is_nonpos p.input.open_count ≡ false
    → ((read p size).0 ≡ some (take size (contents p.output)))
      × (contents (read p size).1.output ≡ drop size (contents p.output))
      × IsValid (read p size).1.output
unfolding Queue.get
read_open p size v ne opened =
    let (e, valid) = read_refines p size v ne in
    let e' : ((read p size).0, contents (read p size).1.output)
        ≡ (some (take size (contents p.output)), drop size (contents p.output)) =
      rw (Queue.get, opened) at e in
    (
      ap (λ (q : Option (List ℕ) × List ℕ). q.0) e',
      ap (λ (q : Option (List ℕ) × List ℕ). q.1) e',
      valid,
    )

-- The write that wakes the process, and the read behind it.
module _ (p : Pair) (on_hold : Holds) (current_process size : ℕ) (b : ℕ) (bytes : List ℕ) where
  abbrev Woken : ℕ × Pair × Holds → Type 0
  Woken (n, p'', hold'') =
      (n ≡ suc (length bytes))
      × (hold'' current_process ≡ false)
      × ((woken_read p'' hold'' current_process (suc size) 0).0
          ≡ returns (suc (length (take size bytes))) (b ∷ take size bytes))

  write-Woken :
      IsValid p.output
      → contents p.output ≡ []
      → is_nonpos p.input.open_count ≡ false
      → suc (length bytes) ≤ Queue.capacity
      → waits current_process p.output.first_waiters ≡ true
      → (write p on_hold (b ∷ bytes)).1.output.buffer_p_c ≢ 0
      → Woken (write p on_hold (b ∷ bytes))
  unfolding woken_read Queue.put
  write-Woken v empty opened fits waiting' ne =
      let p'' = (write p on_hold (b ∷ bytes)).1 in
      let number : min (suc (length bytes)) Queue.capacity ≡ suc (length bytes) = omega arith in
      let room : length (b ∷ bytes) ≤ Queue.capacity - length (contents p.output) =
        rw empty (omega arith) in
      let (put', valid) = write_refines p on_hold (b ∷ bytes) v in
      let put'' : ((write p on_hold (b ∷ bytes)).0, contents p''.output)
          ≡ (min (suc (length bytes)) Queue.capacity, take Queue.capacity (b ∷ bytes)) =
        rw empty at put' in
      let held : contents p''.output ≡ b ∷ bytes =
        ap (λ (q : ℕ × List ℕ). q.1) put'' ∙ take-all Queue.capacity (b ∷ bytes) fits in
      let opened' : is_nonpos p''.input.open_count ≡ false =
        ap (λ (f : FileEntry). is_nonpos f.open_count) (write-input p on_hold (b ∷ bytes))
        ∙ opened in
      let (got, rest, valid') = read_open p'' (suc size) valid ne opened' in
      (
        ap (λ (q : ℕ × List ℕ). q.0) put'' ∙ number,
        ((write_waiters p on_hold (b ∷ bytes) current_process v).0 room).0
            ∙ ap (λ t. if t then false else on_hold current_process) waiting',
        try_read-returns p'' (write p on_hold (b ∷ bytes)).2 current_process (suc size) b
            (take size bytes) (got ∙ ap (λ bs. some (take (suc size) bs)) held),
      )

-- A process asks an empty pipe that can still be written for at least one byte: it sleeps. Another one
-- then writes at least one byte, and no more than the pipe holds, whoever else waits: all bytes are
-- taken, and the first process is on hold no more. When it runs again with no signal pending, its call
-- returns the first of those bytes, as many as it asked for if there are so many. The producer's
-- cursor is not at 0 for either read.
pub woken_read-write :
    (p p' p'' : Pair) (on_hold hold' hold'' : Holds) (current_process size b n : ℕ) (bytes : List ℕ)
    (result : Tried)
    → IsValid p.output
    → contents p.output ≡ []
    → is_nonpos p.input.open_count ≡ false
    → p.output.buffer_p_c ≢ 0
    → suc (length bytes) ≤ Queue.capacity
    → try_read p on_hold current_process (suc size) ≡ (result, p', hold')
    → write p' hold' (b ∷ bytes) ≡ (n, p'', hold'')
    → p''.output.buffer_p_c ≢ 0
    → (result ≡ sleeps)
      × (hold' current_process ≡ true)
      × (n ≡ suc (length bytes))
      × (hold'' current_process ≡ false)
      × ((woken_read p'' hold'' current_process (suc size) 0).0
          ≡ returns (suc (length (take size bytes))) (b ∷ take size bytes))
woken_read-write p p' p'' on_hold hold' hold'' current_process size b n bytes result v empty opened
      ne fits tried wrote ne' =
    let (got, rest, valid) = read_open p (suc size) v ne opened in
    let none' : (read p (suc size)).0 ≡ some [] =
      got ∙ ap (λ bs. some (take (suc size) bs)) empty in
    let e = sym tried ∙ try_read-sleeps p on_hold current_process (suc size) none' in
    let p1 = (read p (suc size)).1 in
    let hold1 : Holds = λ q. if q == current_process then true else on_hold q in
    let same : p' ≡ waiting p1 current_process = ap (λ (t : Tried × Pair × Holds). t.1) e in
    let still : hold' ≡ hold1 = ap (λ (t : Tried × Pair × Holds). t.2) e in
    let empty' : contents p1.output ≡ [] = rest ∙ ap (drop (suc size)) empty in
    let opened' : is_nonpos p1.input.open_count ≡ false =
      ap (λ (f : FileEntry). is_nonpos f.open_count) (read-input p (suc size)) ∙ opened in
    let valid' : IsValid (waiting p1 current_process).output = record {
      storage = valid.storage;
      consumer_in = valid.consumer_in;
      producer_in = valid.producer_in;
    } in
    let wrote' : write (waiting p1 current_process) hold1 (b ∷ bytes) ≡ (n, p'', hold'') =
      ap₂ (λ q h. write q h (b ∷ bytes)) (sym same) (sym still) ∙ wrote in
    let cursor : (write (waiting p1 current_process) hold1 (b ∷ bytes)).1.output.buffer_p_c ≢ 0 =
      λ z. ne' (ap (λ (t : ℕ × Pair × Holds). t.1.output.buffer_p_c) (sym wrote') ∙ z) in
    let woken =
      write-Woken (waiting p1 current_process) hold1 current_process size b bytes valid' empty'
        opened' fits (waits-last current_process p1.output.first_waiters) cursor in
    let (all, runs, returned) = subst (Woken p hold1 current_process size b bytes) wrote' woken in
    (
      ap (λ (t : Tried × Pair × Holds). t.0) e,
      ap (λ (h : Holds). h current_process) still ∙ ground arith,
      all,
      runs,
      returned,
    )
