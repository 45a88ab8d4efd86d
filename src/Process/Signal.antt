-- ===== src/Process/Signal.antt =====
-- `search_process` and `process_add_signal` find the same process.
use sbu_os.Prelude.{ℕ, ◌≡◌, ◌≢◌, refl, false, not, List, [], ◌∷◌, arith, ◌==◌, if◌then◌else◌}
use sbu_os.Process.{
  Kernel, Proc, Procs, update, search_from, search_process, add_signal_from, process_add_signal,
}

-- No address of the list is NULL.
abbrev pub NoNull : List ℕ → Type 0
NoNull [] = Unit {0}
NoNull (p ∷ ps) = (p ≢ 0) × NoNull ps

abbrev pub signalled : ℕ → Proc → Proc
signalled signal r = record r { sig_pending = signal; on_hold = false }

add_signal_from-search :
    (procs : Procs) (ps : List ℕ) (pid signal q : ℕ)
    → NoNull ps
    → let (found, procs') = add_signal_from procs ps pid signal in
      let p = search_from procs ps pid in
      (found ≡ not (p == 0))
      × (procs' q ≡ (if found then update procs p (signalled signal) q else procs q))
unfolding add_signal_from search_from
add_signal_from-search procs [] pid signal q n = (refl, refl)
add_signal_from-search procs (p ∷ ps) pid signal q n =
    ground (arith, add_signal_from-search procs ps pid signal q n.1)

-- `process_add_signal` returns 1 exactly when `search_process` finds a process with the id; it then
-- sets the signal of that process and takes it off hold, and it changes no other process.
pub process_add_signal-search_process :
    (k : Kernel) (pid signal q : ℕ)
    → NoNull k.run_list
    → let (found, k') = process_add_signal k pid signal in
      let p = search_process k pid in
      (found ≡ not (p == 0))
      × (k'.procs q ≡ (if found then update k.procs p (signalled signal) q else k.procs q))
unfolding process_add_signal search_process
process_add_signal-search_process k pid signal q n =
    add_signal_from-search k.procs k.run_list pid signal q n
