-- ===== src/Descriptors/Tests.antt =====
-- The handlers on a small table, and the theorems at concrete states.
use sbu_os.Prelude.{ℕ, ◌≡◌, refl, none, List, [], ◌∷◌, arith, ◌==◌, if◌then◌else◌, replicate}
use sbu_os.Prelude.Int.{pos}
use sbu_os.Descriptors.{
  Counts, Files, close, spawn, fork, opened_again, closed_once, sys_dup, handle,
}
use sbu_os.Descriptors.Refs.{IsCounted, Run, here, next, Run-IsCounted}

-- The terminal's entries 1 and 2; the kernel counts one more for each.
abbrev counts : Counts
counts f = if f == 1 then pos 1 else if f == 2 then pos 1 else pos 0

abbrev start : Files
start = record { tables = []; counts = counts; fresh = 3; stdin_file = 1; stdout_file = 2 }

abbrev first_table : List ℕ
first_table = 1 ∷ 2 ∷ 2 ∷ replicate 13 0

start-IsCounted : IsCounted counts start
start-IsCounted = record {
  sized = tt;
  counted = λ f ne. refl;
  unused = λ f ne h. (ground arith, refl);
  not_null = ground arith;
  terminals = (ground arith, ground arith);
}

-- One process starts, forks, and its child ends its use of place 0.
abbrev after_run : Files
after_run = record start {
  tables = first_table ∷ (0 ∷ 2 ∷ 2 ∷ replicate 13 0) ∷ [];
  counts = closed_once 1 (
      opened_again 2 (
        opened_again 2 (opened_again 1 (opened_again 2 (opened_again 2 (opened_again 1 counts))))));
}

run : Run start after_run
unfolding handle
run = next (close 1 0) (next (fork 0) (next spawn here refl) refl) refl

Run-IsCounted_example : IsCounted counts after_run
Run-IsCounted_example = Run-IsCounted counts start-IsCounted run

-- Entry 2 counts 5: four descriptors and the one of the kernel.
after_run-count : after_run.counts 2 ≡ pos 5
after_run-count = refl

-- 16 is not a descriptor, but passes the test of sys_dup.
sys_dup-behind : sys_dup first_table counts 16 3 ≡ none
unfolding sys_dup
sys_dup-behind = refl
