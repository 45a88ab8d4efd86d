-- ===== src/Terminal/Tests.antt =====
-- Tests and examples for the terminal.
use sbu_os.Prelude.{
  ℕ, ◌≡◌, refl, true, false, arith, none, some, List, [], ◌∷◌, replicate, length-replicate,
}
use sbu_os.Prelude.Int.{pos, is_nonpos}
use sbu_os.Pipe.{FileEntry}
use sbu_os.Pipe.Inv.{IsValid, contents, window}
use sbu_os.Pipe.Queue as Queue
use sbu_os.Process.{Kernel, Proc}
use sbu_os.Screen.{Screen}
use sbu_os.Terminal.{Terminal, terminal_input_ascii, edit_line}
use sbu_os.Terminal.Edit.{TerminalValid, Edits, terminal_input_ascii-Edits}

abbrev blank : Screen
blank = record { cell = λ x. 0; cursor = 1919; topright_length = 0 }

abbrev sleeper : Proc
sleeper = record {
  id = 1;
  parent = 0;
  on_hold = true;
  terminated = false;
  cleaned = false;
  first_map = [];
  open_fd = [];
  sig_pending = 0;
  id_wait_for = 0;
  id_wait_for_p = 0;
}

abbrev kernel : Kernel
kernel = record {
  procs = λ q. sleeper;
  run_list = 5 ∷ [];
  current_process = 5;
  previous_process = 0;
  table = [];
  open_counts = λ f. pos 0;
}

-- The bytes 104 and 105 stand in an end of a pipe.
abbrev filled : FileEntry
filled = record {
  io_type = 2;
  buffer = 0 ∷ 104 ∷ 105 ∷ replicate 2045 0;
  buffer_c_c = 0;
  buffer_p_c = 3;
  open_count = pos 1;
  first_waiters = [];
}

filled-IsValid : IsValid filled
filled-IsValid = record {
  storage = omega (arith, length-replicate {A = ℕ} 2045 0);
  consumer_in = omega arith;
  producer_in = omega arith;
}

-- A terminal with `last` zeros typed.
abbrev typed_zeros : ℕ → Terminal
typed_zeros last = record {
  terminal_buffer = replicate 256 0;
  terminal_buffer_end = last;
  terminal_in = record { input = filled; output = filled };
  terminal_out = record { input = filled; output = filled };
  foreground_pid = 1;
  kernel = kernel;
  screen = blank;
}

typed_zeros-TerminalValid : TerminalValid (typed_zeros 2)
typed_zeros-TerminalValid = record {
  buffer_size_of = length-replicate {A = ℕ} 256 0;
  end_in = omega arith;
  pipe_out = filled-IsValid;
}

terminal_input_ascii-Edits_example :
    (t : Terminal) × (terminal_input_ascii (typed_zeros 2) b'\n' ≡ some t)
    × Edits (typed_zeros 2) b'\n' t
terminal_input_ascii-Edits_example =
    terminal_input_ascii-Edits (typed_zeros 2) b'\n' typed_zeros-TerminalValid (omega arith)

-- A line of 256 bytes, the line feed among them, writes behind the buffer.
long_line : terminal_input_ascii (typed_zeros 255) b'\n' ≡ none
unfolding terminal_input_ascii edit_line
long_line = refl

abbrev no_texts : ℕ → List ℕ
no_texts a = []

filled_queue :
    Queue.get (is_nonpos filled.open_count) (contents filled) 511 ≡ (some (104 ∷ 105 ∷ []), [])
unfolding Queue.get window
filled_queue = refl
