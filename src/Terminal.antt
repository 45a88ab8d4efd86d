-- ===== src/Terminal.antt =====
-- sys/ternimal.c: the line that is typed, and the two pipes of the terminal. `print_terminal_input_line`
-- and `kprintf` act on the screen, and `process_add_signal` on the processes.
pub mod Edit
pub mod Output
mod Tests
use sbu_os.Prelude.{
  ℕ, ◌+◌, ◌-◌, Bool, Option, none, some, List, [], ◌∷◌, ltb, ◌==◌, if◌then◌else◌, set, take, ◌>>=◌,
}
use sbu_os.Pipe.{Pair, read, write}
use sbu_os.Process.{Kernel, process_add_signal}
use sbu_os.Print.{format_loop}
use sbu_os.Screen.{Screen, print_chars, print_terminal_input_line}

-- INPUT_BUFFER_LENGTH
abbrev pub input_buffer_length : ℕ
input_buffer_length = 256

-- `terminal_in` and `terminal_out` are the pairs `terminal_file_in` and `terminal_file_out`.
pub record Terminal : Type 0 where
  pub terminal_buffer : List ℕ
  pub terminal_buffer_end : ℕ
  pub terminal_in : Pair
  pub terminal_out : Pair
  pub foreground_pid : ℕ
  pub kernel : Kernel
  pub screen : Screen

-- `file_write` to `terminal_file_out[1]` changes `on_hold` of the processes that wait there.
abbrev pub write_out : Terminal → List ℕ → Terminal
write_out s bytes =
    let (n, out, on_hold) = write s.terminal_out (λ q. (s.kernel.procs q).on_hold) bytes in
    record s {
      terminal_out = out;
      kernel = record s.kernel { procs = λ q. record (s.kernel.procs q) { on_hold = on_hold q } };
    }

-- A line feed, which is in the buffer already: a 0 goes behind it, and the line to the pipe.
abbrev pub send_line : Terminal → Terminal
send_line s =
    let buffer = set s.terminal_buffer s.terminal_buffer_end 0 in
    record (write_out (record s { terminal_buffer = buffer }) (take s.terminal_buffer_end buffer)) {
      terminal_buffer_end = 0;
    }

-- Control-c: the signal SIGINT to the process in the foreground.
abbrev pub interrupt : Terminal → Kernel
interrupt s =
    if s.foreground_pid == 0 then s.kernel else (process_add_signal s.kernel s.foreground_pid 2).1

-- The tests on a character that is in the buffer already. A line feed in the last place is followed
-- by a write behind the buffer, which is `none`.
unfoldable pub edit_line : Terminal → (ascii : ℕ) → Option Terminal
edit_line s ascii =
    let last = s.terminal_buffer_end in
    if ascii == b'\n'
    then (if last == input_buffer_length then none else some (send_line s))
    else if ascii == 8
    then some (record s { terminal_buffer_end = if ltb 1 last then last - 2 else last - 1 })
    else if ascii == 24
    then some (record s { terminal_buffer_end = last - 1; kernel = interrupt s })
    else some s

-- `print_terminal_input_line(terminal_buffer, terminal_buffer_end)`
abbrev pub show_line : Terminal → Terminal
show_line s = record s {
  screen = print_terminal_input_line s.screen s.terminal_buffer s.terminal_buffer_end;
}

-- `terminal_input_ascii`
unfoldable pub terminal_input_ascii : Terminal → (ascii : ℕ) → Option Terminal
terminal_input_ascii s ascii = if s.terminal_buffer_end == input_buffer_length then some s else (do
  t ←
      edit_line
        (record s {
          terminal_buffer = set s.terminal_buffer s.terminal_buffer_end ascii;
          terminal_buffer_end = s.terminal_buffer_end + 1;
        })
        ascii
  some (show_line t))

-- Characters that come one after the other.
unfoldable pub input_all : Terminal → List ℕ → Option Terminal
input_all s [] = some s
input_all s (c ∷ cs) = do t ← terminal_input_ascii s c; input_all t cs

-- `kprintf`: the characters of its format loop go to `print_func`.
unfoldable pub kprintf : (texts : ℕ → List ℕ) → (format args : List ℕ) → Screen → Screen
kprintf texts format args s = print_chars s (format_loop texts format args).0

-- `update_terminal_out`, behind its `file_read`: what processes wrote is the format of a `kprintf`
-- without arguments, so `args` is what its conversions find in the place of arguments. At the end of
-- the file the result -1 is the index of a write in front of `buffer`, which is `none`.
module _ (texts : ℕ → List ℕ) (args : List ℕ) where
  unfoldable pub show_output : Terminal → Option (List ℕ) → Option Terminal
  show_output s none = none
  show_output s (some []) = some s
  show_output s (some (b ∷ bytes)) =
      some (record s { screen = kprintf texts (b ∷ bytes) args s.screen })

  unfoldable pub update_terminal_out : Terminal → Option Terminal
  unfolding show_output
  update_terminal_out s =
      let (result, terminal_in) = read s.terminal_in 511 in
      show_output (record s { terminal_in = terminal_in }) result
