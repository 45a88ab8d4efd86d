-- ===== src/Terminal/Output.antt =====
-- What processes write to the terminal.
use sbu_os.Prelude.{ℕ, ◌≡◌, ◌≢◌, refl, ap, ◌∙◌, true, some, List, [], ◌∷◌, arith}
use sbu_os.Prelude.Int.{is_nonpos}
use sbu_os.Pipe.{read}
use sbu_os.Pipe.Inv.{IsValid, contents}
use sbu_os.Pipe.Read.{read_refines}
use sbu_os.Pipe.Queue as Queue
use sbu_os.Print.{format_loop}
use sbu_os.Screen.{Screen, print_func, print_chars}
use sbu_os.Screen.Laws.{OnScreen, Keeps, print_func-Keeps}
use sbu_os.Terminal.{Terminal, kprintf, show_output, update_terminal_out}

print_chars-Keeps : (cs : List ℕ) (s : Screen) → OnScreen s → Keeps s (print_chars s cs)
unfolding print_chars
print_chars-Keeps [] s h = record { cursor_in = h; behind = λ x k. refl }
print_chars-Keeps (c ∷ cs) s h =
    let first = print_func-Keeps s c h in
    let rest = print_chars-Keeps cs (print_func s c) first.cursor_in in
    record { cursor_in = rest.cursor_in; behind = λ x k. rest.behind x k ∙ first.behind x k }

-- Whatever `kprintf` is asked to print, the cursor stays on the screen, and no byte behind the output
-- lines changes.
pub kprintf-Keeps :
    (texts : ℕ → List ℕ) (format args : List ℕ) (s : Screen)
    → OnScreen s
    → Keeps s (kprintf texts format args s)
unfolding kprintf
kprintf-Keeps texts format args s h = print_chars-Keeps (format_loop texts format args).0 s h

-- Text without a percent sign and without a 0.
abbrev pub Plain : List ℕ → Type 0
Plain [] = Unit {0}
Plain (c ∷ cs) = (c ≢ 0) × (c ≢ b'%') × Plain cs

format_loop-Plain :
    (texts : ℕ → List ℕ) (cs args : List ℕ) → Plain cs → format_loop texts cs args ≡ (cs, true)
unfolding format_loop
format_loop-Plain texts [] args p = refl
format_loop-Plain texts (c ∷ []) args p = ground arith
format_loop-Plain texts (c ∷ d ∷ cs) args p =
    ground (arith, format_loop-Plain texts (d ∷ cs) args p.2)

kprintf-Plain :
    (texts : ℕ → List ℕ) (cs args : List ℕ) (s : Screen)
    → Plain cs
    → kprintf texts cs args s ≡ print_chars s cs
unfolding kprintf
kprintf-Plain texts cs args s p = ap (λ r. print_chars s r.0) (format_loop-Plain texts cs args p)

show_output-Plain :
    (texts : ℕ → List ℕ) (args : List ℕ) (s : Terminal) (bytes : List ℕ)
    → Plain bytes
    → show_output texts args s (some bytes)
      ≡ some (record s { screen = print_chars s.screen bytes })
unfolding show_output print_chars
show_output-Plain texts args s [] p = refl
show_output-Plain texts args s (b ∷ bytes) p =
    ap (λ t. some (record s { screen = t })) (kprintf-Plain texts (b ∷ bytes) args s.screen p)

-- An update takes up to 511 of the oldest bytes from the pipe of the processes and leaves the
-- rest there; if they are plain text it prints just them. It is so when the pipe is not at the end
-- of the file and the producer's cursor is not at index 0.
pub update_terminal_out_prints :
    (texts : ℕ → List ℕ) (args : List ℕ) (s : Terminal) (bytes : List ℕ) (left : Queue.Queue)
    → IsValid s.terminal_in.output
    → s.terminal_in.output.buffer_p_c ≢ 0
    → Queue.get (is_nonpos s.terminal_in.input.open_count) (contents s.terminal_in.output) 511
      ≡ (some bytes, left)
    → Plain bytes
    → (t : Terminal) × (update_terminal_out texts args s ≡ some t)
      × (t.screen ≡ print_chars s.screen bytes)
      × (contents t.terminal_in.output ≡ left)
      × IsValid t.terminal_in.output
unfolding update_terminal_out
update_terminal_out_prints texts args s bytes left v ne g p =
    let (out, valid) = read_refines s.terminal_in 511 v ne in
    let after : Terminal = record s { terminal_in = (read s.terminal_in 511).1 } in
    (
      record after { screen = print_chars s.screen bytes },
      ap (show_output texts args after) (ap (λ r. r.0) (out ∙ g))
          ∙ show_output-Plain texts args after bytes p,
      refl,
      ap (λ r. r.1) (out ∙ g),
      valid,
    )
