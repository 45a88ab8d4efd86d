-- ===== src/Screen.antt =====
-- sys/kprintf.c, the screen: the bytes from `_SCREEN_BASE` on, two for each of the cells, and the
-- cursor. The lowest line of the 25 on the screen shows the input of the terminal.
pub mod Laws
mod Tests
use sbu_os.Prelude.{
  ℕ, zero, suc, ◌+◌, ◌-◌, ◌*◌, ◌/◌, ◌%◌, Bool, Option, none, some, List, [], ◌∷◌, ltb, leb, ◌==◌,
  if◌then◌else◌, length, get_or,
}
use sbu_os.Memory.{Ram, store, memset, memcpy}

-- _SCREEN_LINES and _SCREEN_COLOUMS
abbrev pub lines : ℕ
lines = 24

abbrev pub columns : ℕ
columns = 80

-- `color` is 0b00001111 throughout.
abbrev pub color : ℕ
color = 15

-- `cell` holds the bytes by their distance from `_SCREEN_BASE`.
pub record Screen : Type 0 where
  pub cell : Ram
  pub cursor : ℕ
  pub topright_length : ℕ

-- `scroll_lines_up`: its three loops go from low addresses to high ones. The first leaves out what
-- the text at the top right covers.
unfoldable pub scroll_lines_up : Screen → Screen
scroll_lines_up s =
    let first = memcpy s.cell 0 (columns * 2) (columns * 2 - s.topright_length * 2) in
    let second =
      memcpy first (columns * 2) (columns * 2 * 2) (columns * lines * 2 - columns * 2 * 2) in
    record s { cell = memset second (columns * (lines - 1) * 2) 0 (columns * 2) }

-- Bit 6 of an attribute byte, cleared by `&= 0b10111111` or set by `|= 0b01000000`.
abbrev pub de_blink : ℕ → ℕ
de_blink b = b - b / 64 % 2 * 64

abbrev pub blink : ℕ → ℕ
blink b = b + 64 - b / 64 % 2 * 64

abbrev pub at_attribute : Screen → (ℕ → ℕ) → Screen
at_attribute s f = record s {
  cell = store s.cell (s.cursor * 2 + 1) (f (s.cell (s.cursor * 2 + 1)));
}

-- A line feed, or a character at the cursor.
unfoldable pub put : Screen → ℕ → Screen
put s c = if c == b'\n' then record s { cursor = (s.cursor / 80 + 1) * 80 } else record s {
  cell = store (store s.cell (s.cursor * 2) c) (s.cursor * 2 + 1) color;
  cursor = s.cursor + 1;
}

unfoldable pub scroll_if_full : Screen → Screen
scroll_if_full s =
    if leb (lines * columns) s.cursor
    then (let t = scroll_lines_up s in record t { cursor = t.cursor - columns })
    else s

-- `print_func`
unfoldable pub print_func : Screen → ℕ → Screen
print_func s c = at_attribute (scroll_if_full (put (at_attribute s de_blink) c)) blink

unfoldable pub print_chars : Screen → List ℕ → Screen
print_chars s [] = s
print_chars s (c ∷ cs) = print_chars (print_func s c) cs

-- `clear_screen`
unfoldable pub clear_screen : Screen → Screen
clear_screen s =
    at_attribute (record s { cell = memset s.cell 0 0 (lines * columns * 2); cursor = 0 }) blink

-- `print_terminal_input_line`: the loop, with `left` columns from `i` on.
unfoldable pub input_line_loop : (left i : ℕ) → Ram → (src : List ℕ) → (len : ℕ) → Ram
input_line_loop zero i m src len = m
input_line_loop (suc left) i m src len =
    input_line_loop left (i + 1)
      (store m (columns * lines * 2 + i * 2) (if ltb i len then get_or src i 0 else 0)) src len

unfoldable pub print_terminal_input_line : Screen → (src : List ℕ) → (len : ℕ) → Screen
unfolding input_line_loop
print_terminal_input_line s src len = record s { cell = input_line_loop columns 0 s.cell src len }

-- The last loop of `print_topright`: the text from the cell `at` on.
unfoldable pub topright_loop : Ram → (at : ℕ) → (str : List ℕ) → (attribute : ℕ) → Ram
topright_loop m at [] attribute = m
topright_loop m at (c ∷ cs) attribute =
    topright_loop (store (store m (at * 2) c) (at * 2 + 1) attribute) (at + 1) cs attribute

-- `print_topright` of a text; a text longer than a line would be written in front of the screen,
-- and is `none`. `cursor` is used as a variable and then restored.
unfoldable pub print_topright : Screen → (str : List ℕ) → (color : ℕ) → Option Screen
unfolding topright_loop
print_topright s str attribute =
    if ltb columns (length str)
    then none
    else some (record s {
      cell =
          topright_loop
            (if ltb (length str) s.topright_length
              then memset s.cell ((columns - s.topright_length) * 2) 0
                  ((s.topright_length - length str) * 2)
              else s.cell)
            (columns - length str) str attribute;
      topright_length = length str;
    })
