-- ===== src/Screen/Laws.antt =====
-- The cursor stays on the screen, and output changes no byte below it or behind it.
use sbu_os.Prelude.{
  ℕ, ◌+◌, ◌-◌, ◌*◌, ◌≤◌, ◌<◌, ◌≡◌, refl, ◌∙◌, arith, ltb, leb, if◌then◌else◌, Bool-cases, inl, inr,
}
use sbu_os.Memory.{store, memcpy}
use sbu_os.Memory.Laws.{within, memset_lem, memcpy_lem}
use sbu_os.Screen.{
  lines, columns, Screen, scroll_lines_up, de_blink, blink, at_attribute, put, scroll_if_full,
  print_func,
}

-- The cursor is in one of the lines that the output uses.
abbrev pub OnScreen : Screen → Type 0
OnScreen s = s.cursor < lines * columns

-- The bytes of those lines.
abbrev pub screen_bytes : ℕ
screen_bytes = lines * columns * 2

-- What a scroll leaves at the byte `x`.
abbrev pub scrolled : Screen → ℕ → ℕ
scrolled s x =
    if ltb x (columns * 2 - s.topright_length * 2)
    then s.cell (x + columns * 2)
    else if within x (columns * 2) (columns * (lines - 2) * 2)
    then s.cell (x + columns * 2)
    else if within x (columns * (lines - 1) * 2) (columns * 2)
    then 0
    else s.cell x

-- A scroll moves each line but the first one up by one and clears the last; of the line that moves
-- to the top, what the text at the top right covers stays. Nothing else changes.
pub scroll_lines_up-scrolled : (s : Screen) (x : ℕ) → (scroll_lines_up s).cell x ≡ scrolled s x
unfolding scroll_lines_up
scroll_lines_up-scrolled s x =
    let n : ℕ = 160 - s.topright_length * 2 in
    let first = memcpy s.cell 0 160 n in
    ground (
      arith,
      memset_lem (memcpy first 160 320 3520) 3680 0 160 x,
      memcpy_lem first 160 320 3520 x (inl (omega arith)),
      memcpy_lem s.cell 0 160 n x (inl (omega arith)),
      memcpy_lem s.cell 0 160 n (320 + (x - 160)) (inl (omega arith)),
    )

-- What an operation keeps: the cursor on the screen, and every byte behind the output lines.
pub record Keeps (s t : Screen) : Type 0 where
  pub cursor_in : OnScreen t
  pub behind : (x : ℕ) → screen_bytes ≤ x → t.cell x ≡ s.cell x

scroll_lines_up-cursor : (s : Screen) → (scroll_lines_up s).cursor ≡ s.cursor
unfolding scroll_lines_up
scroll_lines_up-cursor s = refl

scroll_if_full-Keeps : (s : Screen) → s.cursor ≤ lines * columns → Keeps s (scroll_if_full s)
unfolding scroll_if_full
scroll_if_full-Keeps s h = elim (Bool-cases (leb (lines * columns) s.cursor)) [
  | inl full ↦ rw full (record {
    cursor_in = omega (arith, scroll_lines_up-cursor s);
    behind = λ x k. scroll_lines_up-scrolled s x ∙ ground arith;
  })
  | inr room ↦ rw room (record { cursor_in = ground arith; behind = λ x k. refl })
]

put-Keeps :
    (s : Screen) (c : ℕ)
    → OnScreen s
    → (put s c).cursor ≤ lines * columns
      × ((x : ℕ) → screen_bytes ≤ x → (put s c).cell x ≡ s.cell x)
unfolding put store
put-Keeps s c h = (ground arith, λ x k. ground arith)

at_attribute-behind :
    (s : Screen) (f : ℕ → ℕ)
    → OnScreen s
    → (x : ℕ) → screen_bytes ≤ x
    → (at_attribute s f).cell x ≡ s.cell x
unfolding store
at_attribute-behind s f h x k = ground arith

-- `print_func` keeps the cursor on the screen and writes only to the output lines.
pub print_func-Keeps : (s : Screen) (c : ℕ) → OnScreen s → Keeps s (print_func s c)
unfolding print_func
print_func-Keeps s c h =
    let a = at_attribute s de_blink in
    let p = put-Keeps a c h in
    let k = scroll_if_full-Keeps (put a c) p.0 in
    record {
      cursor_in = k.cursor_in;
      behind = λ x b.
          at_attribute-behind (scroll_if_full (put a c)) blink k.cursor_in x b
          ∙ k.behind x b
          ∙ p.1 x b
          ∙ at_attribute-behind s de_blink h x b;
    }
