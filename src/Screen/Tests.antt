-- ===== src/Screen/Tests.antt =====
-- Tests and examples for the screen.
use sbu_os.Prelude.{◌≡◌, refl}
use sbu_os.Screen.{Screen, scroll_lines_up, print_func, put, scroll_if_full}

-- Each byte holds its distance from the start; the cursor is in the last cell.
abbrev last_cell : Screen
last_cell = record { cell = λ x. x; cursor = 1919; topright_length = 4 }

-- A character in the last cell scrolls the screen.
full_cursor : (print_func last_cell 65).cursor ≡ 1840
unfolding print_func put scroll_if_full scroll_lines_up
full_cursor = refl

line_feed :
    (print_func (record { cell = λ x. x; cursor = 85; topright_length = 0 }) b'\n').cursor ≡ 160
unfolding print_func put scroll_if_full
line_feed = refl
