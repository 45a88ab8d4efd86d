-- ===== src/Keyboard/Tests.antt =====
-- Tests and examples for the keyboard.
use sbu_os.Prelude.{◌≡◌, refl, true, false, some, [], ◌∷◌}
use sbu_os.Keyboard.{Keys, translate_keyboard_scan_code, decode, press, handle_keyboard_scan_code}

abbrev no_keys : Keys
no_keys = record { shift = false; ctrl = false }

-- Scan code 30 is the key of the letter a.
small_a :
    (handle_keyboard_scan_code no_keys 30).1
    ≡ some (record { last_key_pressed = b'a' ∷ []; terminal_input = some b'a' })
unfolding handle_keyboard_scan_code decode press
small_a = refl

capital_a : translate_keyboard_scan_code 30 true ≡ b'A'
unfolding translate_keyboard_scan_code
capital_a = refl

-- The space bar with shift types nothing.
shift_space : translate_keyboard_scan_code 57 true ≡ 0
unfolding translate_keyboard_scan_code
shift_space = refl
