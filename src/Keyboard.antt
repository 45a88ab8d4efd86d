-- ===== src/Keyboard.antt =====
-- sys/keyboard.c: scan codes to characters, and what a scan code does.
pub mod Laws
mod Tests
use sbu_os.Prelude.{
  ℕ, ◌+◌, ◌-◌, Bool, true, false, not, ◌&&◌, Option, none, some, List, [], ◌∷◌, ltb, leb, ◌==◌,
  if◌then◌else◌, get_or,
}

abbrev pub ascii_map : List ℕ
ascii_map =
    0 ∷ 0 ∷ b'1' ∷ b'2' ∷ b'3' ∷ b'4' ∷ b'5' ∷ b'6' ∷ b'7' ∷ b'8' ∷ b'9' ∷ b'0' ∷ b'-' ∷ b'=' ∷ 0
    ∷ 0 ∷ b'q' ∷ b'w' ∷ b'e' ∷ b'r' ∷ b't' ∷ b'y' ∷ b'u' ∷ b'i' ∷ b'o' ∷ b'p' ∷ b'[' ∷ b']' ∷ 10 ∷ 0
    ∷ b'a' ∷ b's' ∷ b'd' ∷ b'f' ∷ b'g' ∷ b'h' ∷ b'j' ∷ b'k' ∷ b'l' ∷ b';' ∷ 39 ∷ b'`' ∷ 0 ∷ 92
    ∷ b'z' ∷ b'x' ∷ b'c' ∷ b'v' ∷ b'b' ∷ b'n' ∷ b'm' ∷ b',' ∷ b'.' ∷ b'/' ∷ 0 ∷ 0 ∷ 0 ∷ b' ' ∷ 0 ∷ 0
    ∷ 0 ∷ 0 ∷ 0 ∷ 0 ∷ 0 ∷ 0 ∷ 0 ∷ 0 ∷ 0 ∷ 0 ∷ 0 ∷ 0 ∷ 0 ∷ 0 ∷ 0 ∷ 0 ∷ 0 ∷ 0 ∷ 0 ∷ 0 ∷ 0 ∷ 0 ∷ 0 ∷ 0
    ∷ 0 ∷ 0 ∷ 0 ∷ 0 ∷ 0 ∷ 0 ∷ 0 ∷ 0 ∷ 0 ∷ 0 ∷ 0 ∷ 0 ∷ 0 ∷ 0 ∷ 0 ∷ 0 ∷ 0 ∷ 0 ∷ 0 ∷ 0 ∷ 0 ∷ 0 ∷ 0 ∷ 0
    ∷ 0 ∷ 0 ∷ 0 ∷ 0 ∷ 0 ∷ 0 ∷ 0 ∷ 0 ∷ 0 ∷ 0 ∷ 0 ∷ 0 ∷ 0 ∷ 0 ∷ 0 ∷ 0 ∷ 0 ∷ 0 ∷ 0 ∷ 0 ∷ 0 ∷ 0 ∷ 0 ∷ 0
    ∷ 0 ∷ 0 ∷ 0 ∷ 0 ∷ 0 ∷ 0 ∷ 0 ∷ 0 ∷ 0 ∷ 0 ∷ 8 ∷ 0 ∷ 0 ∷ 0 ∷ 0 ∷ 0 ∷ 0 ∷ 0 ∷ 0 ∷ 0 ∷ 0 ∷ 0 ∷ 0 ∷ 0
    ∷ 0 ∷ 0 ∷ 0 ∷ 0 ∷ 0 ∷ 0 ∷ 0 ∷ 0 ∷ 0 ∷ 0 ∷ 0 ∷ 0 ∷ 0 ∷ 0 ∷ 0 ∷ 0 ∷ 0 ∷ 0 ∷ 0 ∷ 0 ∷ 0 ∷ 0 ∷ 0 ∷ 0
    ∷ 0 ∷ 0 ∷ 0 ∷ 0 ∷ 0 ∷ 0 ∷ 0 ∷ 0 ∷ 0 ∷ 0 ∷ 0 ∷ 0 ∷ 0 ∷ 0 ∷ 0 ∷ 0 ∷ 0 ∷ 0 ∷ 0 ∷ 0 ∷ 0 ∷ 0 ∷ 0 ∷ 0
    ∷ 0 ∷ 0 ∷ 0 ∷ 0 ∷ 0 ∷ 0 ∷ 0 ∷ 0 ∷ 0 ∷ 0 ∷ 0 ∷ 0 ∷ 0 ∷ 0 ∷ 0 ∷ 0 ∷ 0 ∷ 0 ∷ 0 ∷ 0 ∷ 0 ∷ 0 ∷ 0 ∷ 0
    ∷ 0 ∷ 0 ∷ 0 ∷ 0 ∷ 0 ∷ 0 ∷ 0 ∷ 0 ∷ 0 ∷ 0 ∷ 0 ∷ 0 ∷ 0 ∷ 0 ∷ 0 ∷ 0 ∷ 0 ∷ 0 ∷ 0 ∷ 0 ∷ 0 ∷ 0 ∷ 0 ∷ 0
    ∷ 0 ∷ 0 ∷ 0 ∷ 0 ∷ []

abbrev pub asc_array : List ℕ
asc_array =
    0 ∷ 0 ∷ 0 ∷ 0 ∷ 0 ∷ 0 ∷ 0 ∷ 0 ∷ 0 ∷ 0 ∷ 0 ∷ 0 ∷ 0 ∷ 0 ∷ 0 ∷ 0 ∷ 0 ∷ 0 ∷ 0 ∷ 0 ∷ 0 ∷ 0 ∷ 0 ∷ 0
    ∷ 0 ∷ 0 ∷ 0 ∷ 0 ∷ 0 ∷ 0 ∷ 0 ∷ 0 ∷ 0 ∷ 0 ∷ 0 ∷ 0 ∷ 0 ∷ 0 ∷ 0 ∷ 34 ∷ 0 ∷ 0 ∷ 0 ∷ 0 ∷ b'<' ∷ b'_'
    ∷ b'>' ∷ b'?' ∷ b')' ∷ b'!' ∷ b'@' ∷ b'#' ∷ b'$' ∷ b'%' ∷ b'^' ∷ b'&' ∷ b'*' ∷ b'(' ∷ 0 ∷ b':'
    ∷ 0 ∷ b'+' ∷ 0 ∷ 0 ∷ 0 ∷ 0 ∷ 0 ∷ 0 ∷ 0 ∷ 0 ∷ 0 ∷ 0 ∷ 0 ∷ 0 ∷ 0 ∷ 0 ∷ 0 ∷ 0 ∷ 0 ∷ 0 ∷ 0 ∷ 0 ∷ 0
    ∷ 0 ∷ 0 ∷ 0 ∷ 0 ∷ 0 ∷ 0 ∷ 0 ∷ b'0' ∷ b'{' ∷ b'|' ∷ b'}' ∷ 0 ∷ 0 ∷ b'~' ∷ 0 ∷ 0 ∷ 0 ∷ []

-- `shiftConvert`. 256 is no character: it stands for a read behind the array.
unfoldable pub shift_convert : (code : ℕ) → ℕ
shift_convert code = get_or asc_array code 256

-- `_isAlphabet`
abbrev pub is_alphabet : (code : ℕ) → Bool
is_alphabet code = leb 97 code && leb code 122

-- `translate_keyboard_scan_code`
unfoldable pub translate_keyboard_scan_code : (code : ℕ) → (is_shift : Bool) → ℕ
unfolding shift_convert
translate_keyboard_scan_code code is_shift =
    let return_value = get_or ascii_map code 0 in
    if is_shift && is_alphabet return_value
    then return_value - 32
    else if is_shift
    then shift_convert return_value
    else return_value

-- `shift` and `ctrl`
pub record Keys : Type 0 where
  pub shift : Bool
  pub ctrl : Bool

-- What a key does: the new `last_key_pressed`, up to its 0, which is shown at the top right; and the
-- character that goes to `terminal_input_ascii`, if one does.
pub record Press : Type 0 where
  pub last_key_pressed : List ℕ
  pub terminal_input : Option ℕ

-- `code ^ 0b10000000` of a byte
abbrev pub flip_release : (code : ℕ) → ℕ
flip_release code = if ltb code 128 then code + 128 else code - 128

-- A key that is not a modifier: its `ascii` and `is_release`.
unfoldable pub decode : (code : ℕ) → (shift : Bool) → ℕ × Bool
unfolding translate_keyboard_scan_code
decode code shift =
    let ascii = translate_keyboard_scan_code code shift in
    if ascii == 0
    then (translate_keyboard_scan_code (flip_release code) shift, true)
    else (ascii, false)

-- The part of `handle_keyboard_scan_code` behind `decode`.
unfoldable pub press : (ascii : ℕ) → (is_release ctrl : Bool) → Option Press
press ascii is_release ctrl =
    if ascii == 0
    then none
    else if is_release
    then none
    else if not ctrl
    then some (record { last_key_pressed = ascii ∷ []; terminal_input = some ascii })
    else some (record {
      last_key_pressed = b'^' ∷ ascii ∷ [];
      terminal_input = if ascii == b'c' then some 24 else none;
    })

-- `handle_keyboard_scan_code`
unfoldable pub handle_keyboard_scan_code : Keys → (code : ℕ) → Keys × Option Press
handle_keyboard_scan_code k code =
    if code == 42
    then (record k { shift = true }, none)
    else if code == 170
    then (record k { shift = false }, none)
    else if code == 29
    then (record k { ctrl = true }, none)
    else if code == 157
    then (record k { ctrl = false }, none)
    else (let (ascii, is_release) = decode code k.shift in (k, press ascii is_release k.ctrl))
