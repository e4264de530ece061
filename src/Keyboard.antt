-- ===== src/Keyboard.antt =====
-- keyboard/keyboard.c: modifier keys, the ring of characters, and the interrupt handler. The byte
-- that `inb(KEYBOARD_PORT)` reads is an argument of the handler. A `char` is its byte, so that the -1
-- of an empty buffer is 255. Interrupts are off inside `kbd_buffer_push` and `kbd_getchar`, so each
-- is one step.
pub mod Table
pub mod Queue
pub mod Handler
mod Tests
use kernel_c.Prelude.{
  ℕ, ◌+◌, ◌-◌, ◌/◌, ◌%◌, Bool, true, false, not, ◌&&◌, ◌||◌, xor, List, [], if◌then◌else◌, ◌==◌,
  leb, get_or, set,
}
use kernel_c.Port.{PortWrite, pic_send_eoi}
use kernel_c.Keyboard.Table.{letter_keys, scancode_to_ascii, scancode_to_ascii_shifted, has_key}

abbrev pub buf_size : ℕ
buf_size = 256

pub record Keyboard : Type 0 where
  pub shift_down : Bool
  pub caps_lock : Bool
  pub ctrl_down : Bool
  pub buf : List ℕ
  pub head : ℕ
  pub tail : ℕ

unfoldable pub my_toupper : ℕ → ℕ
my_toupper c = if leb b'a' c && leb c b'z' then c - 32 else c

unfoldable pub is_alpha : ℕ → Bool
is_alpha scancode = has_key scancode letter_keys

unfoldable pub get_ascii_char : Keyboard → ℕ → ℕ
get_ascii_char k scancode =
    if is_alpha scancode
    then (let base = scancode_to_ascii scancode in
        if xor k.shift_down k.caps_lock then my_toupper base else base)
    else if k.shift_down
    then scancode_to_ascii_shifted scancode
    else scancode_to_ascii scancode

unfoldable pub kbd_buffer_push : Keyboard → ℕ → Keyboard
kbd_buffer_push k c =
    let next = (k.head + 1) % buf_size in
    if not (next == k.tail) then record k { buf = set k.buf k.head c; head = next } else k

-- 255 is the `char` -1
unfoldable pub kbd_getchar : Keyboard → ℕ × Keyboard
kbd_getchar k =
    if k.head == k.tail
    then (255, k)
    else (get_or k.buf k.tail 0, record k { tail = (k.tail + 1) % buf_size })

-- what the handler does to the keyboard's state, `code` being what the port reads
unfoldable pub handle_key : Keyboard → ℕ → Keyboard
handle_key k code =
    let released = leb 128 code in
    let key = code % 128 in
    if key == 0x1D || key == 0xE01D
    then record k { ctrl_down = not released }
    else if not released && k.ctrl_down && key == 0x2E
    then kbd_buffer_push k 0x03
    else if key == 0x2A || key == 0x36
    then record k { shift_down = not released }
    else if key == 0x3A && not released
    then record k { caps_lock = not k.caps_lock }
    else if not released
    then (let ch = get_ascii_char k key in if not (ch == 0) then kbd_buffer_push k ch else k)
    else k

-- Every path of the handler ends in one `pic_send_eoi(1)`.
unfoldable pub keyboard_handler : Keyboard → ℕ → Keyboard × List PortWrite
keyboard_handler k code = (handle_key k code, pic_send_eoi 1)
