-- ===== src/Keyboard/Tests.antt =====
-- Keys typed on a concrete keyboard, and the theorems at these inputs.
use kernel_c.Prelude.{
  ◌≡◌, ◌↔◌, refl, true, false, xor, [], ◌∷◌, arith, if◌then◌else◌, replicate, set,
}
use kernel_c.Keyboard.{
  Keyboard, is_alpha, get_ascii_char, my_toupper, kbd_buffer_push, kbd_getchar, handle_key,
}
use kernel_c.Keyboard.Table.{scancode_to_ascii, scancode_to_ascii_shifted}
use kernel_c.Keyboard.Queue.{IsValid, contents, taken, kbd_buffer_push_refines, kbd_getchar_refines}
use kernel_c.Keyboard.Handler.{
  IsText, get_ascii_char_letter, handle_key-IsText, kbd_getchar-IsText, handle_key_modifiers,
  handle_key_released,
}

-- two characters round the end of the buffer, caps lock on
abbrev wrapped : Keyboard
wrapped = record {
  shift_down = false;
  caps_lock = true;
  ctrl_down = false;
  buf = set (set (replicate 256 0) 255 b'o') 0 b'k';
  head = 1;
  tail = 255;
}

wrapped-IsValid : IsValid wrapped
wrapped-IsValid = record { storage = refl; head_in = omega arith; tail_in = omega arith }

contents-wrapped : contents wrapped ≡ b'o' ∷ b'k' ∷ []
contents-wrapped = refl

wrapped-IsText : IsText wrapped
wrapped-IsText = record { valid = wrapped-IsValid; chars = omega arith }

-- the key `A` with caps lock on
types_capital : contents (handle_key wrapped 0x1E) ≡ b'o' ∷ b'k' ∷ b'A' ∷ []
unfolding handle_key get_ascii_char is_alpha my_toupper scancode_to_ascii kbd_buffer_push xor
types_capital = refl

kbd_buffer_push_refines_example :
    IsValid (kbd_buffer_push wrapped b'!')
    × (contents (kbd_buffer_push wrapped b'!') ≡ b'o' ∷ b'k' ∷ b'!' ∷ [])
kbd_buffer_push_refines_example = kbd_buffer_push_refines wrapped b'!' wrapped-IsValid

kbd_getchar_refines_example :
    IsValid (kbd_getchar wrapped).1
    × (((kbd_getchar wrapped).0, contents (kbd_getchar wrapped).1) ≡ taken (b'o' ∷ b'k' ∷ []))
kbd_getchar_refines_example = kbd_getchar_refines wrapped wrapped-IsValid

get_ascii_char_letter_run :
    get_ascii_char wrapped 0x1E
    ≡ (if xor false true then scancode_to_ascii_shifted 0x1E else scancode_to_ascii 0x1E)
unfolding is_alpha
get_ascii_char_letter_run = get_ascii_char_letter wrapped 0x1E refl

handle_key-IsText_example : IsText (handle_key wrapped 0x39)
handle_key-IsText_example = handle_key-IsText wrapped 0x39 wrapped-IsText

first_char_typed :
    (((kbd_getchar wrapped).0 ≡ 255) ↔ (contents wrapped ≡ [])) × IsText (kbd_getchar wrapped).1
first_char_typed = kbd_getchar-IsText wrapped wrapped-IsText

handle_key_modifiers_run :
    ((handle_key wrapped 0x2A).shift_down ≡ true)
    × ((handle_key wrapped 0x2A).ctrl_down ≡ false)
    × ((handle_key wrapped 0x2A).caps_lock ≡ true)
handle_key_modifiers_run = handle_key_modifiers wrapped 0x2A

release_stores_nothing : contents (handle_key wrapped 0x9E) ≡ b'o' ∷ b'k' ∷ []
release_stores_nothing = handle_key_released wrapped 0x9E (omega arith)
