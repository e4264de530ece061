-- ===== src/Keyboard/Table.antt =====
-- The scancode tables of keyboard/keyboard.c, over the key numbers of keyboard/keyboard.h.
use kernel_c.Prelude.{ℕ, Bool, false, ◌||◌, List, [], ◌∷◌, if◌then◌else◌, ◌==◌}

-- The keys `KEY_A` to `KEY_Z`, in the order of the source.
abbrev pub letter_keys : List ℕ
letter_keys =
    0x1E ∷ 0x30 ∷ 0x2E ∷ 0x20 ∷ 0x12 ∷ 0x21 ∷ 0x22 ∷ 0x23 ∷ 0x17 ∷ 0x24 ∷ 0x25 ∷ 0x26 ∷ 0x32 ∷ 0x31
    ∷ 0x18 ∷ 0x19 ∷ 0x10 ∷ 0x13 ∷ 0x1F ∷ 0x14 ∷ 0x16 ∷ 0x2F ∷ 0x11 ∷ 0x2D ∷ 0x15 ∷ 0x2C ∷ []

-- `KEY_1` to `KEY_0`, then `KEY_MINUS`, `KEY_EQUAL`, the brackets, `KEY_SEMICOLON`, `KEY_BACKSLASH`,
-- `KEY_COMMA`, `KEY_DOT`, `KEY_FORESLHASH`, `KEY_APOSTROPHE`, `KEY_GRAVE`
abbrev pub sign_keys : List ℕ
sign_keys =
    0x02 ∷ 0x03 ∷ 0x04 ∷ 0x05 ∷ 0x06 ∷ 0x07 ∷ 0x08 ∷ 0x09 ∷ 0x0A ∷ 0x0B ∷ 0x0C ∷ 0x0D ∷ 0x1A ∷ 0x1B
    ∷ 0x27 ∷ 0x2B ∷ 0x33 ∷ 0x34 ∷ 0x35 ∷ 0x28 ∷ 0x29 ∷ []

-- `KEY_SPACE`, `KEY_ENTER`, `KEY_TAB`, `KEY_BACKSPACE`
abbrev pub control_keys : List ℕ
control_keys = 0x39 ∷ 0x1C ∷ 0x0F ∷ 0x0E ∷ []

abbrev pub lower_letters : List ℕ
lower_letters =
    b'a' ∷ b'b' ∷ b'c' ∷ b'd' ∷ b'e' ∷ b'f' ∷ b'g' ∷ b'h' ∷ b'i' ∷ b'j' ∷ b'k' ∷ b'l' ∷ b'm' ∷ b'n'
    ∷ b'o' ∷ b'p' ∷ b'q' ∷ b'r' ∷ b's' ∷ b't' ∷ b'u' ∷ b'v' ∷ b'w' ∷ b'x' ∷ b'y' ∷ b'z' ∷ []

abbrev pub upper_letters : List ℕ
upper_letters =
    b'A' ∷ b'B' ∷ b'C' ∷ b'D' ∷ b'E' ∷ b'F' ∷ b'G' ∷ b'H' ∷ b'I' ∷ b'J' ∷ b'K' ∷ b'L' ∷ b'M' ∷ b'N'
    ∷ b'O' ∷ b'P' ∷ b'Q' ∷ b'R' ∷ b'S' ∷ b'T' ∷ b'U' ∷ b'V' ∷ b'W' ∷ b'X' ∷ b'Y' ∷ b'Z' ∷ []

-- 1234567890-=[];\,./'`
abbrev pub plain_signs : List ℕ
plain_signs =
    b'1' ∷ b'2' ∷ b'3' ∷ b'4' ∷ b'5' ∷ b'6' ∷ b'7' ∷ b'8' ∷ b'9' ∷ b'0' ∷ 0x2D ∷ 0x3D ∷ 0x5B ∷ 0x5D
    ∷ 0x3B ∷ 0x5C ∷ 0x2C ∷ 0x2E ∷ 0x2F ∷ 0x27 ∷ 0x60 ∷ []

-- !@#$%^&*()_+{}:|<>?"~
abbrev pub shifted_signs : List ℕ
shifted_signs =
    0x21 ∷ 0x40 ∷ 0x23 ∷ 0x24 ∷ 0x25 ∷ 0x5E ∷ 0x26 ∷ 0x2A ∷ 0x28 ∷ 0x29 ∷ 0x5F ∷ 0x2B ∷ 0x7B ∷ 0x7D
    ∷ 0x3A ∷ 0x7C ∷ 0x3C ∷ 0x3E ∷ 0x3F ∷ 0x22 ∷ 0x7E ∷ []

-- `INTERNAL_SPACE`, newline, tab, backspace
abbrev pub control_chars : List ℕ
control_chars = 0x01 ∷ 0x0A ∷ 0x09 ∷ 0x08 ∷ []

-- the initialisers of one group, `[key] = char`; 0 where no key is named
abbrev pub look_up : List ℕ → List ℕ → ℕ → ℕ → ℕ
look_up [] cs key other = other
look_up (k ∷ ks) [] key other = other
look_up (k ∷ ks) (c ∷ cs) key other =
    let rest = look_up ks cs key other in if key == k then c else rest

unfoldable pub scancode_to_ascii : ℕ → ℕ
scancode_to_ascii key =
    look_up letter_keys lower_letters key
      (look_up sign_keys plain_signs key (look_up control_keys control_chars key 0))

unfoldable pub scancode_to_ascii_shifted : ℕ → ℕ
scancode_to_ascii_shifted key =
    look_up letter_keys upper_letters key
      (look_up sign_keys shifted_signs key (look_up control_keys control_chars key 0))

abbrev pub has_key : ℕ → List ℕ → Bool
has_key key [] = false
has_key key (k ∷ ks) = key == k || has_key key ks
