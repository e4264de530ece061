-- ===== src/Keyboard/Handler.antt =====
-- What one key event does: the character that is stored, and the modifier keys.
use kernel_c.Prelude.{
  ℕ, ◌%◌, ◌≤◌, ◌<◌, ◌≡◌, ◌↔◌, refl, ap, Bool, true, false, not, ◌&&◌, ◌||◌, xor, List, [], ◌∷◌,
  ◌++◌, arith, if◌then◌else◌, ◌==◌, ltb, leb, length, passes_below, passes_below→test,
}
use kernel_c.Keyboard.{
  Keyboard, my_toupper, is_alpha, get_ascii_char, kbd_buffer_push, kbd_getchar, handle_key,
}
use kernel_c.Keyboard.Table.{
  letter_keys, lower_letters, upper_letters, sign_keys, plain_signs, shifted_signs, control_keys,
  control_chars, look_up, has_key, scancode_to_ascii, scancode_to_ascii_shifted,
}
use kernel_c.Keyboard.Queue.{IsValid, contents, taken, kbd_buffer_push_refines, kbd_getchar_refines}

-- a property of each number of a list
abbrev pub Each : List ℕ → (ℕ → Type 0) → Type 0
Each [] holds = Unit
Each (n ∷ rest) holds = holds n × Each rest holds

look_up-lt :
    (b : ℕ) (ks cs : List ℕ) (key other : ℕ)
    → Each cs (λ c. c < b)
    → other < b
    → look_up ks cs key other < b
look_up-lt b [] cs key other all lt = lt
look_up-lt b (k ∷ ks) [] key other all lt = lt
look_up-lt b (k ∷ ks) (c ∷ cs) key other (h, all) lt =
    ground (arith, look_up-lt b ks cs key other all lt)

scancode_to_ascii-lt : (key : ℕ) → scancode_to_ascii key < 127
unfolding scancode_to_ascii
scancode_to_ascii-lt key = look_up-lt 127 letter_keys lower_letters key _ (omega arith) (
    look_up-lt 127 sign_keys plain_signs key _ (omega arith)
      (look_up-lt 127 control_keys control_chars key 0 (omega arith) (omega arith)))

scancode_to_ascii_shifted-lt : (key : ℕ) → scancode_to_ascii_shifted key < 127
unfolding scancode_to_ascii_shifted
scancode_to_ascii_shifted-lt key = look_up-lt 127 letter_keys upper_letters key _ (omega arith) (
    look_up-lt 127 sign_keys shifted_signs key _ (omega arith)
      (look_up-lt 127 control_keys control_chars key 0 (omega arith) (omega arith)))

get_ascii_char-lt : (k : Keyboard) (key : ℕ) → get_ascii_char k key < 127
unfolding get_ascii_char my_toupper
get_ascii_char-lt k key = ground (arith, scancode_to_ascii-lt key, scancode_to_ascii_shifted-lt key)

-- The upper case of a letter's character is what the shifted table has for its key.
letter_table :
    passes_below
      (λ key.
        not (has_key key letter_keys)
        || my_toupper (scancode_to_ascii key) == scancode_to_ascii_shifted key)
      128
    ≡ true
unfolding passes_below my_toupper scancode_to_ascii scancode_to_ascii_shifted
letter_table = refl

has_key-lt : (b key : ℕ) (ks : List ℕ) → Each ks (λ k. k < b) → has_key key ks ≡ true → key < b
has_key-lt b key [] all h = cc
has_key-lt b key (k ∷ ks) (lt, all) h = ground (arith, has_key-lt b key ks all)

-- For the 26 letter keys, shift and caps lock cancel: exactly one of them gives the character of the
-- shifted table, both or neither that of the plain one.
pub get_ascii_char_letter :
    (k : Keyboard) (key : ℕ)
    → is_alpha key ≡ true
    → get_ascii_char k key ≡ (
        if xor k.shift_down k.caps_lock
        then scancode_to_ascii_shifted key
        else scancode_to_ascii key)
unfolding get_ascii_char is_alpha
get_ascii_char_letter k key alpha =
    let small : key < 128 = has_key-lt 128 key letter_keys (omega arith) alpha in
    let same = passes_below→test _ 128 key small letter_table in ground arith

-- a character that is neither the end of a string nor the -1 of an empty buffer
abbrev pub IsChar : ℕ → Type 0
IsChar c = (0 < c) × (c < 127)

Each-snoc : (cs : List ℕ) (c : ℕ) → Each cs IsChar → IsChar c → Each (cs ++ c ∷ []) IsChar
Each-snoc [] c all h = (h, tt)
Each-snoc (d ∷ ds) c (x, all) h = (x, Each-snoc ds c all h)

-- The buffer is well-formed and holds characters only.
pub record IsText (k : Keyboard) : Type 0 where
  pub valid : IsValid k
  pub chars : Each (contents k) IsChar

push-IsText : (k : Keyboard) (c : ℕ) → IsText k → IsChar c → IsText (kbd_buffer_push k c)
push-IsText k c t h =
    let (valid, same) = kbd_buffer_push_refines k c t.valid in
    record { valid = valid; chars = rw same (kept (ltb (length (contents k)) 255)) }
  where
    kept : (b : Bool) → Each (if b then contents k ++ c ∷ [] else contents k) IsChar
    kept true = Each-snoc (contents k) c t.chars h
    kept false = t.chars

-- The buffer only ever receives characters from 1 to 126, whatever keys are pressed or released: a
-- full buffer loses keys, and no scancode stores a 0 or a 255.
pub handle_key-IsText : (k : Keyboard) (code : ℕ) → IsText k → IsText (handle_key k code)
unfolding handle_key
handle_key-IsText k code t = ground (
  arith,
  push-IsText k 3 t,
  push-IsText k (get_ascii_char k (code % 128)) t,
  get_ascii_char-lt k (code % 128),
)

taken-char : (cs : List ℕ) → Each cs IsChar → ((taken cs).0 ≡ 255) ↔ (cs ≡ [])
taken-char [] all = (λ _. refl, λ _. refl)
taken-char (c ∷ cs) (h, all) = (λ e. absurd (omega arith), λ e. cc)

Each-taken : (cs : List ℕ) → Each cs IsChar → Each (taken cs).1 IsChar
Each-taken [] all = tt
Each-taken (c ∷ cs) (h, all) = all

-- `kbd_getchar` returns -1 exactly when no character waits, so that a reader can tell the two apart.
-- The buffer still holds characters only.
pub kbd_getchar-IsText :
    (k : Keyboard)
    → IsText k
    → (((kbd_getchar k).0 ≡ 255) ↔ (contents k ≡ [])) × IsText (kbd_getchar k).1
kbd_getchar-IsText k t =
    let (valid, same) = kbd_getchar_refines k t.valid in
    (
      rw (ap (λ (r : ℕ × List ℕ). r.0) same) (taken-char (contents k) t.chars),
      record {
        valid = valid;
        chars = rw (ap (λ (r : ℕ × List ℕ). r.1) same) (Each-taken (contents k) t.chars);
      },
    )

push_modifiers :
    (k : Keyboard) (c : ℕ)
    → ((kbd_buffer_push k c).shift_down ≡ k.shift_down)
      × ((kbd_buffer_push k c).caps_lock ≡ k.caps_lock)
      × ((kbd_buffer_push k c).ctrl_down ≡ k.ctrl_down)
unfolding kbd_buffer_push
push_modifiers k c = ground arith

-- After any key event, shift is down exactly if the event pressed a shift key or it was down and the
-- event is of another key; so for the left control key. Caps lock turns over when its key is pressed
-- and at no other event.
pub handle_key_modifiers :
    (k : Keyboard) (code : ℕ)
    → let pressed = not (leb 128 code) in
      let key = code % 128 in
      ((handle_key k code).shift_down
        ≡ (if key == 0x2A || key == 0x36 then pressed else k.shift_down))
      × ((handle_key k code).ctrl_down ≡ (if key == 0x1D then pressed else k.ctrl_down))
      × ((handle_key k code).caps_lock
          ≡ (if key == 0x3A && pressed then not k.caps_lock else k.caps_lock))
unfolding handle_key
handle_key_modifiers k code =
    ground (arith, push_modifiers k 3, push_modifiers k (get_ascii_char k (code % 128)))

-- Releasing a key stores nothing.
pub handle_key_released :
    (k : Keyboard) (code : ℕ) → 128 ≤ code → contents (handle_key k code) ≡ contents k
unfolding handle_key
handle_key_released k code released = ground arith
