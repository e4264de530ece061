-- ===== src/Keyboard/Queue.antt =====
-- The ring buffer of the keyboard as a queue of at most 255 characters.
use kernel_c.Prelude.{
  ℕ, zero, suc, ◌+◌, ◌-◌, ◌%◌, ◌≤◌, ◌<◌, ◌≡◌, refl, ap, ◌∙◌, true, List, [], ◌∷◌, ◌++◌, arith,
  if◌then◌else◌, ◌==◌, ltb, length, get_or, set, length-set, get_or-set_self, get_or-set_ne, ==_ne,
  ==_self, lt→ltb, le→not_ltb, ℕ_discrete,
}
use kernel_c.Keyboard.{Keyboard, kbd_buffer_push, kbd_getchar}

pub record IsValid (k : Keyboard) : Type 0 where
  pub storage : length k.buf ≡ 256
  pub head_in : k.head < 256
  pub tail_in : k.tail < 256

-- the `n` characters from index `i` on, round the end of the buffer
abbrev pub stored : List ℕ → ℕ → ℕ → List ℕ
stored buf i zero = []
stored buf i (suc n) = get_or buf i 0 ∷ stored buf ((i + 1) % 256) n

abbrev pub waiting : Keyboard → ℕ
waiting k = (k.head + 256 - k.tail) % 256

-- oldest first
abbrev pub contents : Keyboard → List ℕ
contents k = stored k.buf k.tail (waiting k)

length-stored : (buf : List ℕ) (i n : ℕ) → length (stored buf i n) ≡ n
length-stored buf i zero = refl
length-stored buf i (suc n) = ap suc (length-stored buf ((i + 1) % 256) n)

-- a character written just behind the stored ones comes last
stored-set :
    (buf : List ℕ) (i n j c : ℕ)
    → length buf ≡ 256
    → i < 256
    → n < 256
    → j ≡ (i + n) % 256
    → stored (set buf j c) i (suc n) ≡ stored buf i n ++ c ∷ []
stored-set buf i zero j c size lo few at =
    let e : j ≡ i = omega arith in rw (e, get_or-set_self buf i c 0 (omega arith))
stored-set buf i (suc n) j c size lo few at =
    let e : j ≡ ((i + 1) % 256 + n) % 256 = omega arith in
    rw (get_or-set_ne buf j i c 0 (omega arith)) (
      ap (◌∷◌ (get_or buf i 0))
        (stored-set buf ((i + 1) % 256) n j c size (omega arith) (omega arith) e))

-- `kbd_buffer_push` appends the character if fewer than 255 wait, and drops it otherwise.
pub kbd_buffer_push_refines :
    (k : Keyboard) (c : ℕ)
    → IsValid k
    → IsValid (kbd_buffer_push k c)
      × (contents (kbd_buffer_push k c)
          ≡ (if ltb (length (contents k)) 255 then contents k ++ c ∷ [] else contents k))
unfolding kbd_buffer_push
kbd_buffer_push_refines k c v = elim (ℕ_discrete ((k.head + 1) % 256) k.tail) [
  | yes full ↦
      let many : 255 ≤ length (contents k) =
        omega (arith, length-stored k.buf k.tail (waiting k)) in
      rw (full, ==_self k.tail, le→not_ltb (length (contents k)) 255 many) (v, refl)
  | no room ↦
      let few : length (contents k) < 255 = omega (arith, length-stored k.buf k.tail (waiting k)) in
      let more : ((k.head + 1) % 256 + 256 - k.tail) % 256 ≡ suc (waiting k) = omega arith in
      rw (==_ne ((k.head + 1) % 256) k.tail room, lt→ltb (length (contents k)) 255 few, more)
        (
          record {
            storage = length-set k.buf k.head c ∙ v.storage;
            head_in = omega arith;
            tail_in = v.tail_in;
          },
          stored-set k.buf k.tail (waiting k) k.head c v.storage v.tail_in (omega arith)
              (omega arith),
        )
]

-- what `kbd_getchar` returns and leaves, by the characters that wait; 255 is -1
abbrev pub taken : List ℕ → ℕ × List ℕ
taken [] = (255, [])
taken (c ∷ cs) = (c, cs)

-- `kbd_getchar` returns the oldest character and removes it, or returns -1 if none waits.
pub kbd_getchar_refines :
    (k : Keyboard)
    → IsValid k
    → IsValid (kbd_getchar k).1
      × (((kbd_getchar k).0, contents (kbd_getchar k).1) ≡ taken (contents k))
unfolding kbd_getchar
kbd_getchar_refines k v = elim (ℕ_discrete k.head k.tail) [
  | yes empty ↦
      let none_waits : waiting k ≡ 0 = omega arith in rw (empty_test empty, none_waits) (v, refl)
  | no some_wait ↦
      let more : waiting k ≡ suc ((k.head + 256 - (k.tail + 1) % 256) % 256) = omega arith in
      rw (==_ne k.head k.tail some_wait, more)
        (record { storage = v.storage; head_in = v.head_in; tail_in = omega arith }, refl)
]
  where
    empty_test : k.head ≡ k.tail → (k.head == k.tail) ≡ true
    empty_test e = ground arith
