-- ===== src/Syscall/Text.antt =====
-- Text in the memory: what is written as a C string is read back, and `SYSCALL_GET_TIME` writes such.
use kernel_c.Prelude.{
  ℕ, zero, suc, u32, length-append, ◌+◌, ◌<◌, ◌≡◌, ◌≢◌, inl, inr, refl, ap, ◌∙◌, some, List, [],
  ◌∷◌, ◌++◌, ==_self, ==_ne, arith, length, Bool-cases,
}
use kernel_c.Multitask.{Kernel}
use kernel_c.Loader.Decimal.{number, AreDigits, uint_to_str_lem}
use kernel_c.Syscall.{
  System, Registers, sys_get_time, decode, is_user, byte_at, poke_byte, poke_bytes, string_at,
  returned,
}
use kernel_c.Syscall.Handler.{with_kernel, perform, perform_or_refuse, syscall_handler}

poke_byte-is_user : (k : Kernel) (a b q : ℕ) → is_user (poke_byte k a b) q ≡ is_user k q
poke_byte-is_user k a b q = elim (Bool-cases (is_user k a)) [
  | inl user ↦ rw user refl
  | inr kernel ↦ rw kernel refl
]

byte_at_self : (k : Kernel) (a b : ℕ) → byte_at (poke_byte k a b) a ≡ b
byte_at_self k a b = elim (Bool-cases (is_user k a)) [
  | inl user ↦ rw (user, user, ==_self a) refl
  | inr kernel ↦ rw (kernel, kernel, ==_self a) refl
]

byte_at-other : (k : Kernel) (a b q : ℕ) → q ≢ a → byte_at (poke_byte k a b) q ≡ byte_at k q
byte_at-other k a b q ne = elim (Bool-cases (is_user k a)) [
  | inl user ↦ rw (user, ==_ne q a ne) refl
  | inr kernel ↦ rw (kernel, ==_ne q a ne) refl
]

poke_bytes-before :
    (k : Kernel) (a : ℕ) (bs : List ℕ) (q : ℕ) → q < a → byte_at (poke_bytes k a bs) q ≡ byte_at k q
unfolding poke_bytes
poke_bytes-before k a [] q before = refl
poke_bytes-before k a (b ∷ bs) q before =
    poke_bytes-before (poke_byte k a b) (a + 1) bs q (omega (arith, before))
    ∙ byte_at-other k a b q (λ e. omega (arith, before, e))

-- no byte of a string is its end
pub AreChars : List ℕ → Type 0
AreChars [] = Unit
AreChars (c ∷ str) = (c ≢ 0) × AreChars str

pub string_at-poke_bytes :
    (n : ℕ) (k : Kernel) (a : ℕ) (str : List ℕ)
    → AreChars str
    → length str < n
    → string_at n (poke_bytes k a (str ++ 0 ∷ [])) a ≡ some str
unfolding string_at poke_bytes AreChars
string_at-poke_bytes zero k a str chars room = absurd (omega arith)
string_at-poke_bytes (suc n) k a [] chars room = rw (byte_at_self k a 0) refl
string_at-poke_bytes (suc n) k a (c ∷ str) chars room =
    let here : byte_at (poke_bytes (poke_byte k a c) (a + 1) (str ++ 0 ∷ [])) a ≡ c =
      poke_bytes-before (poke_byte k a c) (a + 1) (str ++ 0 ∷ []) a (omega arith)
      ∙ byte_at_self k a c in
    rw
      (
        here,
        ==_ne c 0 chars.0,
        string_at-poke_bytes n (poke_byte k a c) (a + 1) str chars.1 (omega arith),
      )
      refl

AreDigits-AreChars : (text : List ℕ) → AreDigits text → AreChars text
unfolding AreChars
AreDigits-AreChars [] digits = tt
AreDigits-AreChars (d ∷ text) digits =
    ((λ e. omega (arith, e, digits.0)), AreDigits-AreChars text digits.2)

-- The call `SYSCALL_GET_TIME` returns the address of its buffer, and the buffer then holds a C string of at
-- most ten decimal digits that read back as the 32 bits that the caller put into `rdi`, whatever
-- buffer `rsi` names. Fuel for eleven rounds is enough.
pub sys_get_time_lem :
    (s : System) (r : Registers) (value buf : ℕ)
    → decode r ≡ some (sys_get_time value buf)
    → (k : Kernel) × (text : List ℕ) × (syscall_handler 11 r s
        ≡ some (returned buf (with_kernel s k)))
      × (string_at 11 k buf ≡ some text)
      × AreDigits text
      × (number 0 text ≡ u32 value)
unfolding syscall_handler perform
sys_get_time_lem s r value buf is_call =
    let (text, ran, reads, digits, short) = uint_to_str_lem value in
    (
      poke_bytes s.kernel buf (text ++ 0 ∷ []),
      text,
      ap (λ c. perform_or_refuse 11 c s) is_call ∙ rw ran refl,
      string_at-poke_bytes 11 s.kernel buf text (AreDigits-AreChars text digits)
          (omega (arith, short, length-append text (0 ∷ []))),
      digits,
      reads,
    )
