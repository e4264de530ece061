-- ===== src/Loader/Decimal.antt =====
-- `uint_to_str` against the number that a text stands for.
use kernel_c.Prelude.{
  ℕ, zero, suc, ◌+◌, ◌-◌, ◌*◌, ◌/◌, ◌%◌, ◌≤◌, ◌<◌, ◌≡◌, ◌≢◌, refl, ap, ◌∙◌, sym, some, List, [],
  ◌∷◌, ◌++◌, ==_ne, arith, length, u32, ℕ_discrete, length-append,
}
use kernel_c.Loader.{digits_loop, uint_to_str}

-- the number that decimal digits stand for, behind others that stand for `n`
pub number : ℕ → List ℕ → ℕ
number n [] = n
number n (d ∷ ds) = number (n * 10 + (d - 48)) ds

-- characters from 0 to 9
abbrev pub AreDigits : List ℕ → Type 0
AreDigits [] = Unit
AreDigits (d ∷ ds) = (48 ≤ d) × (d ≤ 57) × AreDigits ds

abbrev power_of_ten : ℕ → ℕ
power_of_ten zero = 1
power_of_ten (suc n) = 10 * power_of_ten n

record Digits (fuel value : ℕ) (ds : List ℕ) (room : ℕ) : Type 0 where
  text : List ℕ
  ran : digits_loop fuel value ds ≡ some text
  reads : number 0 text ≡ number value ds
  are_digits : AreDigits text
  fits : length text ≤ length ds + room

Digits-zero : (n value : ℕ) (ds : List ℕ) → value ≡ 0 → AreDigits ds → Digits (suc n) value ds n
unfolding digits_loop
Digits-zero n value ds e are = record {
  text = ds;
  ran = rw e refl;
  reads = rw e refl;
  are_digits = are;
  fits = omega arith;
}

Digits-step :
    (n value : ℕ) (ds : List ℕ)
    → value ≢ 0
    → Digits (suc n) (value / 10) ((48 + value % 10) ∷ ds) n
    → Digits (suc (suc n)) value ds (suc n)
unfolding digits_loop number
Digits-step n value ds ne d = record {
  text = d.text;
  ran = rw (==_ne value 0 ne) d.ran;
  reads = d.reads ∙ ap (λ v. number v ds) (last_digit value);
  are_digits = d.are_digits;
  fits = omega (arith, d.fits);
}
  where
    last_digit : (value : ℕ) → value / 10 * 10 + ((48 + value % 10) - 48) ≡ value
    last_digit value = omega arith

digits_loop_lem :
    (n value : ℕ) (ds : List ℕ) → value < power_of_ten n → AreDigits ds → Digits (suc n) value ds n
digits_loop_lem zero value ds small are = Digits-zero zero value ds (omega (arith, small)) are
digits_loop_lem (suc n) value ds small are = elim (ℕ_discrete value 0) [
  | yes e ↦ Digits-zero (suc n) value ds e are
  | no ne ↦ Digits-step n value ds ne (
      digits_loop_lem n (value / 10) ((48 + value % 10) ∷ ds) (omega (arith, small))
        ((omega arith), (omega arith), are))
]

uint_to_str-some :
    (fuel value : ℕ) (text : List ℕ)
    → u32 value ≢ 0
    → digits_loop fuel (u32 value) [] ≡ some text
    → uint_to_str fuel value ≡ some (text ++ 0 ∷ [])
unfolding uint_to_str
uint_to_str-some fuel value text ne ran = rw (==_ne (u32 value) 0 ne, ran) refl

-- `uint_to_str` returns, with fuel for eleven rounds, for every argument: what it writes is at most ten
-- decimal digits, then a NUL, so it fits the 11 bytes of `str` and `tmp`; the digits read back as the
-- low 32 bits of the argument.
pub uint_to_str_lem :
    (value : ℕ)
    → (text : List ℕ) × (uint_to_str 11 value ≡ some (text ++ 0 ∷ []))
      × (number 0 text ≡ u32 value)
      × AreDigits text
      × (length (text ++ 0 ∷ []) ≤ 11)
unfolding uint_to_str number
uint_to_str_lem value = elim (ℕ_discrete (u32 value) 0) [
  | yes e ↦ (48 ∷ [], rw e refl, sym e, ((omega arith), (omega arith), tt), omega arith)
  | no ne ↦
      let d : Digits 11 (u32 value) [] 10 = digits_loop_lem 10 (u32 value) [] (omega arith) tt in
      (
        d.text,
        uint_to_str-some 11 value d.text ne d.ran,
        d.reads,
        d.are_digits,
        omega (arith, d.fits, length-append d.text (0 ∷ [])),
      )
]
