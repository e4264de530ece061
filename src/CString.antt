-- ===== src/CString.antt =====
-- libc/string.c over a memory of bytes: a map from addresses to bytes. A C string is the bytes from
-- an address up to the first zero.
pub mod Strings
pub mod Copies
mod Tests
use kernel_c.Prelude.{
  ℕ, zero, suc, ◌+◌, ◌-◌, Bool, not, ◌&&◌, Option, none, some, ◌>>=◌, ℤ, pos, negsuc, u8, leb,
  if◌then◌else◌, ◌==◌,
}

abbrev pub Bytes : Type 0
Bytes = ℕ → ℕ

abbrev pub poke : Bytes → ℕ → ℕ → Bytes
poke m p b a = if a == p then b else m a

-- `for (size_t i = 0; i < n; ++i) d[i] = s[i];`, by the rounds left
pub memcpy_loop : ℕ → ℕ → Bytes → ℕ → ℕ → Bytes
memcpy_loop zero i m dst src = m
memcpy_loop (suc k) i m dst src = memcpy_loop k (i + 1) (poke m (dst + i) (m (src + i))) dst src

unfoldable pub memcpy : Bytes → ℕ → ℕ → ℕ → Bytes
unfolding memcpy_loop
memcpy m dst src n = memcpy_loop n 0 m dst src

pub memset_loop : ℕ → ℕ → Bytes → ℕ → ℕ → Bytes
memset_loop zero i m s c = m
memset_loop (suc k) i m s c = memset_loop k (i + 1) (poke m (s + i) (u8 c)) s c

unfoldable pub memset : Bytes → ℕ → ℕ → ℕ → Bytes
unfolding memset_loop
memset m s c n = memset_loop n 0 m s c

-- `while (*s++) len++;`: a loop over a string takes fuel, and `none` means that the fuel ran out
pub strlen_loop : ℕ → Bytes → ℕ → ℕ → Option ℕ
strlen_loop zero m s len = none
strlen_loop (suc k) m s len =
    let rest = strlen_loop k m (s + 1) (len + 1) in if m s == 0 then some len else rest

unfoldable pub strlen : ℕ → Bytes → ℕ → Option ℕ
unfolding strlen_loop
strlen fuel m s = strlen_loop fuel m s 0

-- `while ((*d++ = *src++));`
pub strcpy_loop : ℕ → Bytes → ℕ → ℕ → Option Bytes
strcpy_loop zero m d src = none
strcpy_loop (suc k) m d src =
    let c = m src in
    let rest = strcpy_loop k (poke m d c) (d + 1) (src + 1) in
    if c == 0 then some (poke m d c) else rest

unfoldable pub strcpy : ℕ → Bytes → ℕ → ℕ → Option Bytes
unfolding strcpy_loop
strcpy fuel m dst src = strcpy_loop fuel m dst src

-- the second loop of `strncpy`, by the rounds left
pub pad_loop : ℕ → Bytes → ℕ → Bytes
pad_loop zero m d = m
pad_loop (suc k) m d = pad_loop k (poke m d 0) (d + 1)

-- the first loop of `strncpy`, with what follows it
pub strncpy_loop : ℕ → Bytes → ℕ → ℕ → Bytes
unfolding pad_loop
strncpy_loop zero m d src = m
strncpy_loop (suc k) m d src =
    let rest = strncpy_loop k (poke m d (m src)) (d + 1) (src + 1) in
    if m src == 0 then pad_loop (suc k) m d else rest

unfoldable pub strncpy : Bytes → ℕ → ℕ → ℕ → Bytes
unfolding strncpy_loop
strncpy m dst src n = strncpy_loop n m dst src

-- `while (*d) d++;`
pub end_loop : ℕ → Bytes → ℕ → Option ℕ
end_loop zero m d = none
end_loop (suc k) m d = let rest = end_loop k m (d + 1) in if m d == 0 then some d else rest

unfoldable pub strcat : ℕ → Bytes → ℕ → ℕ → Option Bytes
unfolding end_loop strcpy_loop
strcat fuel m dst src = end_loop fuel m dst >>= λ d. strcpy_loop fuel m d src

-- the last loop of `strncat` and the NUL behind it
pub strncat_loop : ℕ → Bytes → ℕ → ℕ → Bytes
strncat_loop zero m d src = poke m d 0
strncat_loop (suc k) m d src =
    let rest = strncat_loop k (poke m d (m src)) (d + 1) (src + 1) in
    if m src == 0 then poke m d 0 else rest

unfoldable pub strncat : ℕ → Bytes → ℕ → ℕ → ℕ → Option Bytes
unfolding end_loop strncat_loop
strncat fuel m dest src n = end_loop fuel m dest >>= λ d. some (strncat_loop n m d src)

-- A difference of two bytes, as an `int`.
abbrev pub byte_diff : ℕ → ℕ → ℤ
byte_diff a b = if leb b a then pos (a - b) else negsuc (b - a - 1)

pub strcmp_loop : ℕ → Bytes → ℕ → ℕ → Option ℤ
strcmp_loop zero m a b = none
strcmp_loop (suc k) m a b =
    let rest = strcmp_loop k m (a + 1) (b + 1) in
    if not (m a == 0) && (m a == m b) then rest else some (byte_diff (m a) (m b))

unfoldable pub strcmp : ℕ → Bytes → ℕ → ℕ → Option ℤ
unfolding strcmp_loop
strcmp fuel m a b = strcmp_loop fuel m a b

pub strncmp_loop : ℕ → Bytes → ℕ → ℕ → ℤ
strncmp_loop zero m a b = pos 0
strncmp_loop (suc k) m a b =
    let rest = strncmp_loop k m (a + 1) (b + 1) in
    if not (m a == m b) then byte_diff (m a) (m b) else if m a == 0 then pos 0 else rest

unfoldable pub strncmp : Bytes → ℕ → ℕ → ℕ → ℤ
unfolding strncmp_loop
strncmp m a b n = strncmp_loop n m a b

pub strchr_loop : ℕ → Bytes → ℕ → ℕ → Option ℕ
strchr_loop zero m s c = none
strchr_loop (suc k) m s c =
    let rest = strchr_loop k m (s + 1) c in
    if m s == 0 then some 0 else if m s == c then some s else rest

-- 0 is NULL
unfoldable pub strchr : ℕ → Bytes → ℕ → ℕ → Option ℕ
unfolding strchr_loop
strchr fuel m s c = strchr_loop fuel m s (u8 c)

pub strrchr_loop : ℕ → Bytes → ℕ → ℕ → ℕ → Option ℕ
strrchr_loop zero m s c at = none
strrchr_loop (suc k) m s c at =
    let rest = strrchr_loop k m (s + 1) c (if m s == c then s else at) in
    if m s == 0 then some at else rest

unfoldable pub strrchr : ℕ → Bytes → ℕ → ℕ → Option ℕ
unfolding strrchr_loop
strrchr fuel m s c = strrchr_loop fuel m s (u8 c) 0
