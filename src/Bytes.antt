-- ===== src/Bytes.antt =====
-- kernel/mmu/memory.c and kernel/stdlib/string.c: copying, filling and comparing bytes.
--
-- The memory is a function from addresses to bytes; an address is a number, and no region here runs
-- past the last one. A walk to the end of a text has `bound` rounds.
pub mod Copy
pub mod Text
mod Tests
use toast_os.Prelude.{
  ℕ, zero, suc, ◌+◌, ◌-◌, ◌%◌, ◌^◌, Bool, true, false, if◌then◌else◌, ltb, leb, ◌==◌, u8, not, ◌&&◌,
}
use toast_os.Prelude.Int.{ℤ, pos, negsuc}

abbrev pub put : (ℕ → ℕ) → ℕ → ℕ → ℕ → ℕ
put m p v q = if q == p then v else m q

-- `for (i..) d[i] = s[i]`, `n` bytes from `i` on.
unfoldable pub copy_up : (ℕ → ℕ) → (d s i n : ℕ) → ℕ → ℕ
copy_up m d s i zero = m
copy_up m d s i (suc n) = copy_up (put m (d + i) (m (s + i))) d s (i + 1) n

-- `for (i = n; i > 0; i--) d[i-1] = s[i-1]`
unfoldable pub copy_down : (ℕ → ℕ) → (d s n : ℕ) → ℕ → ℕ
copy_down m d s zero = m
copy_down m d s (suc i) = copy_down (put m (d + i) (m (s + i))) d s i

unfoldable pub memcpy : (ℕ → ℕ) → (dest src n : ℕ) → ℕ → ℕ
unfolding copy_up
memcpy m dest src n = copy_up m dest src 0 n

unfoldable pub fill : (ℕ → ℕ) → (p c i n : ℕ) → ℕ → ℕ
fill m p c i zero = m
fill m p c i (suc n) = fill (put m (p + i) (u8 c)) p c (i + 1) n

unfoldable pub memset : (ℕ → ℕ) → (s c n : ℕ) → ℕ → ℕ
unfolding fill
memset m s c n = fill m s c 0 n

unfoldable pub memmove : (ℕ → ℕ) → (dest src n : ℕ) → ℕ → ℕ
unfolding copy_up copy_down
memmove m dest src n =
    if ltb dest src
    then copy_up m dest src 0 n
    else if ltb src dest
    then copy_down m dest src n
    else m

-- `n` bytes from `i` on.
unfoldable pub compare_from : (ℕ → ℕ) → (a b i n : ℕ) → ℤ
compare_from m a b i zero = pos 0
compare_from m a b i (suc n) =
    let rest = compare_from m a b (i + 1) n in
    if not (m (a + i) == m (b + i))
    then (if ltb (m (a + i)) (m (b + i)) then negsuc 0 else pos 1)
    else rest

unfoldable pub memcmp : (ℕ → ℕ) → (s1 s2 n : ℕ) → ℤ
unfolding compare_from
memcmp m s1 s2 n = compare_from m s1 s2 0 n

unfoldable pub strlen : ℕ → (ℕ → ℕ) → (str : ℕ) → ℕ
strlen zero m str = 0
strlen (suc bound) m str =
    let rest = strlen bound m (str + 1) in if not (m str == 0) then suc rest else 0

-- The difference of two bytes as an `int`.
abbrev pub difference : ℕ → ℕ → ℤ
difference x y = if ltb x y then negsuc (y - x - 1) else pos (x - y)

unfoldable pub strcmp : ℕ → (ℕ → ℕ) → (a b : ℕ) → ℤ
strcmp zero m a b = difference (m a) (m b)
strcmp (suc bound) m a b =
    let rest = strcmp bound m (a + 1) (b + 1) in
    if not (m a == 0) && (m a == m b) then rest else difference (m a) (m b)

-- `while (n-- && *a && *a == *b)`: where the loop ends at its first test, `n` has gone round to
-- `SIZE_MAX`.
unfoldable pub strncmp : (ℕ → ℕ) → (a b n : ℕ) → ℤ
strncmp m a b zero = difference (m a) (m b)
strncmp m a b (suc n) =
    let rest = strncmp m (a + 1) (b + 1) n in
    if not (m a == 0) && (m a == m b)
    then rest
    else if n == 0
    then pos 0
    else difference (m a) (m b)

-- `while ((*dst++ = *src++));`
unfoldable pub strcpy : ℕ → (ℕ → ℕ) → (dst src : ℕ) → ℕ → ℕ
strcpy zero m dst src = m
strcpy (suc bound) m dst src =
    let m1 = put m dst (m src) in
    let rest = strcpy bound m1 (dst + 1) (src + 1) in if not (m src == 0) then rest else m1

-- `while (*dst) dst++;` and the copy.
unfoldable pub strcat : ℕ → (ℕ → ℕ) → (dst src : ℕ) → ℕ → ℕ
unfolding strlen strcpy
strcat bound m dst src = strcpy bound m (dst + strlen bound m dst) src
