-- ===== src/CString/Code.antt =====
-- The functions of mini-libc/src/string/string.c over a byte memory. A pointer is an address, and
-- `fuel` bounds a walk: a string of n bytes needs n + 1 rounds. `none` is a walk that found no NUL
-- within its fuel. An `int` is written modulo 2 ^ 32, and a sum or difference of two wraps there.
use operating_system_challen.Base.{
  ℕ, zero, suc, ◌+◌, ◌-◌, ◌%◌, ◌^◌, Bool, not, ◌&&◌, ◌||◌, Option, none, some, List, [], ◌∷◌, ◌==◌,
  ltb, if◌then◌else◌,
}
use operating_system_challen.Base.Word.{add64}

abbrev pub Ptr : Type 0
Ptr = ℕ

abbrev pub Bytes : Type 0
Bytes = Ptr → ℕ

-- `*p = c`
unfoldable pub put : Bytes → Ptr → ℕ → Bytes
put m p c a = if a == p then c else m a

infixl 5 ◌>>=◌
abbrev pub ◌>>=◌ : {A B : Type 0} → Option A → (A → Option B) → Option B
none >>= f = none
some a >>= f = f a

-- `a < b` of two `char`s, which are signed
unfoldable pub char_lt : ℕ → ℕ → Bool
char_lt a b = ltb ((a + 128) % 256) ((b + 128) % 256)

-- A `char` as an `int`: the sign is extended, and an `int` is written modulo 2 ^ 32.
unfoldable pub char_int : ℕ → ℕ
char_int b = if ltb b 128 then b else 2 ^ 32 - 256 + b

-- A length as an `int`
unfoldable pub int_of : ℕ → ℕ
int_of n = n % 2 ^ 32

-- An `int` as an offset to a pointer: the sign is extended to 64 bits.
unfoldable pub long_of : ℕ → ℕ
long_of i = if ltb i (2 ^ 31) then i else 2 ^ 64 - 2 ^ 32 + i

-- `a - b` of two `int`s
unfoldable pub int_sub : ℕ → ℕ → ℕ
int_sub a b = (a + 2 ^ 32 - b) % 2 ^ 32

-- The rounds of `for (int i = 0; i < n; i++)`: none where `n` is negative.
unfoldable pub rounds : ℕ → ℕ
rounds n = if ltb n (2 ^ 31) then n else 0

-- The results -1, 0 and 1
pub data Flag : Type 0 where
  minus nought plus : Flag

unfoldable pub int_value : Flag → ℕ
int_value minus = 2 ^ 32 - 1
int_value nought = 0
int_value plus = 1

unfoldable pub strlen_loop : ℕ → Bytes → Ptr → ℕ → Option ℕ
strlen_loop zero m str i = none
strlen_loop (suc fuel) m str i =
    let rest = strlen_loop fuel m (suc str) (suc i) in if m str == 0 then some i else rest

unfoldable pub strlen : ℕ → Bytes → Ptr → Option ℕ
unfolding strlen_loop
strlen fuel m str = strlen_loop fuel m str 0

-- The copying loop of `strcpy` and `strcat`, with the write of the NUL behind it.
unfoldable pub copy_loop : ℕ → Bytes → (d source : Ptr) → Option Bytes
unfolding put
copy_loop zero m d source = none
copy_loop (suc fuel) m d source =
    let rest = copy_loop fuel (put m d (m source)) (suc d) (suc source) in
    if m source == 0 then some (put m d (m source)) else rest

unfoldable pub strcpy : ℕ → Bytes → (destination source : Ptr) → Option Bytes
unfolding copy_loop
strcpy fuel m destination source = copy_loop fuel m destination source

-- The copying loop of `strncpy` and `strncat`: the memory and `count` behind it. `left` is
-- `len - count`.
unfoldable pub ncopy_loop : (left : ℕ) → Bytes → (d source : Ptr) → (count : ℕ) → Bytes × ℕ
unfolding put
ncopy_loop zero m d source count = (m, count)
ncopy_loop (suc left) m d source count =
    let rest = ncopy_loop left (put m d (m source)) (suc d) (suc source) (suc count) in
    if m source == 0 then (m, count) else rest

unfoldable pub strncpy : Bytes → (destination source : Ptr) → (len : ℕ) → Bytes
unfolding ncopy_loop
strncpy m destination source len =
    let (m', count) = ncopy_loop len m destination source 0 in
    if ltb count len then put m' (destination + count) 0 else m'

unfoldable pub strcat : ℕ → Bytes → (destination source : Ptr) → Option Bytes
unfolding strlen copy_loop int_of long_of
strcat fuel m destination source = do
  length ← strlen fuel m destination
  copy_loop fuel m (add64 destination (long_of (int_of length))) source

unfoldable pub strncat : ℕ → Bytes → (destination source : Ptr) → (len : ℕ) → Option Bytes
unfolding strlen ncopy_loop int_of long_of
strncat fuel m destination source len = do
  length ← strlen fuel m destination
  let offset = long_of (int_of length)
  let (m', count) = ncopy_loop len m (add64 destination offset) source 0
  some (put m' (add64 destination (add64 count offset)) 0)

-- The flag behind one comparison of two bytes.
unfoldable pub flag_of : ℕ → ℕ → Flag
unfolding char_lt
flag_of a b = if char_lt b a then plus else if char_lt a b then minus else nought

-- The loop of `strcmp`, with the two tests behind it.
unfoldable pub strcmp : ℕ → Bytes → (str1 str2 : Ptr) → Option Flag
strcmp zero m str1 str2 = none
strcmp (suc fuel) m str1 str2 =
    let rest = strcmp fuel m (suc str1) (suc str2) in
    if m str1 == 0 || m str2 == 0
    then (if not (m str1 == 0)
        then some plus
        else (if not (m str2 == 0) then some minus else some nought))
    else elim (flag_of (m str1) (m str2)) [ minus ↦ some minus | nought ↦ rest | plus ↦ some plus ]

-- `left` is `len - count`.
unfoldable pub strncmp : Bytes → (str1 str2 : Ptr) → (left : ℕ) → Flag
strncmp m str1 str2 zero = nought
strncmp m str1 str2 (suc left) =
    let rest = strncmp m (suc str1) (suc str2) left in
    if m str1 == 0 || m str2 == 0
    then nought
    else elim (flag_of (m str1) (m str2)) [ minus ↦ minus | nought ↦ rest | plus ↦ plus ]

unfoldable pub memcmp : Bytes → (ptr1 ptr2 : Ptr) → (left : ℕ) → Flag
memcmp m ptr1 ptr2 zero = nought
memcmp m ptr1 ptr2 (suc left) =
    let rest = memcmp m (suc ptr1) (suc ptr2) left in
    elim (flag_of (m ptr1) (m ptr2)) [ minus ↦ minus | nought ↦ rest | plus ↦ plus ]

-- `c` is an `int`. The inner result is `NULL` as `none`.
unfoldable pub strchr : ℕ → Bytes → Ptr → ℕ → Option (Option Ptr)
strchr zero m str c = none
strchr (suc fuel) m str c =
    let rest = strchr fuel m (suc str) c in
    if char_int (m str) == c then some (some str) else if m str == 0 then some none else rest

-- `chr` is the pointer to the last match so far; `flag` is set once there is one.
unfoldable pub strrchr_loop : ℕ → Bytes → Ptr → ℕ → Option Ptr → Option (Option Ptr)
strrchr_loop zero m str c chr = none
strrchr_loop (suc fuel) m str c chr =
    let rest = strrchr_loop fuel m (suc str) c (if char_int (m str) == c then some str else chr) in
    if m str == 0 then some chr else rest

unfoldable pub strrchr : ℕ → Bytes → Ptr → ℕ → Option (Option Ptr)
unfolding strrchr_loop
strrchr fuel m str c = strrchr_loop fuel m str c none

-- The loop over `j` of `strstr`: `left` is `s2_length - j`. The result is `count`.
unfoldable pub match_loop : Bytes → (hay needle : Ptr) → (left count : ℕ) → ℕ
match_loop m hay needle zero count = count
match_loop m hay needle (suc left) count =
    let rest = match_loop m (suc hay) (suc needle) left (suc count) in
    if m hay == m needle then rest else count

-- A match of the whole needle at `hay`: the test of the first bytes, the loop, and the count.
-- `s2_length` is an `int`.
unfoldable pub matches : Bytes → (hay needle : Ptr) → (s2_length : ℕ) → Bool
unfolding match_loop rounds
matches m hay needle s2_length =
    m hay == m needle && match_loop m hay needle (rounds s2_length) 0 == s2_length

-- The loop over `i` of `strstr`: `left` is `s1_length - s2_length - i`. After an iteration that
-- returns nothing `i` has its old value, whether the match failed early or was never begun.
unfoldable pub strstr_loop : Bytes → (haystack needle : Ptr) → (left s2_length : ℕ) → Option Ptr
strstr_loop m haystack needle zero s2_length = none
strstr_loop m haystack needle (suc left) s2_length =
    let rest = strstr_loop m (suc haystack) needle left s2_length in
    if matches m haystack needle s2_length then some haystack else rest

unfoldable pub strstr : ℕ → Bytes → (haystack needle : Ptr) → Option (Option Ptr)
unfolding strlen strstr_loop int_of int_sub rounds
strstr fuel m haystack needle = do
  s1_length ← strlen fuel m haystack
  s2_length ← strlen fuel m needle
  let left = rounds (int_sub (int_of s1_length) (int_of s2_length))
  some (strstr_loop m haystack needle left (int_of s2_length))

unfoldable pub strrstr_loop :
    Bytes → (haystack needle : Ptr) → (left s2_length : ℕ) → Option Ptr → Option Ptr
strrstr_loop m haystack needle zero s2_length point = point
strrstr_loop m haystack needle (suc left) s2_length point =
    strrstr_loop m (suc haystack) needle left s2_length
      (if matches m haystack needle s2_length then some haystack else point)

unfoldable pub strrstr : ℕ → Bytes → (haystack needle : Ptr) → Option (Option Ptr)
unfolding strlen strrstr_loop int_of int_sub rounds
strrstr fuel m haystack needle = do
  s1_length ← strlen fuel m haystack
  s2_length ← strlen fuel m needle
  let left = rounds (int_sub (int_of s1_length) (int_of s2_length))
  some (strrstr_loop m haystack needle left (int_of s2_length) none)

unfoldable pub memcpy : Bytes → (destination source : Ptr) → (num : ℕ) → Bytes
unfolding put
memcpy m destination source zero = m
memcpy m destination source (suc num) =
    memcpy (put m destination (m source)) (suc destination) (suc source) num

-- `memcpy(buffer, source, num)`: `buffer` is an array of its own, which no pointer reaches.
unfoldable pub load_buffer : Bytes → (source : Ptr) → (num : ℕ) → List ℕ
load_buffer m source zero = []
load_buffer m source (suc num) = m source ∷ load_buffer m (suc source) num

-- `memcpy(destination, buffer, num)`
unfoldable pub store_buffer : Bytes → (destination : Ptr) → List ℕ → Bytes
unfolding put
store_buffer m destination [] = m
store_buffer m destination (c ∷ cs) = store_buffer (put m destination c) (suc destination) cs

unfoldable pub memmove : Bytes → (destination source : Ptr) → (num : ℕ) → Bytes
unfolding load_buffer store_buffer
memmove m destination source num = store_buffer m destination (load_buffer m source num)

unfoldable pub memset : Bytes → (source : Ptr) → (value num : ℕ) → Bytes
unfolding put
memset m source value zero = m
memset m source value (suc num) = memset (put m source (value % 256)) (suc source) value num
