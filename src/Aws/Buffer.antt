-- ===== src/Aws/Buffer.antt =====
-- Character buffers, as the lists of their bytes, and what the C library does with them.
use operating_system_challen.Base.{
  ℕ, zero, suc, ◌+◌, ◌/◌, ◌%◌, ◌==◌, Bool, true, false, ◌||◌, ◌&&◌, List, [], ◌∷◌, ◌++◌, length,
  if◌then◌else◌,
}

abbrev pub Text : Type 0
Text = List ℕ

abbrev pub take : ℕ → Text → Text
take zero bs = []
take (suc n) [] = []
take (suc n) (b ∷ bs) = b ∷ take n bs

abbrev pub drop : ℕ → Text → Text
drop zero bs = bs
drop (suc n) [] = []
drop (suc n) (b ∷ bs) = drop n bs

-- A copy of the bytes into the buffer, from a position on.
unfoldable pub overlay : Text → ℕ → Text → Text
overlay buffer at bytes = take at buffer ++ (bytes ++ drop (at + length bytes) buffer)

-- The bytes in front of the first NUL.
unfoldable pub text_of : Text → Text
text_of [] = []
text_of (b ∷ bs) = let rest = text_of bs in if b == 0 then [] else b ∷ rest

unfoldable pub is_prefix : Text → Text → Bool
is_prefix [] bs = true
is_prefix (a ∷ as') [] = false
is_prefix (a ∷ as') (b ∷ bs) = (a == b) && is_prefix as' bs

-- `strstr(haystack, needle) != NULL`
unfoldable pub contains : Text → Text → Bool
unfolding is_prefix
contains [] needle = is_prefix needle []
contains (b ∷ bs) needle = is_prefix needle (b ∷ bs) || contains bs needle

-- The decimal digits of a 64-bit number, of which there are at most 20.
unfoldable pub decimal_loop : ℕ → ℕ → Text → Text
decimal_loop zero n digits = digits
decimal_loop (suc fuel) n digits =
    let rest = decimal_loop fuel (n / 10) ((48 + n % 10) ∷ digits) in
    if n / 10 == 0 then (48 + n % 10) ∷ digits else rest

unfoldable pub decimal : ℕ → Text
unfolding decimal_loop
decimal n = decimal_loop 20 n []

unfoldable pub zeros : ℕ → Text
zeros zero = []
zeros (suc n) = 0 ∷ zeros n

-- "static"
abbrev pub static_word : Text
static_word = 115 ∷ 116 ∷ 97 ∷ 116 ∷ 105 ∷ 99 ∷ []

-- "dynamic"
abbrev pub dynamic_word : Text
dynamic_word = 100 ∷ 121 ∷ 110 ∷ 97 ∷ 109 ∷ 105 ∷ 99 ∷ []

-- "\r\n\r\n"
abbrev pub end_of_header : Text
end_of_header = 13 ∷ 10 ∷ 13 ∷ 10 ∷ []

-- "HTTP/1.1 200 OK\r\nContent-Type: application/octet-stream\r\nContent-Length: "
abbrev pub reply_start : Text
reply_start =
    72 ∷ 84 ∷ 84 ∷ 80 ∷ 47 ∷ 49 ∷ 46 ∷ 49 ∷ 32 ∷ 50 ∷ 48 ∷ 48 ∷ 32 ∷ 79 ∷ 75 ∷ 13 ∷ 10 ∷ 67 ∷ 111
    ∷ 110 ∷ 116 ∷ 101 ∷ 110 ∷ 116 ∷ 45 ∷ 84 ∷ 121 ∷ 112 ∷ 101 ∷ 58 ∷ 32 ∷ 97 ∷ 112 ∷ 112 ∷ 108 ∷ 105
    ∷ 99 ∷ 97 ∷ 116 ∷ 105 ∷ 111 ∷ 110 ∷ 47 ∷ 111 ∷ 99 ∷ 116 ∷ 101 ∷ 116 ∷ 45 ∷ 115 ∷ 116 ∷ 114 ∷ 101
    ∷ 97 ∷ 109 ∷ 13 ∷ 10 ∷ 67 ∷ 111 ∷ 110 ∷ 116 ∷ 101 ∷ 110 ∷ 116 ∷ 45 ∷ 76 ∷ 101 ∷ 110 ∷ 103 ∷ 116
    ∷ 104 ∷ 58 ∷ 32 ∷ []

-- "\r\nConnection: close\r\n\r\n"
abbrev pub reply_end : Text
reply_end =
    13 ∷ 10 ∷ 67 ∷ 111 ∷ 110 ∷ 110 ∷ 101 ∷ 99 ∷ 116 ∷ 105 ∷ 111 ∷ 110 ∷ 58 ∷ 32 ∷ 99 ∷ 108 ∷ 111
    ∷ 115 ∷ 101 ∷ 13 ∷ 10 ∷ 13 ∷ 10 ∷ []

-- "HTTP/1.1 404 Not Found\r\nContent-Type: text/html\r\nContent-Length: 0\r\nConnection: Closed\r\n\r\n"
abbrev pub not_found_header : Text
not_found_header =
    72 ∷ 84 ∷ 84 ∷ 80 ∷ 47 ∷ 49 ∷ 46 ∷ 49 ∷ 32 ∷ 52 ∷ 48 ∷ 52 ∷ 32 ∷ 78 ∷ 111 ∷ 116 ∷ 32 ∷ 70 ∷ 111
    ∷ 117 ∷ 110 ∷ 100 ∷ 13 ∷ 10 ∷ 67 ∷ 111 ∷ 110 ∷ 116 ∷ 101 ∷ 110 ∷ 116 ∷ 45 ∷ 84 ∷ 121 ∷ 112 ∷ 101
    ∷ 58 ∷ 32 ∷ 116 ∷ 101 ∷ 120 ∷ 116 ∷ 47 ∷ 104 ∷ 116 ∷ 109 ∷ 108 ∷ 13 ∷ 10 ∷ 67 ∷ 111 ∷ 110 ∷ 116
    ∷ 101 ∷ 110 ∷ 116 ∷ 45 ∷ 76 ∷ 101 ∷ 110 ∷ 103 ∷ 116 ∷ 104 ∷ 58 ∷ 32 ∷ 48 ∷ 13 ∷ 10 ∷ 67 ∷ 111
    ∷ 110 ∷ 110 ∷ 101 ∷ 99 ∷ 116 ∷ 105 ∷ 111 ∷ 110 ∷ 58 ∷ 32 ∷ 67 ∷ 108 ∷ 111 ∷ 115 ∷ 101 ∷ 100 ∷ 13
    ∷ 10 ∷ 13 ∷ 10 ∷ []
