-- ===== src/CString/Tests.antt =====
-- The theorems on strings at one memory: "abcab" at 100, "ab" at 200, "abd" at 300, room at 400.
use operating_system_challen.Base.{
  ℕ, ◌+◌, ◌<◌, ◌≡◌, refl, Option, some, List, [], ◌∷◌, ◌++◌, ◌==◌, inl, arith, length,
  if◌then◌else◌,
}
use operating_system_challen.CString.Code.{Ptr, Bytes, Flag, strcat, strcmp, strstr, memmove}
use operating_system_challen.CString.Str.{Str, SameOutside}
use operating_system_challen.CString.Copy.{Moved, strcat-append, memmove-Moved}
use operating_system_challen.CString.Compare.{Orders, opposite, strcmp_correct}
use operating_system_challen.CString.Find.{FirstMatch, strstr-FirstMatch}

abbrev abcab : List ℕ
abcab = 97 ∷ 98 ∷ 99 ∷ 97 ∷ 98 ∷ []

abbrev ab : List ℕ
ab = 97 ∷ 98 ∷ []

abbrev abd : List ℕ
abd = 97 ∷ 98 ∷ 100 ∷ []

abbrev lookup : ℕ → List ℕ → ℕ → ℕ
lookup p [] a = 0
lookup p (c ∷ cs) a = if a == p then c else lookup (p + 1) cs a

abbrev memory : Bytes
memory a =
    if lookup 100 abcab a == 0
    then (if lookup 200 ab a == 0 then lookup 300 abd a else lookup 200 ab a)
    else lookup 100 abcab a

abcab-Str : Str memory 100 abcab
abcab-Str = (
  refl,
  omega arith,
  (refl, omega arith, (refl, omega arith, (refl, omega arith, (refl, omega arith, refl)))),
)

ab-Str : Str memory 200 ab
ab-Str = (refl, omega arith, (refl, omega arith, refl))

abd-Str : Str memory 300 abd
abd-Str = (refl, omega arith, (refl, omega arith, (refl, omega arith, refl)))

strcat-append_example :
    (m' : Bytes) × (strcat 9 memory 200 300 ≡ some m')
    × Str m' 200 (ab ++ abd)
    × SameOutside (200 + length ab) 4 memory m'
strcat-append_example =
    strcat-append 9 memory 200 300 ab abd ab-Str abd-Str (inl (omega arith)) (omega arith)
      (omega arith) (omega arith) (omega arith)

strcmp_correct_example :
    (r : Flag) × (strcmp 9 memory 100 300 ≡ some r)
    × Orders r abcab abd
    × (strcmp 9 memory 300 100 ≡ some (opposite r))
strcmp_correct_example =
    strcmp_correct 9 memory 100 300 abcab abd abcab-Str abd-Str
      (omega arith, (omega arith, (omega arith, (omega arith, (omega arith, tt)))))
      (omega arith, (omega arith, (omega arith, tt))) (omega arith) (omega arith)

memory_byte : (a : Ptr) → memory a < 256
memory_byte a = ground arith

ab_ne : ¬ (ab ≡ [])
ab_ne e = cc

strstr-FirstMatch_example :
    (r : Option Ptr) × (strstr 9 memory 100 200 ≡ some r) × FirstMatch memory 200 2 100 3 r
strstr-FirstMatch_example =
    strstr-FirstMatch 9 memory 100 200 abcab ab abcab-Str ab-Str ab_ne (omega arith) (omega arith)
      (omega arith) (omega arith)

memmove-Moved_example : Moved memory 102 100 4 (memmove memory 102 100 4)
memmove-Moved_example = memmove-Moved memory 102 100 4
