-- ===== src/CString/Copy.antt =====
-- `strcpy`, `strcat` and the block operations.
use operating_system_challen.Base.{
  ℕ, zero, suc, ◌+◌, ◌-◌, ◌%◌, ◌^◌, ◌≤◌, ◌<◌, ◌≡◌, refl, sym, subst, ap, ◌∙◌, false, some, List, [],
  ◌∷◌, ◌++◌, inl, ◌==◌, arith, length, get_or,
}
use native.Mathlib.Decide.{dec_lt, ℕ_discrete}
use operating_system_challen.Base.Word.{add64}
use operating_system_challen.CString.Code.{
  Ptr, Bytes, put, int_of, long_of, copy_loop, strcpy, strcat, memcpy, load_buffer, store_buffer,
  memmove, memset,
}
use operating_system_challen.CString.Str.{
  Str, Outside, SameOutside, Disjoint, put_same, put_other, Str-frame, strlen-length,
}

-- The memory behind a copy: the string stands at `d`, and nothing else has changed.
pub record Copied (m : Bytes) (d : Ptr) (cs : List ℕ) (m' : Bytes) : Type 0 where
  pub str : Str m' d cs
  pub same : SameOutside d (suc (length cs)) m m'

copy_loop-Copied :
    (fuel : ℕ) (m : Bytes) (d source : Ptr) (cs : List ℕ)
    → Str m source cs
    → Disjoint d (suc (length cs)) source (suc (length cs))
    → length cs < fuel
    → (m' : Bytes) × (copy_loop fuel m d source ≡ some m') × Copied m d cs m'
unfolding copy_loop
copy_loop-Copied zero m d source cs s apart more = absurd (omega arith)
copy_loop-Copied (suc n) m d source [] s apart more = (
  put m d (m source),
  rw s refl,
  record {
    str = put_same m d (m source) ∙ s;
    same = λ a out. put_other m d (m source) a (omega arith);
  },
)
copy_loop-Copied (suc n) m d source (c ∷ cs) (at, ne, rest) apart more =
    let step = put m d (m source) in
    let go : (m source == 0) ≡ false = ground arith in
    let rest' =
      Str-frame m step (suc source) cs (λ a low high. put_other m d (m source) a (omega arith))
        rest in
    let (m', e, r) =
      copy_loop-Copied n step (suc d) (suc source) cs rest' (omega arith) (omega arith) in
    (
      m',
      rw go e,
      record {
        str = (r.same d (inl (omega arith)) ∙ put_same m d (m source) ∙ at, ne, r.str);
        same = λ a out. r.same a (omega arith) ∙ put_other m d (m source) a (omega arith);
      },
    )

-- `strcpy` with more fuel than the string has bytes, where the source's bytes and the destination's
-- do not overlap, returns with the string at the destination, and no byte elsewhere is changed.
pub strcpy-Copied :
    (fuel : ℕ) (m : Bytes) (d source : Ptr) (cs : List ℕ)
    → Str m source cs
    → Disjoint d (suc (length cs)) source (suc (length cs))
    → length cs < fuel
    → (m' : Bytes) × (strcpy fuel m d source ≡ some m') × Copied m d cs m'
unfolding strcpy
strcpy-Copied = copy_loop-Copied

-- A string that ends at the NUL of another one: the two are one string.
Str-append :
    (m m' : Bytes) (p : Ptr) (xs ys : List ℕ)
    → Str m p xs
    → ((a : Ptr) → p ≤ a → a < p + length xs → m' a ≡ m a)
    → Str m' (p + length xs) ys
    → Str m' p (xs ++ ys)
Str-append m m' p [] ys s same t = subst (λ q. Str m' q ys) (omega arith) t
Str-append m m' p (x ∷ xs) ys (at, ne, rest) same t = (
  same p (omega arith) (omega arith) ∙ at,
  ne,
  Str-append m m' (suc p) xs ys rest (λ a low high. same a (omega arith) (omega arith))
      (subst (λ q. Str m' q ys) (omega arith) t),
)

-- What `strcat` makes of the length that it keeps in an `int`.
behind_string : (d n : ℕ) → n < 2 ^ 31 → d + n < 2 ^ 64 → add64 d (long_of (int_of n)) ≡ d + n
unfolding add64 long_of int_of
behind_string d n small low = ground arith

-- `strcat` with more fuel than either string has bytes, where the destination's string is shorter
-- than 2 ^ 31 bytes and ends below the address 2 ^ 64, and the source does not overlap the two
-- strings' place at the destination, returns with the two strings as one at the destination, and
-- changes no byte outside the area from the destination's old NUL on that the source's copy takes.
pub strcat-append :
    (fuel : ℕ) (m : Bytes) (d source : Ptr) (xs ys : List ℕ)
    → Str m d xs
    → Str m source ys
    → Disjoint d (suc (length xs + length ys)) source (suc (length ys))
    → length xs < fuel
    → length ys < fuel
    → length xs < 2 ^ 31
    → d + length xs < 2 ^ 64
    → (m' : Bytes) × (strcat fuel m d source ≡ some m')
      × Str m' d (xs ++ ys)
      × SameOutside (d + length xs) (suc (length ys)) m m'
unfolding strcat
strcat-append fuel m d source xs ys s t apart more more' small low =
    let (m', e, r) = copy_loop-Copied fuel m (d + length xs) source ys t (omega arith) more' in
    (
      m',
      rw (strlen-length fuel m d xs s more, behind_string d (length xs) small low) e,
      Str-append m m' d xs ys s (λ a low high. r.same a (omega arith)) r.str,
      r.same,
    )

put_at : (m : Bytes) (p : Ptr) (c : ℕ) (a : Ptr) → a ≡ p → put m p c a ≡ c
unfolding put
put_at m p c a e = ground arith

store_buffer-Outside :
    (m : Bytes) (d : Ptr) (cs : List ℕ) (a : Ptr)
    → Outside d (length cs) a
    → store_buffer m d cs a ≡ m a
unfolding store_buffer
store_buffer-Outside m d [] a out = refl
store_buffer-Outside m d (c ∷ cs) a out =
    store_buffer-Outside (put m d c) (suc d) cs a (omega arith) ∙ put_other m d c a (omega arith)

store_buffer_inside :
    (m : Bytes) (d : Ptr) (cs : List ℕ) (a : Ptr) (i : ℕ)
    → a ≡ d + i
    → i < length cs
    → store_buffer m d cs a ≡ get_or cs i 0
unfolding store_buffer
store_buffer_inside m d [] a i e h = absurd (omega arith)
store_buffer_inside m d (c ∷ cs) a zero e h =
    store_buffer-Outside (put m d c) (suc d) cs a (inl (omega arith)) ∙ put_at m d c a (omega arith)
store_buffer_inside m d (c ∷ cs) a (suc i) e h =
    store_buffer_inside (put m d c) (suc d) cs a i (omega arith) (omega arith)

length-load_buffer : (m : Bytes) (source num : ℕ) → length (load_buffer m source num) ≡ num
unfolding load_buffer
length-load_buffer m source zero = refl
length-load_buffer m source (suc num) = ap suc (length-load_buffer m (suc source) num)

load_buffer-get :
    (m : Bytes) (source num i : ℕ)
    → i < num
    → get_or (load_buffer m source num) i 0 ≡ m (source + i)
unfolding load_buffer
load_buffer-get m source zero i h = absurd (omega arith)
load_buffer-get m source (suc num) zero h = ap m (omega arith)
load_buffer-get m source (suc num) (suc i) h =
    load_buffer-get m (suc source) num i (omega arith) ∙ ap m (omega arith)

-- The `num` bytes from `source` on stand at `d`, and no other byte has changed.
pub record Moved (m : Bytes) (d source num : ℕ) (m' : Bytes) : Type 0 where
  pub moved : (i : ℕ) → i < num → m' (d + i) ≡ m (source + i)
  pub same : SameOutside d num m m'

-- `memmove` leaves at the destination the bytes that stood at the source before the call, for
-- overlapping areas too, and changes no byte outside the destination.
pub memmove-Moved : (m : Bytes) (d source num : ℕ) → Moved m d source num (memmove m d source num)
unfolding memmove
memmove-Moved m d source num =
    let cs = load_buffer m source num in
    let len = length-load_buffer m source num in
    record {
      moved = λ i h.
          store_buffer_inside m d cs (d + i) i refl (omega arith)
          ∙ load_buffer-get m source num i h;
      same = λ a out. store_buffer-Outside m d cs a (omega arith);
    }

memcpy-Outside :
    (m : Bytes) (d source num : ℕ) (a : Ptr) → Outside d num a → memcpy m d source num a ≡ m a
unfolding memcpy
memcpy-Outside m d source zero a out = refl
memcpy-Outside m d source (suc num) a out =
    memcpy-Outside (put m d (m source)) (suc d) (suc source) num a (omega arith)
    ∙ put_other m d (m source) a (omega arith)

memcpy_inside :
    (m : Bytes) (d source num : ℕ) (a : Ptr) (i : ℕ)
    → Disjoint d num source num
    → a ≡ d + i
    → i < num
    → memcpy m d source num a ≡ m (source + i)
unfolding memcpy
memcpy_inside m d source zero a i apart e h = absurd (omega arith)
memcpy_inside m d source (suc num) a zero apart e h =
    memcpy-Outside (put m d (m source)) (suc d) (suc source) num a (inl (omega arith))
    ∙ put_at m d (m source) a (omega arith)
    ∙ ap m (omega arith)
memcpy_inside m d source (suc num) a (suc i) apart e h =
    memcpy_inside (put m d (m source)) (suc d) (suc source) num a i (omega arith) (omega arith)
      (omega arith)
    ∙ put_other m d (m source) (suc source + i) (omega arith)
    ∙ ap m (omega arith)

-- `memcpy`, where the two areas do not overlap, copies the source's bytes to the destination and
-- changes no other byte, and leaves the same memory as `memmove`.
pub memcpy-memmove :
    (m : Bytes) (d source num : ℕ)
    → Disjoint d num source num
    → Moved m d source num (memcpy m d source num)
      × ((a : Ptr) → memcpy m d source num a ≡ memmove m d source num a)
memcpy-memmove m d source num apart =
    let copied : Moved m d source num (memcpy m d source num) = record {
      moved = λ i h. memcpy_inside m d source num (d + i) i apart refl h;
      same = λ a out. memcpy-Outside m d source num a out;
    } in
    let moved = memmove-Moved m d source num in
    (
      copied,
      λ a. elim (dec_lt a d) [
        | yes l ↦ copied.same a (inl l) ∙ sym (moved.same a (inl l))
        | no g ↦ elim (dec_lt a (d + num)) [
          | no g' ↦ copied.same a (omega arith) ∙ sym (moved.same a (omega arith))
          | yes l ↦
              let at : d + (a - d) ≡ a = omega arith in
              subst (λ b. memcpy m d source num b ≡ memmove m d source num b) at
                (copied.moved (a - d) (omega arith) ∙ sym (moved.moved (a - d) (omega arith)))
        ]
      ],
    )

-- `memset` fills the area with the value's low byte, and changes no other byte.
pub memset_lem :
    (m : Bytes) (p : Ptr) (value num : ℕ) (a : Ptr)
    → ((p ≤ a) × (a < p + num) → memset m p value num a ≡ value % 256)
      × (Outside p num a → memset m p value num a ≡ m a)
unfolding memset
memset_lem m p value zero a = (λ h. absurd (omega arith), λ out. refl)
memset_lem m p value (suc num) a =
    let (inside, outside) = memset_lem (put m p (value % 256)) (suc p) value num a in
    (
      λ h. elim (ℕ_discrete a p) [
        | yes e ↦ outside (inl (omega arith)) ∙ put_at m p (value % 256) a e
        | no ne ↦ inside (omega arith, omega arith)
      ],
      λ out. outside (omega arith) ∙ put_other m p (value % 256) a (omega arith),
    )
