-- ===== src/Sys/Puts.antt =====
-- `puts` of mini-libc/src/stdio/puts.c on a kernel whose writes do not fail.
use operating_system_challen.Base.{
  ℕ, zero, suc, ◌+◌, ◌-◌, ◌%◌, ◌^◌, ◌<◌, ◌≤◌, ◌≡◌, ◌≢◌, refl, sym, ap, subst, ◌∙◌, true, false,
  some, List, [], ◌∷◌, ◌++◌, ◌==◌, ltb, arith,
}
use native.Mathlib.Decide.{dec_lt}
use mathlib.Core.List.{append_assoc, append-nil}
use operating_system_challen.Sys.Code.{
  Kernel, to_int, is_negative, extend, less_int, size_loop, write_loop, puts,
}

-- The `n` bytes from `p` on.
abbrev pub bytes : (ℕ → ℕ) → ℕ → ℕ → List ℕ
bytes f p zero = []
bytes f p (suc n) = f p ∷ bytes f (p + 1) n

-- A string of `n` bytes.
abbrev pub IsText : (ℕ → ℕ) → ℕ → ℕ → Type 0
IsText f p zero = f p ≡ 0
IsText f p (suc n) = (f p ≢ 0) × IsText f (p + 1) n

-- A `write` to the standard output takes at least one of the bytes asked for, in their order, and
-- leaves the memory.
pub record Writes {W : Type 0} (k : Kernel W) : Type 0 where
  pub out : W → List ℕ
  pub takes :
      (p n : ℕ) (w : W)
      → 0 < n
      → n < 2 ^ 31
      → (m : ℕ) × (w' : W) × (k.syscall 1 (1 ∷ p ∷ n ∷ []) w ≡ (m, w'))
        × (0 < m)
        × (m ≤ n)
        × (out w' ≡ out w ++ bytes (k.byte w) p m)
        × (k.byte w' ≡ k.byte w)

bytes-append : (f : ℕ → ℕ) (p m n : ℕ) → bytes f p m ++ bytes f (p + m) n ≡ bytes f p (m + n)
bytes-append f p zero n = ap (λ q. bytes f q n) (omega arith) ∙ ap (bytes f p) (omega arith)
bytes-append f p (suc m) n =
    ap (λ l. f p ∷ l)
      (ap (λ q. bytes f (p + 1) m ++ bytes f q n) (omega arith) ∙ bytes-append f (p + 1) m n)
    ∙ ap (bytes f p) next
  where
    next : suc (m + n) ≡ suc m + n
    next = omega arith

module _ {W : Type 0} (k : Kernel W) where
  size_loop-length :
      (fuel p size n : ℕ) (w : W)
      → IsText (k.byte w) p n
      → size + n < 2 ^ 31
      → n < fuel
      → size_loop k fuel p size w ≡ some (size + n)
  unfolding size_loop to_int
  size_loop-length zero p size n w t small more = absurd (omega arith)
  size_loop-length (suc fuel) p size zero w t small more =
      let e : (k.byte w p == 0) ≡ true = ground arith in rw e (ap some (omega arith))
  size_loop-length (suc fuel) p size (suc n) w (d, t) small more =
      let e : (k.byte w p == 0) ≡ false = ground arith in
      let next : (size + 1) % 2 ^ 32 ≡ size + 1 = omega arith in
      rw (e, next)
        (size_loop-length fuel (p + 1) (size + 1) n w t (omega arith) (omega arith)
          ∙ ap some (omega arith))

  -- The words of a round of the second loop.
  write_words :
      (str size total m : ℕ)
      → total < size
      → size < 2 ^ 31
      → str + size < 2 ^ 64
      → total + m ≤ size
      → ((str + extend k total) % 2 ^ 64 ≡ str + total)
        × (extend k (to_int (size + 2 ^ 32 - total)) ≡ size - total)
        × (to_int (extend k total + m) ≡ total + m)
  unfolding extend to_int is_negative
  write_words str size total m l small low le = ground arith

  less_int-ltb : (a b : ℕ) → a ≤ b → b < 2 ^ 31 → less_int k a b ≡ ltb a b
  unfolding less_int
  less_int-ltb a b le small = ground arith

  write_round :
      (fuel str size total m : ℕ) (w w' : W)
      → total < size
      → size < 2 ^ 31
      → str + size < 2 ^ 64
      → total + m ≤ size
      → k.syscall 1 (1 ∷ (str + total) ∷ (size - total) ∷ []) w ≡ (m, w')
      → write_loop k (suc fuel) str size total w ≡ write_loop k fuel str size (total + m) w'
  unfolding write_loop
  write_round fuel str size total m w w' l small low le call =
      let e : less_int k total size ≡ true =
        less_int-ltb total size (omega arith) small ∙ ground arith in
      let (at, left, next) = write_words str size total m l small low le in
      rw (write_loop, e, at, left, call, next) refl

  write_end :
      (fuel str size : ℕ) (w : W)
      → size < 2 ^ 31
      → write_loop k (suc fuel) str size size w ≡ some (size, w)
  unfolding write_loop
  write_end fuel str size w small =
      let e : less_int k size size ≡ false =
        less_int-ltb size size (omega arith) small ∙ ground arith in
      rw (write_loop, e) refl

  puts_run :
      (fuel newline str size total m : ℕ) (w w' w'' : W)
      → size_loop k fuel str 0 w ≡ some size
      → write_loop k fuel str size 0 w ≡ some (total, w')
      → k.syscall 1 (1 ∷ newline ∷ 1 ∷ []) w' ≡ (m, w'')
      → puts k fuel newline str w ≡ some (total, w'')
  unfolding puts
  puts_run fuel newline str size total m w w' w'' length run call =
      rw (puts, length, run, call) refl

  module _ (writes : Writes k) where
    -- One round writes some of what is left, and the rest follows.
    joined :
        (f : ℕ → ℕ) (str size total m : ℕ) (before : List ℕ)
        → total + m ≤ size
        → (before ++ bytes f (str + total) m) ++ bytes f (str + (total + m)) (size - (total + m))
          ≡ before ++ bytes f (str + total) (size - total)
    joined f str size total m before le =
        append_assoc before (bytes f (str + total) m)
          (bytes f (str + (total + m)) (size - (total + m)))
        ∙ ap (λ l. before ++ l)
            (ap (λ q. bytes f (str + total) m ++ bytes f q (size - (total + m))) (omega arith)
              ∙ bytes-append f (str + total) m (size - (total + m))
              ∙ ap (bytes f (str + total)) (omega arith))

    -- What the output reads behind the rest of the loop.
    Wrote : W → (str size total : ℕ) → W → Type 0
    Wrote w str size total w' =
        (writes.out w' ≡ writes.out w ++ bytes (k.byte w) (str + total) (size - total))
        × (k.byte w' ≡ k.byte w)

    Wrote-nothing : (w : W) (str size : ℕ) → Wrote w str size size w
    unfolding Wrote
    Wrote-nothing w str size =
        let none_left : size - size ≡ 0 = omega arith in
        (
          sym (append-nil (writes.out w))
              ∙ ap (λ d. writes.out w ++ bytes (k.byte w) (str + size) d) (sym none_left),
          refl,
        )

    Wrote-more :
        (w w' w'' : W) (str size total m : ℕ)
        → total + m ≤ size
        → writes.out w' ≡ writes.out w ++ bytes (k.byte w) (str + total) m
        → k.byte w' ≡ k.byte w
        → Wrote w' str size (total + m) w''
        → Wrote w str size total w''
    unfolding Wrote
    Wrote-more w w' w'' str size total m le out same (out', same') = (
      out'
          ∙ ap (λ f. writes.out w' ++ bytes f (str + (total + m)) (size - (total + m))) same
          ∙ ap (λ l. l ++ bytes (k.byte w) (str + (total + m)) (size - (total + m))) out
          ∙ joined (k.byte w) str size total m (writes.out w) le,
      same' ∙ same,
    )

    write_loop-Wrote :
        (fuel str size total : ℕ) (w : W)
        → total ≤ size
        → size < 2 ^ 31
        → str + size < 2 ^ 64
        → size - total < fuel
        → (w' : W) × (write_loop k fuel str size total w ≡ some (size, w'))
          × Wrote w str size total w'
    write_loop-Wrote zero str size total w le small low enough = absurd (omega arith)
    write_loop-Wrote (suc fuel) str size total w le small low enough = elim (dec_lt total size) [
      | no l ↦
          let same : size ≡ total = omega arith in
          subst
            (λ t.
              (w' : W) × (write_loop k (suc fuel) str size t w ≡ some (size, w'))
              × Wrote w str size t w')
            same (w, write_end fuel str size w small, Wrote-nothing w str size)
      | yes l ↦
          let (m, w', call, pos, some_left, out, same) =
            writes.takes (str + total) (size - total) w (omega arith) (omega arith) in
          let (w'', run, wrote) =
            write_loop-Wrote fuel str size (total + m) w' (omega arith) small low (omega arith) in
          (
            w'',
            write_round fuel str size total m w w' l small low (omega arith) call ∙ run,
            Wrote-more w w' w'' str size total m (omega arith) out same wrote,
          )
    ]

    -- On a string of n bytes, fewer than 2 ^ 31, that ends below 2 ^ 64, with fuel for n + 1
    -- rounds, a newline at the address of the literal, and a kernel of which each `write` takes at
    -- least one byte: `puts` ends, returns n, and what it has written is the string, each byte
    -- once and in order, and a newline.
    pub puts-written :
        (fuel newline str n : ℕ) (w : W)
        → IsText (k.byte w) str n
        → n < 2 ^ 31
        → str + n < 2 ^ 64
        → n < fuel
        → k.byte w newline ≡ 10
        → (w' : W) × (puts k fuel newline str w ≡ some (n, w'))
          × (writes.out w' ≡ (writes.out w ++ bytes (k.byte w) str n) ++ 10 ∷ [])
    unfolding Wrote
    puts-written fuel newline str n w text small low more line =
        let (w', run, (out, same)) =
          write_loop-Wrote fuel str n 0 w (omega arith) small low (omega arith) in
        let (m, w'', call, pos, le, out', _) =
          writes.takes newline 1 w' (omega arith) (omega arith) in
        let one : m ≡ 1 = omega arith in
        let start : str + 0 ≡ str = omega arith in
        let all : n - 0 ≡ n = omega arith in
        let none_yet : 0 + n ≡ n = omega arith in
        let length : size_loop k fuel str 0 w ≡ some n =
          size_loop-length fuel str 0 n w text (omega arith) more ∙ ap some none_yet in
        (
          w'',
          puts_run fuel newline str n n m w w' w'' length run call,
          out'
              ∙ ap (λ d. writes.out w' ++ bytes (k.byte w') newline d) one
              ∙ ap (λ l. l ++ k.byte w' newline ∷ [])
                  (out
                    ∙ ap (λ a. writes.out w ++ bytes (k.byte w) a (n - 0)) start
                    ∙ ap (λ d. writes.out w ++ bytes (k.byte w) str d) all)
              ∙ ap (λ c. (writes.out w ++ bytes (k.byte w) str n) ++ c ∷ [])
                  (ap (λ f. f newline) same ∙ line),
        )
