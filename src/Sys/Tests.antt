-- ===== src/Sys/Tests.antt =====
-- A kernel that takes one byte of each write, and the wrappers on it.
use operating_system_challen.Base.{
  ℕ, ◌-◌, ◌^◌, ◌≡◌, refl, some, List, [], ◌∷◌, ◌++◌, ◌==◌, if◌then◌else◌, arith,
}
use operating_system_challen.Sys.Code.{Kernel, State, puts}
use operating_system_challen.Sys.Wrappers.{
  failure, promised, call_open, on_failure, run_call, run_call-promised,
}
use operating_system_challen.Sys.Puts.{bytes, Writes, puts-written}

-- What the standard output has taken.
abbrev World : Type 0
World = List ℕ

-- "hi" at 100, and "\n" at 200
abbrev memory : ℕ → ℕ
memory p = if p == 100 then 104 else if p == 101 then 105 else if p == 200 then 10 else 0

-- A write takes one byte; all other calls fail with the error 2.
abbrev answer_call : ℕ → List ℕ → World → ℕ × World
answer_call num [] w = (2 ^ 64 - 2, w)
answer_call num (a ∷ []) w = (2 ^ 64 - 2, w)
answer_call num (a ∷ p ∷ []) w = (2 ^ 64 - 2, w)
answer_call num (a ∷ p ∷ n ∷ rest) w = if num == 1 then (1, w ++ memory p ∷ []) else (2 ^ 64 - 2, w)

abbrev toy : Kernel World
toy = record { syscall = answer_call; byte = λ w. memory }

toy_writes : Writes toy
toy_writes = record {
  out = λ w. w;
  takes = λ p n w more small. (1, w ++ memory p ∷ [], refl, omega arith, omega arith, refl, refl);
}

puts-written_example :
    (w' : World) × (puts toy 3 200 100 [] ≡ some (2, w'))
    × (w' ≡ ([] ++ bytes memory 100 2) ++ 10 ∷ [])
unfolding toy_writes
puts-written_example =
    puts-written toy toy_writes 3 200 100 2 [] (omega arith, (omega arith, refl)) (omega arith)
      (omega arith) (omega arith) refl

abbrev before : State World
before = record { errno = 0; world = [] }

run_call-promised_example :
    run_call toy (call_open 100 0 0) before
    ≡ promised (on_failure (call_open 100 0 0)) (failure 2) before
run_call-promised_example =
    run_call-promised toy (call_open 100 0 0) (failure 2) before [] refl (omega arith, omega arith)
