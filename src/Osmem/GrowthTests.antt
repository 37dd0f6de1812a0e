-- ===== src/Osmem/GrowthTests.antt =====
-- A kernel that grants memory up to a limit, and the allocator's theorems at heaps that have to
-- grow.
use operating_system_challen.Base.{
  ℕ, ◌+◌, ◌-◌, ◌*◌, ◌≡◌, refl, Bool, true, false, ◌&&◌, ◌||◌, some, List, [], ◌∷◌, ◌++◌, ltb, leb,
  ◌==◌, arith, inr, if◌then◌else◌,
}
use operating_system_challen.Base.Word.{add64}
use operating_system_challen.Osmem.Malloc.{aligned}
use operating_system_challen.Osmem.Memory.{padding, free, alloc, block_meta, fault, Kernel, State}
use operating_system_challen.Osmem.Blocks.{Block}
use operating_system_challen.Osmem.Heap.{IsHeap}
use operating_system_challen.Osmem.Returns.{Returns}
use operating_system_challen.Osmem.Unix.{Grants, Unix}
use operating_system_challen.Osmem.Obtained.{Obtained}
use operating_system_challen.Osmem.Mapping.{os_malloc-mapped, os_calloc-mapped}
use operating_system_challen.Osmem.Overrun.{os_calloc-mapped-fault}
use operating_system_challen.Osmem.Grow.{AtBrk}
use operating_system_challen.Osmem.Serve.{os_malloc-AtBrk, os_calloc-AtBrk}
use operating_system_challen.Osmem.Overlap.{Overlaps, os_realloc_overlap}
use operating_system_challen.Osmem.Resize.{Resized, os_realloc-Resized}
use operating_system_challen.Osmem.Realloc.{os_realloc}
use operating_system_challen.Osmem.Code.{payload, os_malloc, os_calloc}

-- How far the break has moved, and the live mappings, as start and length.
record World : Type 0 where
  grown : ℕ
  maps : List (ℕ × ℕ)

abbrev base : ℕ
base = 4096

abbrev map_at : ℕ
map_at = 16777216

abbrev in_maps : ℕ → List (ℕ × ℕ) → Bool
in_maps a [] = false
in_maps a ((p, n) ∷ ms) = (leb p a && ltb a (p + n)) || in_maps a ms

abbrev small_kernel : Kernel World
small_kernel = record {
  sbrk = λ n w. (some (base + w.grown), record w { grown = w.grown + n });
  mmap = λ n w. (some map_at, record w { maps = (map_at, n) ∷ w.maps });
  munmap = λ p n w. (true, record w { maps = [] });
  getpagesize = 4096;
  allocated = λ w a. (leb base a && ltb a (base + w.grown)) || (leb map_at a && in_maps a w.maps);
  memset = λ p v n bytes a. if leb p a && ltb a (p + n) then v else bytes a;
  memcpy = λ p q n bytes a. if leb p a && ltb a (p + n) then bytes (q + (a - p)) else bytes a;
  torn = λ p n m a h. block_meta 0 free 0 0;
}

small_unix : Unix small_kernel map_at
small_unix = record {
  brk = λ w. base + w.grown;
  grows = λ n w bound. (
    record w { grown = w.grown + n },
    refl,
    record {
      fresh = λ a low high. ground arith;
      owned = λ a low high. ground arith;
      kept = λ a e. ground arith;
      low = omega arith;
      not_null = omega arith;
    },
    omega arith,
  );
}

-- Before the first call.
abbrev first_call : State World
first_call = record {
  cell = λ a. block_meta 0 free 0 0;
  byte = λ a. 7;
  list_head = 0;
  list_tail = 0;
  world = record { grown = 0; maps = [] };
}

first_call-IsHeap : IsHeap small_kernel 4096 4096 first_call []
first_call-IsHeap = record {
  chain = tt;
  head = refl;
  tail = refl;
  layout = record { tiles = refl; apart = tt; sized = tt };
  owned = tt;
}

-- A block in use, and a free one of 64 bytes behind it, where the heap segment ends.
abbrev short_tail : List Block
short_tail =
    (record { addr = 4096; size = 32; status = alloc; prev = 0 })
    ∷ (record { addr = 4160; size = 64; status = free; prev = 4096 })
    ∷ []

abbrev second_call : State World
second_call = record {
  cell = λ a. if a == 4096 then block_meta 32 alloc 0 4160 else block_meta 64 free 4096 0;
  byte = λ a. 7;
  list_head = 4096;
  list_tail = 4160;
  world = record { grown = 160; maps = [] };
}

second_call-IsHeap : IsHeap small_kernel 4096 4256 second_call short_tail
second_call-IsHeap = record {
  chain = (refl, (refl, tt));
  head = refl;
  tail = refl;
  layout = record {
    tiles = (inr refl, (inr refl, refl));
    apart = omega arith;
    sized = omega arith;
  };
  owned = (ground arith, (ground arith, tt));
}

os_malloc-AtBrk_example :
    Returns (AtBrk small_unix 4096 false 24 first_call []) (os_malloc small_kernel 2 24 first_call)
unfolding small_unix
os_malloc-AtBrk_example =
    os_malloc-AtBrk small_kernel small_unix 2 24 first_call [] first_call-IsHeap (omega arith)
      (omega arith) (omega arith) (omega arith) (omega arith)

os_calloc-AtBrk_example :
    Returns
      (AtBrk small_unix 4096 true (10 * 10) second_call short_tail)
      (os_calloc small_kernel 4 10 10 second_call)
unfolding small_unix
os_calloc-AtBrk_example =
    os_calloc-AtBrk small_kernel small_unix 4 10 10 second_call short_tail second_call-IsHeap
      (omega arith) (omega arith) (omega arith) (omega arith) (omega arith) (omega arith)

-- The mapping that `os_malloc(200000)` and `os_calloc(100, 2000)` ask for.
abbrev with_map : ℕ → World
with_map n = record { grown = 160; maps = (map_at, n) ∷ [] }

map_grant : Grants small_kernel map_at 200032 second_call.world (with_map 200032)
map_grant = record {
  fresh = λ a low high. ground arith;
  owned = λ a low high. ground arith;
  kept = λ a e. ground arith;
  low = omega arith;
  not_null = omega arith;
}

os_malloc-mapped_example :
    Returns
      (Obtained small_kernel 4096 4256 false 32 200000 second_call short_tail)
      (os_malloc small_kernel 4 200000 second_call)
unfolding padding add64
os_malloc-mapped_example =
    os_malloc-mapped small_kernel 4 200000 map_at second_call short_tail (with_map 200032)
      second_call-IsHeap (omega arith) (omega arith) (omega arith) refl map_grant

-- A kernel that maps 32 bytes more than it is asked for.
abbrev wide_kernel : Kernel World
wide_kernel = record {
  sbrk = small_kernel.sbrk;
  mmap = λ n w. (some map_at, record w { maps = (map_at, n + 32) ∷ w.maps });
  munmap = small_kernel.munmap;
  getpagesize = 4096;
  allocated = small_kernel.allocated;
  memset = small_kernel.memset;
  memcpy = small_kernel.memcpy;
  torn = small_kernel.torn;
}

wide_grant : Grants wide_kernel map_at 200064 second_call.world (with_map 200064)
wide_grant = record {
  fresh = λ a low high. ground arith;
  owned = λ a low high. ground arith;
  kept = λ a e. ground arith;
  low = omega arith;
  not_null = omega arith;
}

wide-IsHeap : IsHeap wide_kernel 4096 4256 second_call short_tail
wide-IsHeap = record {
  chain = (refl, (refl, tt));
  head = refl;
  tail = refl;
  layout = second_call-IsHeap.layout;
  owned = (ground arith, (ground arith, tt));
}

os_calloc-mapped_example :
    Returns
      (Obtained wide_kernel 4096 4256 true 32 (2000 * 100) second_call short_tail)
      (os_calloc wide_kernel 4 100 2000 second_call)
unfolding padding add64
os_calloc-mapped_example =
    os_calloc-mapped wide_kernel 4 100 2000 map_at second_call short_tail (with_map 200064)
      wide-IsHeap (omega arith) (omega arith) (omega arith) (omega arith) refl wide_grant

os_calloc-mapped-fault_example : os_calloc small_kernel 4 100 2000 second_call ≡ fault
unfolding padding add64
os_calloc-mapped-fault_example =
    os_calloc-mapped-fault small_kernel 4 100 2000 map_at (map_at + 200040) second_call short_tail
      (with_map 200032) second_call-IsHeap (omega arith) (omega arith) (omega arith) (omega arith)
      refl map_grant (omega arith) (omega arith) (ground arith)

-- What `os_realloc` asks for at the end of the heap segment.
short_grant : Grants small_kernel 4256 136 second_call.world (record { grown = 296; maps = [] })
short_grant = record {
  fresh = λ a low high. ground arith;
  owned = λ a low high. ground arith;
  kept = λ a e. ground arith;
  low = omega arith;
  not_null = omega arith;
}

-- 64 bytes are at the free block, and 200 are asked for.
os_realloc_overlap_example :
    Returns
      (Overlaps
        (record { addr = 4096; size = 32; status = alloc; prev = 0 })
        (record { addr = 4160; size = 64; status = free; prev = 4096 })
        200)
      (os_realloc small_kernel 3 (payload 4096) 200 second_call)
unfolding padding add64 aligned
os_realloc_overlap_example =
    os_realloc_overlap small_kernel 0 200 second_call
      (record { addr = 4096; size = 32; status = alloc; prev = 0 })
      (record { addr = 4160; size = 64; status = free; prev = 4096 })
      (record { grown = 296; maps = [] }) second_call-IsHeap refl refl (omega arith) (omega arith)
      (omega arith) refl short_grant

-- The only block, in use.
abbrev only : Block
only = record { addr = 4096; size = 32; status = alloc; prev = 0 }

abbrev one_block : State World
one_block = record {
  cell = λ a. block_meta 32 alloc 0 0;
  byte = λ a. 7;
  list_head = 4096;
  list_tail = 4096;
  world = record { grown = 64; maps = [] };
}

one_block-IsHeap : IsHeap small_kernel 4096 4160 one_block ([] ++ only ∷ [])
one_block-IsHeap = record {
  chain = (refl, tt);
  head = refl;
  tail = refl;
  layout = record { tiles = (inr refl, refl); apart = (tt, tt); sized = omega arith };
  owned = (ground arith, tt);
}

os_realloc-Resized_example :
    Returns
      (λ p t.
        Resized small_kernel 4096
          (small_unix.brk t.world)
          one_block
          ([] ++ only ∷ [])
          only
          (aligned 100)
          p
          t)
      (os_realloc small_kernel 2 (payload 4096) 100 one_block)
unfolding small_unix aligned padding add64
os_realloc-Resized_example =
    os_realloc-Resized small_kernel small_unix 2 100 one_block [] only one_block-IsHeap refl
      (omega arith) (omega arith) (omega arith) (omega arith) (omega arith)
