-- ===== src/Osmem/Tests.antt =====
-- A kernel that the definitions can run on, and the allocator's theorems at small heaps.
use operating_system_challen.Base.{
  ℕ, ◌+◌, ◌-◌, ◌≡◌, refl, Bool, true, false, ◌&&◌, ◌||◌, Option, none, some, List, [], ◌∷◌, ◌++◌,
  ◌==◌, inl, inr, ltb, leb, arith, if◌then◌else◌,
}
use operating_system_challen.Base.Word.{add64}
use operating_system_challen.Osmem.BestFit.{addr_of, IsBest, find_best_block-IsBest}
use operating_system_challen.Osmem.Memory.{
  padding, free, alloc, mapped, block_meta, Kernel, State, ok, fault, ◌>>◌,
}
use operating_system_challen.Osmem.Blocks.{Block, merge}
use operating_system_challen.Osmem.Blocks.Layout.{live}
use operating_system_challen.Osmem.Blocks.BestFit.{best_fit}
use operating_system_challen.Osmem.Heap.{IsHeap, IsHeap-Readable, coalesce-IsHeap}
use operating_system_challen.Osmem.Returns.{Returns}
use operating_system_challen.Osmem.Malloc.{aligned}
use operating_system_challen.Osmem.Free.{os_free-IsHeap}
use operating_system_challen.Osmem.Dangling.{os_malloc-os_free-fault}
use operating_system_challen.Osmem.Code.{
  coalesce_free_blocks, find_best_block, payload, os_malloc, os_free,
}

-- The program break and the live mappings, as start and length.
record World : Type 0 where
  brk : ℕ
  maps : List (ℕ × ℕ)

abbrev base : ℕ
base = 4096

abbrev in_maps : ℕ → List (ℕ × ℕ) → Bool
in_maps a [] = false
in_maps a ((p, n) ∷ ms) = (leb p a && ltb a (p + n)) || in_maps a ms

abbrev unmap : ℕ → List (ℕ × ℕ) → List (ℕ × ℕ)
unmap p [] = []
unmap p ((q, n) ∷ ms) = if p == q then ms else (q, n) ∷ unmap p ms

abbrev map_at : ℕ
map_at = 1048576

abbrev toy : Kernel World
toy = record {
  sbrk = λ n w. (some w.brk, record w { brk = w.brk + n });
  mmap = λ n w. (some map_at, record w { maps = (map_at, n) ∷ w.maps });
  munmap = λ p n w. (true, record w { maps = unmap p w.maps });
  getpagesize = 4096;
  allocated = λ w a. (leb base a && ltb a w.brk) || in_maps a w.maps;
  memset = λ p v n bytes a. if leb p a && ltb a (p + n) then v else bytes a;
  memcpy = λ p q n bytes a. if leb p a && ltb a (p + n) then bytes (q + (a - p)) else bytes a;
  torn = λ p n m a h. block_meta 0 free 0 0;
}

-- Two free blocks of 64 and 192 bytes, and one of 32 bytes in use.
abbrev blocks : List Block
blocks =
    (record { addr = 4096; size = 64; status = free; prev = 0 })
    ∷ (record { addr = 4192; size = 192; status = free; prev = 4096 })
    ∷ (record { addr = 4416; size = 32; status = alloc; prev = 4192 })
    ∷ []

abbrev small_heap : State World
small_heap = record {
  cell = λ a.
      if a == 4096
      then block_meta 64 free 0 4192
      else if a == 4192
      then block_meta 192 free 4096 4416
      else block_meta 32 alloc 4192 0;
  byte = λ a. 7;
  list_head = 4096;
  list_tail = 4416;
  world = record { brk = 4480; maps = [] };
}

small_heap-IsHeap : IsHeap toy 4096 4480 small_heap blocks
small_heap-IsHeap = record {
  chain = (refl, (refl, (refl, tt)));
  head = refl;
  tail = refl;
  layout = record {
    tiles = (inr refl, (inr refl, (inr refl, refl)));
    apart = omega arith;
    sized = omega arith;
  };
  owned = (ground arith, (ground arith, (ground arith, tt)));
}

-- The first two blocks after `coalesce_free_blocks`.
abbrev merged : Block
merged = record { addr = 4096; size = 288; status = free; prev = 0 }

small_heap_fit : best_fit (aligned 24) none (merge blocks) ≡ some merged
unfolding best_fit aligned merge padding add64
small_heap_fit = refl

coalesce-IsHeap_example :
    Returns
      (λ _ t.
        IsHeap toy 4096 4480 t (merge blocks)
        × (t.byte ≡ small_heap.byte)
        × (t.world ≡ small_heap.world)
        × (live (merge blocks) ≡ live blocks))
      (coalesce_free_blocks toy 4 small_heap)
coalesce-IsHeap_example = coalesce-IsHeap toy 4 small_heap blocks small_heap-IsHeap (omega arith)

find_best_block-IsBest_example :
    (r : Option Block) × (find_best_block toy 4 24 small_heap ≡ ok (addr_of r) small_heap)
    × IsBest 24 blocks r
find_best_block-IsBest_example =
    find_best_block-IsBest toy 4 24 blocks small_heap small_heap-IsHeap.chain refl
      (IsHeap-Readable toy small_heap blocks small_heap-IsHeap) (omega arith)

-- The block in use.
abbrev used : Block
used = record { addr = 4416; size = 32; status = alloc; prev = 4192 }

abbrev others : List Block
others =
    (record { addr = 4096; size = 64; status = free; prev = 0 })
    ∷ (record { addr = 4192; size = 192; status = free; prev = 4096 })
    ∷ []

os_free-IsHeap_example :
    (t : State World) × (os_free toy (payload 4416) small_heap ≡ ok tt t)
    × IsHeap toy 4096 4480 t (others ++ (record used { status = free }) ∷ [])
    × (live (others ++ used ∷ []) ≡ live others ++ (4416, 32, alloc) ∷ live [])
    × (live (others ++ (record used { status = free }) ∷ []) ≡ live others ++ live [])
    × (t.byte ≡ small_heap.byte)
    × (t.world ≡ small_heap.world)
os_free-IsHeap_example = os_free-IsHeap toy small_heap others used [] small_heap-IsHeap refl

-- A list of one mapped block: `os_malloc(200000)` as the first call.
abbrev big : Block
big = record { addr = 1048576; size = 200000; status = mapped; prev = 0 }

abbrev mapped_heap : State World
mapped_heap = record {
  cell = λ a. block_meta 200000 mapped 0 0;
  byte = λ a. 0;
  list_head = 1048576;
  list_tail = 1048576;
  world = record { brk = 4096; maps = (1048576, 200032) ∷ [] };
}

mapped_heap-IsHeap : IsHeap toy 4096 4096 mapped_heap (big ∷ [])
mapped_heap-IsHeap = record {
  chain = (refl, tt);
  head = refl;
  tail = refl;
  layout = record { tiles = (inl refl, refl); apart = (tt, tt); sized = omega arith };
  owned = (ground arith, tt);
}

os_malloc-os_free-fault_example :
    (os_free toy (payload 1048576) >> os_malloc toy 1 24) mapped_heap ≡ fault
unfolding padding add64
os_malloc-os_free-fault_example =
    os_malloc-os_free-fault toy 0 24 mapped_heap big 4096 (record { brk = 4096; maps = [] })
      (record { brk = 135168; maps = [] }) mapped_heap-IsHeap refl refl (omega arith) (omega arith)
      refl (omega arith) refl refl
