-- ===== src/Mm/Tests.antt =====
-- The list of mappings under a small kernel, which grants one page after the other.
use operating_system_challen.Base.{
  ℕ, ◌+◌, ◌<◌, ◌==◌, ◌≡◌, ◌≢◌, refl, true, false, List, [], ◌∷◌, map, length, arith, if◌then◌else◌,
}
use operating_system_challen.Mm.State.{Ptr, Kernel, State, Cmd, pure, ◌>>=◌}
use operating_system_challen.Ring.{Linked, Distinct}
use operating_system_challen.Ring.Splice.{IsRing}
use operating_system_challen.Mm.Find.{IsList, mapping}
use operating_system_challen.Mm.Update.{Returns}
use operating_system_challen.Mm.Mappings.{is_mapped}
use operating_system_challen.Mm.Holds.{Holds, Deleted, mem_list_del-Holds}
use operating_system_challen.Mm.Malloc.{Grants, Freed, free-Holds, malloc-free}
use operating_system_challen.Mm.Cleanup.{libc_start_main-empty}
use operating_system_challen.Mm.Code.{malloc, free, libc_start_main}

abbrev toy : Kernel ℕ
toy = record {
  sys_mmap = λ addr length prot flags fd offset w. (w, w + 4096);
  sys_mremap = λ old_address old_size new_size flags w. (w, w + 4096);
  sys_munmap = λ addr length w. (0, w);
}

abbrev head : Ptr
head = 64

-- One item, at 128, for a block of 100 bytes at 4096.
abbrev one_item : State ℕ
one_item = record {
  start = λ a. if a == 128 then 4096 else 0;
  len = λ a. if a == 128 then 100 else 0;
  prev = λ a. if a == 64 then 128 else 64;
  next = λ a. if a == 64 then 128 else 64;
  byte = λ a. 0;
  errno = 0;
  world = 8192;
}

one_item-IsList : IsList head (128 ∷ []) one_item
unfolding IsList IsRing Linked Distinct
one_item-IsList =
    (((refl, refl, (refl, refl)), ((omega arith, tt), (tt, tt))), omega arith, (omega arith, tt))

second_block : Grants toy head 50 8192 (128 ∷ []) one_item
second_block = record {
  item = 12288;
  world = 12288;
  world' = 16384;
  block = refl;
  block_valid = omega arith;
  item_given = refl;
  item_fresh = (omega arith, omega arith, omega arith, (omega arith, tt));
}

not_zero : ◌≢◌ {A = ℕ} 50 0
not_zero = omega arith

elsewhere : is_mapped 8192 (map (mapping one_item) (128 ∷ [])) ≡ false
unfolding is_mapped
elsewhere = refl

malloc-free_example :
    Returns
      ((malloc toy head 50 >>= λ q. free toy head 5 q) one_item)
      λ _ t. Holds head (map (mapping one_item) (128 ∷ [])) t
malloc-free_example =
    malloc-free toy head 5 50 8192 (128 ∷ []) one_item one_item-IsList (omega arith) not_zero
      second_block elsewhere

here : is_mapped 4096 (map (mapping one_item) (128 ∷ [])) ≡ true
unfolding is_mapped
here = refl

free-Holds_example : Freed toy head 5 4096 one_item (128 ∷ [])
free-Holds_example =
    free-Holds toy head 5 4096 (128 ∷ []) one_item one_item-IsList (omega arith) here

mem_list_del-Holds_example : Deleted toy head 5 4096 one_item (128 ∷ [])
mem_list_del-Holds_example =
    mem_list_del-Holds toy head 5 4096 (128 ∷ []) one_item one_item-IsList (omega arith)

-- A program that does nothing but return 3.
abbrev three : Cmd ℕ ℕ
three = pure 3

three_runs :
    (t : State ℕ)
    → IsList head [] t
    → Returns (three t) λ c u. (c ≡ 3) × ((xs : List Ptr) × IsList head xs u × (length xs < 5))
unfolding Returns
three_runs t h = (refl, ([], h, omega arith))

libc_start_main-empty_example :
    Returns (libc_start_main toy head 5 three one_item) λ c t. (c ≡ 3) × IsList head [] t
libc_start_main-empty_example =
    libc_start_main-empty toy head 5 3 three one_item (omega arith) three_runs
