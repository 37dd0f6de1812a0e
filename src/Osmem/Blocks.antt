-- ===== src/Osmem/Blocks.antt =====
-- The block list of mem-allocator/src/osmem.c as a list of values: what `coalesce_free_blocks`,
-- `find_best_block` and `split_block` mean for it, and where its blocks lie in memory.
pub mod Merge
pub mod Middle
pub mod Carve
pub mod BestFit
pub mod Layout
use operating_system_challen.Base.{
  ℕ, zero, suc, ◌+◌, ◌-◌, ◌%◌, ◌^◌, ◌≤◌, ◌<◌, ◌≡◌, ◌≢◌, ◌⊎◌, Bool, true, false, ◌&&◌, List, [], ◌∷◌,
  ◌==◌, ltb, leb, if◌then◌else◌, All, map,
}
use operating_system_challen.Base.Word.{add64}
use operating_system_challen.Osmem.Memory.{
  Ptr, null, Status, free, mapped, is_free, is_mapped, BlockMeta, block_meta, meta_size, padding,
}

pub record Block : Type 0 where
  pub addr : Ptr
  pub size : ℕ
  pub status : Status
  pub prev : Ptr

-- the first address behind the block
abbrev pub end_of : Block → ℕ
end_of b = b.addr + 32 + b.size

-- The address of the first block of a list that goes on at `stop`.
abbrev pub first_or : List Block → Ptr → Ptr
first_or [] stop = stop
first_or (b ∷ _) stop = b.addr

abbrev pub first : List Block → Ptr
first bs = first_or bs null

abbrev pub last_or : Ptr → List Block → Ptr
last_or p [] = p
last_or p (b ∷ bs) = last_or b.addr bs

abbrev pub last : List Block → Ptr
last = last_or null

abbrev pub Avoids : Ptr → List Block → Type 0
Avoids p bs = All (λ b. b.addr ≢ p) bs

abbrev pub Distinct : List Block → Type 0
Distinct [] = Unit
Distinct (b ∷ bs) = Avoids b.addr bs × Distinct bs

-- `current->size += current->next->size + META_SIZE + padding(META_SIZE)`
abbrev pub grow : Block → Block → Block
grow b c = record b { size = add64 b.size (c.size + meta_size + padding meta_size) }

-- A free block with the free blocks that follow it, and the rest of the list.
unfoldable pub absorbed : Block → List Block → Block × List Block
absorbed b [] = (b, [])
absorbed b (c ∷ cs) = elim (is_free c.status) [
  | true ↦ absorbed (grow b c) cs
  | false ↦ (b, c ∷ cs)
]

-- Each run of free blocks becomes one block.
unfoldable pub merge_from : Block → List Block → List Block
merge_from b [] = b ∷ []
merge_from b (c ∷ cs) = elim (is_free b.status && is_free c.status) [
  | true ↦ merge_from (grow b c) cs
  | false ↦ b ∷ merge_from c cs
]

unfoldable pub merge : List Block → List Block
unfolding merge_from
merge [] = []
merge (b ∷ bs) = merge_from b bs

-- The list with `f` applied to the block at `p`.
abbrev pub update_at : Ptr → (Block → Block) → List Block → List Block
update_at p f [] = []
update_at p f (b ∷ bs) = (if b.addr == p then f b else b) ∷ update_at p f bs

-- The list with `c` put behind the block at `p`.
abbrev pub insert_after : Ptr → Block → List Block → List Block
insert_after p c [] = []
insert_after p c (b ∷ bs) = elim (b.addr == p) [
  | true ↦ b ∷ c ∷ bs
  | false ↦ b ∷ insert_after p c bs
]
