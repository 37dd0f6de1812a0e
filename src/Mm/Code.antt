-- ===== src/Mm/Code.antt =====
-- mini-libc/src/mm: mmap.c, mem_list.c and malloc.c, and crt/__libc_start_main.c. `fuel` bounds the
-- walks round the list: a list of n items needs n + 1 rounds. The flags of the calls are those of
-- private anonymous memory, with PROT_READ | PROT_WRITE = 3 and MREMAP_MAYMOVE = 1.
use operating_system_challen.Base.{
  ℕ, zero, suc, ◌-◌, ◌%◌, ◌^◌, ◌==◌, true, false, ◌||◌, not, if◌then◌else◌,
}
use operating_system_challen.Base.Word.{mul64, sub64}
use operating_system_challen.CString.Code.{memset}
use operating_system_challen.Mm.State.{
  Ptr, null, map_failed, Flags, Kernel, ok, out_of_fuel, Cmd, pure, ◌>>=◌, ◌>>◌, get, set_errno,
  set_start, set_len, set_prev, set_next, get_start, get_len, get_prev, get_next,
}

abbrev pub ebadf : ℕ
ebadf = 9

abbrev pub einval : ℕ
einval = 22

-- `sizeof(struct mem_list)`
abbrev pub item_size : ℕ
item_size = 32

abbrev pub private_anonymous : Flags
private_anonymous = record { anonymous = true; is_private = true; is_shared = false }

-- `errno = -(long)ret`, of which the low 32 bits are stored
abbrev pub errno_of : ℕ → ℕ
errno_of ret = sub64 0 ret % 2 ^ 32

module _ {W : Type 0} (k : Kernel W) where
  unfoldable pub mmap : (addr : Ptr) → (length prot : ℕ) → Flags → (fd offset : ℕ) → Cmd W ℕ
  mmap addr length prot flags fd offset = do
    s ← get
    let (ret, w) = k.sys_mmap addr length prot flags fd offset s.world
    (λ t. ok tt (record t { world = w }))
    if not flags.anonymous
        then (do set_errno ebadf; pure map_failed)
        else (if not (flags.is_private || flags.is_shared)
            then (do set_errno einval; pure map_failed)
            else (if ret == map_failed
                then (do set_errno (errno_of ret); pure map_failed)
                else pure ret))

  unfoldable pub mremap : Ptr → (old_size new_size flags : ℕ) → Cmd W ℕ
  mremap old_address old_size new_size flags = do
    s ← get
    let (ret, w) = k.sys_mremap old_address old_size new_size flags s.world
    (λ t. ok tt (record t { world = w }))
    if ret == map_failed then (do set_errno (errno_of ret); pure map_failed) else pure ret

  -- The result of the system call is cut to an `int`; -1 is 2 ^ 32 - 1.
  unfoldable pub munmap : Ptr → ℕ → Cmd W ℕ
  munmap addr length = do
    s ← get
    let (raw, w) = k.sys_munmap addr length s.world
    let ret = raw % 2 ^ 32
    (λ t. ok tt (record t { world = w }))
    if ret == 0 then (do set_errno 0; pure (2 ^ 32 - 1)) else pure ret

  -- `mmap(NULL, len, PROT_READ | PROT_WRITE, MAP_PRIVATE | MAP_ANONYMOUS, -1, 0)`
  abbrev pub mmap_private : ℕ → Cmd W ℕ
  mmap_private len = mmap null len 3 private_anonymous (2 ^ 32 - 1) 0

  unfoldable pub mem_list_alloc : Cmd W Ptr
  mem_list_alloc = mmap_private item_size

  unfoldable pub mem_list_free : Ptr → Cmd W ℕ
  mem_list_free item = munmap item item_size

  -- `head` is the address of `mem_list_head`.
  module _ (head : Ptr) where
    unfoldable pub mem_list_init : Cmd W (Unit {0})
    mem_list_init = do set_start head null; set_len head 0; set_prev head head; set_next head head

    -- The status 0, or -1.
    unfoldable pub mem_list_add : Ptr → ℕ → Cmd W ℕ
    mem_list_add start len = do
      item ← mem_list_alloc
      if item == null then pure (2 ^ 32 - 1) else (do
        set_start item start
        set_len item len
        set_next item head
        last ← get_prev head
        set_prev item last
        set_next last item
        set_prev head item
        pure 0)

    unfoldable pub find_loop : ℕ → Ptr → Ptr → Cmd W Ptr
    find_loop zero start iter = λ _. out_of_fuel
    find_loop (suc fuel) start iter = if iter == head then pure null else do
      at ← get_start iter
      next ← get_next iter
      if at == start then pure iter else find_loop fuel start next

    unfoldable pub mem_list_find : ℕ → Ptr → Cmd W Ptr
    unfolding find_loop
    mem_list_find fuel start = do first ← get_next head; find_loop fuel start first

    -- The four assignments that take an item out of the list.
    unfoldable pub unlink : Ptr → Cmd W (Unit {0})
    unlink item = do
      next ← get_next item
      prev ← get_prev item
      set_prev next prev
      prev' ← get_prev item
      next' ← get_next item
      set_next prev' next'
      set_next item item
      set_prev item item

    unfoldable pub mem_list_extract : ℕ → Ptr → Cmd W Ptr
    unfolding mem_list_find unlink
    mem_list_extract fuel start = do
      item ← mem_list_find fuel start
      if item == null then pure null else (do unlink item; pure item)

    unfoldable pub mem_list_del : ℕ → Ptr → Cmd W ℕ
    unfolding mem_list_extract mem_list_free
    mem_list_del fuel start = do
      item ← mem_list_extract fuel start
      if item == null then pure (2 ^ 32 - 1) else (do _ ← mem_list_free item; pure 0)

    unfoldable pub cleanup_loop : ℕ → (iter tmp : Ptr) → Cmd W (Unit {0})
    unfolding unlink mem_list_free
    cleanup_loop zero iter tmp = λ _. out_of_fuel
    cleanup_loop (suc fuel) iter tmp =
        if iter == head
        then pure tt
        else do unlink iter; _ ← mem_list_free iter; next ← get_next tmp; cleanup_loop fuel tmp next

    unfoldable pub mem_list_cleanup : ℕ → Cmd W (Unit {0})
    unfolding cleanup_loop
    mem_list_cleanup fuel = do iter ← get_next head; tmp ← get_next iter; cleanup_loop fuel iter tmp

    unfoldable pub count_loop : ℕ → Ptr → ℕ → Cmd W ℕ
    count_loop zero iter count = λ _. out_of_fuel
    count_loop (suc fuel) iter count =
        if iter == head
        then pure count
        else do next ← get_next iter; count_loop fuel next (suc count)

    unfoldable pub mem_list_num_items : ℕ → Cmd W ℕ
    unfolding count_loop
    mem_list_num_items fuel = do first ← get_next head; count_loop fuel first 0

    unfoldable pub malloc : ℕ → Cmd W Ptr
    unfolding mem_list_add
    malloc size = if size == 0 then pure null else do
      new ← mmap_private size
      if new == map_failed then pure null else (do _ ← mem_list_add new size; pure new)

    unfoldable pub calloc : (nmemb size : ℕ) → Cmd W Ptr
    unfolding malloc
    calloc nmemb size = if nmemb == 0 || size == 0 then pure null else do
      new ← malloc (mul64 nmemb size)
      if new == null then pure null else (do
        (λ s. ok tt (record s { byte = memset s.byte new 0 (mul64 nmemb size) }))
        pure new)

    unfoldable pub free : ℕ → Ptr → Cmd W (Unit {0})
    unfolding mem_list_find mem_list_del
    free fuel ptr = do
      node ← mem_list_find fuel ptr
      len ← get_len node
      _ ← munmap ptr len
      start ← get_start node
      _ ← mem_list_del fuel start
      pure tt

    unfoldable pub realloc : ℕ → Ptr → ℕ → Cmd W Ptr
    unfolding mem_list_find mem_list_del
    realloc fuel ptr size = do
      node ← mem_list_find fuel ptr
      start ← get_start node
      len ← get_len node
      new_start ← mremap start len size 1
      if new_start == map_failed
          then (do _ ← mem_list_del fuel node; pure null)
          else (do set_start node new_start; set_len node size; pure new_start)

    unfoldable pub reallocarray : ℕ → Ptr → (nmemb size : ℕ) → Cmd W Ptr
    unfolding realloc
    reallocarray fuel ptr nmemb size = realloc fuel ptr (mul64 nmemb size)

    -- `init`, `cleanup` and what is between.
    unfoldable pub libc_start_main : ℕ → Cmd W ℕ → Cmd W ℕ
    unfolding mem_list_init mem_list_cleanup
    libc_start_main fuel main_fn = do
      mem_list_init
      exit_code ← main_fn
      mem_list_cleanup fuel
      pure exit_code
