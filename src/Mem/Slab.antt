-- ===== src/Mem/Slab.antt =====
-- The adapter src/mem/mem_slab/mem_slab.c. Zephyr's slab and __builtin_ctz() are parameters;
-- MEM_ARENA_SIZE comes from the harness. A size_t has 32 bits.
use zephyr_kernel_bm_tuc_hms.Prelude.{
  ℕ, zero, suc, ◌+◌, ◌*◌, ◌-◌, ◌/◌, ◌%◌, ◌^◌, ◌<◌, ◌≤◌, ◌≡◌, ◌≢◌, sym, ap, ◌∙◌, arith, Bool, true,
  false, Option, none,
}
use zephyr_kernel_bm_tuc_hms.Mem.Blocks.{covers}

-- What the adapter calls and reads of a `struct k_mem_slab` and its arena. A piece is its address.
pub record SlabApi (S : Type 0) : Type 0 where
  pub k_mem_slab_init : ℕ → ℕ → S → S  -- block_size and num_blocks
  pub k_mem_slab_alloc : S → S × Option ℕ  -- K_NO_WAIT; NULL where it fails
  pub k_mem_slab_free : ℕ → S → S
  pub num_blocks : S → ℕ
  pub block_size : S → ℕ
  pub num_used : S → ℕ

-- The hypothesis on Zephyr.
pub record SlabDoc {S : Type 0} (a : SlabApi S) : Type 0 where
  pub init_blocks : (size n : ℕ) (s : S) → a.num_blocks (a.k_mem_slab_init size n s) ≡ n
  pub init_size : (size n : ℕ) (s : S) → a.block_size (a.k_mem_slab_init size n s) ≡ size
  pub init_used : (size n : ℕ) (s : S) → a.num_used (a.k_mem_slab_init size n s) ≡ 0
  pub alloc_gives : (s : S) → a.num_used s < a.num_blocks s → (a.k_mem_slab_alloc s).1 ≢ none
  pub alloc_used :
      (s : S)
      → a.num_used s < a.num_blocks s
      → a.num_used ((a.k_mem_slab_alloc s).0) ≡ suc (a.num_used s)
  pub alloc_blocks : (s : S) → a.num_blocks ((a.k_mem_slab_alloc s).0) ≡ a.num_blocks s
  pub alloc_size : (s : S) → a.block_size ((a.k_mem_slab_alloc s).0) ≡ a.block_size s
  pub alloc_full : (s : S) → a.num_used s ≡ a.num_blocks s → a.k_mem_slab_alloc s ≡ (s, none)
  pub free_used :
      (p : ℕ) (s : S) → 0 < a.num_used s → a.num_used (a.k_mem_slab_free p s) ≡ a.num_used s - 1
  pub free_blocks : (p : ℕ) (s : S) → a.num_blocks (a.k_mem_slab_free p s) ≡ a.num_blocks s
  pub free_size : (p : ℕ) (s : S) → a.block_size (a.k_mem_slab_free p s) ≡ a.block_size s

module _ (mem_arena_size : ℕ) (ctz : ℕ → ℕ) (sizeof_slab : ℕ) {S : Type 0} (a : SlabApi S) where
  abbrev pub ms_pieces : ℕ → ℕ
  ms_pieces granularity = mem_arena_size / 2 ^ ctz granularity

  unfoldable pub mem_allocator_create_arena : ℕ → S → S
  mem_allocator_create_arena granularity s = a.k_mem_slab_init granularity (ms_pieces granularity) s

  unfoldable pub mem_allocator_destroy_arena : S → S
  mem_allocator_destroy_arena s = s

  unfoldable pub mem_allocator_trim_store : S → S
  mem_allocator_trim_store s = s

  -- The size asked for is not used.
  unfoldable pub mem_allocator_alloc : ℕ → S → S × Option ℕ
  mem_allocator_alloc bytes s = a.k_mem_slab_alloc s

  unfoldable pub mem_allocator_free : ℕ → S → S
  mem_allocator_free allocation s = a.k_mem_slab_free allocation s

  abbrev pub mem_allocator_create_is_native : Bool
  mem_allocator_create_is_native = true

  unfoldable pub mem_allocator_arena_bytes : S → ℕ
  mem_allocator_arena_bytes s = (a.num_blocks s * a.block_size s) % 2 ^ 32

  abbrev pub mem_allocator_fixed_bytes : ℕ
  mem_allocator_fixed_bytes = sizeof_slab

  unfoldable pub mem_allocator_used_bytes : S → ℕ
  mem_allocator_used_bytes s =
      ((a.num_used s * a.block_size s) % 2 ^ 32 + mem_allocator_fixed_bytes) % 2 ^ 32

  abbrev pub mem_allocator_is_fixed_size : Bool
  mem_allocator_is_fixed_size = true

  abbrev pub mem_allocator_supports_alloc_n : Bool
  mem_allocator_supports_alloc_n = false

  abbrev pub mem_allocator_alloc_n : ℕ → S → S × Bool
  mem_allocator_alloc_n count s = (s, false)

  -- What `n` allocations of so many bytes leave.
  unfoldable pub filled : ℕ → ℕ → S → S
  unfolding mem_allocator_alloc
  filled bytes zero s = s
  filled bytes (suc n) s = (mem_allocator_alloc bytes (filled bytes n s)).0

  module _ (doc : SlabDoc a) where
    module _ (bytes granularity : ℕ) (s : S) where
      abbrev created : S
      created = mem_allocator_create_arena granularity s

      filled-num_blocks : (n : ℕ) → a.num_blocks (filled bytes n created) ≡ ms_pieces granularity
      unfolding filled mem_allocator_create_arena mem_allocator_alloc
      filled-num_blocks zero = doc.init_blocks granularity (ms_pieces granularity) s
      filled-num_blocks (suc n) = doc.alloc_blocks (filled bytes n created) ∙ filled-num_blocks n

      filled-block_size : (n : ℕ) → a.block_size (filled bytes n created) ≡ granularity
      unfolding filled mem_allocator_create_arena mem_allocator_alloc
      filled-block_size zero = doc.init_size granularity (ms_pieces granularity) s
      filled-block_size (suc n) = doc.alloc_size (filled bytes n created) ∙ filled-block_size n

      filled-num_used :
          (n : ℕ) → n ≤ ms_pieces granularity → a.num_used (filled bytes n created) ≡ n
      unfolding filled mem_allocator_create_arena mem_allocator_alloc
      filled-num_used zero l = doc.init_used granularity (ms_pieces granularity) s
      filled-num_used (suc n) l =
          let ih = filled-num_used n (omega arith) in
          let b = filled-num_blocks n in
          doc.alloc_used (filled bytes n created) (omega (arith, ih, b)) ∙ ap (λ (m : ℕ). suc m) ih

      -- Below the number of pieces, the next allocation gives one.
      pub filled-gives :
          (n : ℕ)
          → n < ms_pieces granularity
          → (mem_allocator_alloc bytes (filled bytes n created)).1 ≢ none
      unfolding mem_allocator_alloc
      filled-gives n l =
          let ih = filled-num_used n (omega arith) in
          let b = filled-num_blocks n in
          doc.alloc_gives (filled bytes n created) (omega (arith, ih, b))

    -- At each step of the sweep, an arena of a multiple of 1,024 bytes below 4 GiB is reported in full; when as many
    -- pieces as it holds were allocated, the space in use is the arena and the fixed cost, the next
    -- allocation gives NULL and leaves the slab as it is.
    pub mem_slab-full :
        (q : ℕ)
        → mem_arena_size ≡ 1024 * q
        → mem_arena_size < 2 ^ 32
        → ((i : ℕ) → i < 8 → ctz (2 ^ (3 + i)) ≡ 3 + i)
        → (i bytes : ℕ) (s : S) → i < 8
        → let g = 2 ^ (3 + i) in
          let full = filled bytes (ms_pieces g) (mem_allocator_create_arena g s) in
          (mem_allocator_arena_bytes full ≡ mem_arena_size)
          × (mem_allocator_used_bytes full ≡ (mem_arena_size + mem_allocator_fixed_bytes) % 2 ^ 32)
          × (mem_allocator_alloc bytes full ≡ (full, none))
    unfolding mem_allocator_arena_bytes mem_allocator_used_bytes mem_allocator_alloc
    mem_slab-full q e l trailing i bytes s h =
        let g = 2 ^ (3 + i) in
        let n = ms_pieces g in
        let full = filled bytes n (mem_allocator_create_arena g s) in
        let used : a.num_used full ≡ n = filled-num_used bytes g s n (omega arith) in
        let blocks : a.num_blocks full ≡ n = filled-num_blocks bytes g s n in
        let size : a.block_size full ≡ g = filled-block_size bytes g s n in
        let covered : (n * g) % 2 ^ 32 ≡ mem_arena_size =
          ap (λ (k : ℕ). ((mem_arena_size / 2 ^ k) * g) % 2 ^ 32) (trailing i h)
          ∙ covers mem_arena_size ctz (λ r n. none) 0 0 q e l i (omega arith) h in
        (
          (λ j. (blocks j * size j) % 2 ^ 32) ∙ covered,
          (λ j. ((used j * size j) % 2 ^ 32 + mem_allocator_fixed_bytes) % 2 ^ 32)
              ∙ ap (λ (x : ℕ). (x + mem_allocator_fixed_bytes) % 2 ^ 32) covered,
          doc.alloc_full full (used ∙ sym blocks),
        )
