-- ===== src/Mem/Blocks.antt =====
-- The adapter src/mem/mem_blocks/mem_blocks.c: one pool for each size of piece, all over one arena.
-- __builtin_ctz(), the count of set bits in a bitmap and the sizes of Zephyr's structures are
-- parameters; MEM_ARENA_SIZE and MEM_S_MIN come from the harness.
use zephyr_kernel_bm_tuc_hms.Prelude.{
  ℕ, suc, ◌+◌, ◌*◌, ◌-◌, ◌/◌, ◌%◌, ◌^◌, ◌<◌, ◌≡◌, refl, ap, arith, false, List, [], ◌∷◌, Option,
  none, some, length, ◌==◌, if◌then◌else◌,
}
use zephyr_kernel_bm_tuc_hms.Itc.Async.{below_nine}

-- `info` of a sys_mem_blocks_t.
pub record Pool : Type 0 where
  pub num_blocks : ℕ
  pub blk_sz_shift : ℕ

-- The index of `test_live`, and the bitmap of every pool.
pub record Adapter : Type 0 where
  pub test_live : ℕ
  pub bundles : ℕ → List ℕ

-- The loop over the bundles.
abbrev pub zeroed : List ℕ → List ℕ
zeroed [] = []
zeroed (b ∷ bs) = 0 ∷ zeroed bs

module _ (mem_arena_size : ℕ) (ctz : ℕ → ℕ) (popcount_region : List ℕ → ℕ → Option ℕ)
    (sizeof_pool sizeof_bitarray : ℕ) where
  abbrev pub mb_blocks_at : ℕ → ℕ
  mb_blocks_at s = mem_arena_size / 2 ^ s

  -- pool_s3 to pool_s10.
  abbrev pub test_pool : ℕ → Pool
  test_pool i = record { num_blocks = mb_blocks_at (3 + i); blk_sz_shift = 3 + i }

  abbrev pub mb_step_of : ℕ → ℕ
  mb_step_of granularity = ctz granularity - 3

  unfoldable pub mem_allocator_create_arena : ℕ → Adapter → Adapter
  mem_allocator_create_arena granularity y =
      let live = mb_step_of granularity in
      record {
        test_live = live;
        bundles = λ i. if i == live then zeroed (y.bundles i) else y.bundles i;
      }

  unfoldable pub mem_allocator_arena_bytes : Adapter → ℕ
  mem_allocator_arena_bytes y =
      let p = test_pool y.test_live in (p.num_blocks * 2 ^ p.blk_sz_shift) % 2 ^ 32

  unfoldable pub mem_allocator_fixed_bytes : Adapter → ℕ
  mem_allocator_fixed_bytes y =
      (sizeof_pool + sizeof_bitarray + length (y.bundles y.test_live) * 4) % 2 ^ 32

  unfoldable pub mem_allocator_used_bytes : Adapter → ℕ
  mem_allocator_used_bytes y =
      let p = test_pool y.test_live in
      elim (popcount_region (y.bundles y.test_live) p.num_blocks) [
        | none ↦ 0
        | some count ↦
            ((count * 2 ^ p.blk_sz_shift) % 2 ^ 32 + mem_allocator_fixed_bytes y) % 2 ^ 32
      ]

  -- At each step of the sweep the pieces of the pool cover the arena.
  pub covers :
      (q : ℕ)
      → mem_arena_size ≡ 1024 * q
      → mem_arena_size < 2 ^ 32
      → (i : ℕ) → i < 9
      → i < 8
      → (mb_blocks_at (3 + i) * 2 ^ (3 + i)) % 2 ^ 32 ≡ mem_arena_size
  covers q e l =
      below_nine (λ i. i < 8 → (mb_blocks_at (3 + i) * 2 ^ (3 + i)) % 2 ^ 32 ≡ mem_arena_size)
        (λ _. omega arith) (λ _. omega arith) (λ _. omega arith) (λ _. omega arith)
        (λ _. omega arith) (λ _. omega arith) (λ _. omega arith) (λ _. omega arith)
        (λ m. absurd (omega arith))

  -- The arena is cut into pieces of 2 ^ (3 + i) bytes: all of it, none in use, the other pools as
  -- they were.
  pub record ArenaReady (i : ℕ) (before after : Adapter) : Type 0 where
    pub whole : mem_allocator_arena_bytes after ≡ mem_arena_size
    pub nothing_used : mem_allocator_used_bytes after ≡ mem_allocator_fixed_bytes after
    pub same_length : length (after.bundles i) ≡ length (before.bundles i)
    pub others : (j : ℕ) → (j == i) ≡ false → after.bundles j ≡ before.bundles j

  length-zeroed : (l : List ℕ) → length (zeroed l) ≡ length l
  length-zeroed [] = refl
  length-zeroed (x ∷ l) = ap suc (length-zeroed l)

  -- Where the arena is a multiple of 1,024 bytes below 4 GiB, ctz() counts the trailing zeros of the
  -- granularity of step i < 8 and an empty bitmap has no set bits: mem_allocator_create_arena() with
  -- that granularity leaves an arena of mem_arena_size bytes of which only the fixed cost is used,
  -- with a bitmap as long as before, and the bitmaps of the other pools as they were, whatever was
  -- allocated before.
  pub mem_allocator_create_arena-ArenaReady :
      (q : ℕ) (arena : mem_arena_size ≡ 1024 * q) (fits : mem_arena_size < 2 ^ 32)
      (clear : (l : List ℕ) (n : ℕ) → popcount_region (zeroed l) n ≡ some 0) (i : ℕ) (steps : i < 8)
      (trailing : ctz (2 ^ (3 + i)) ≡ 3 + i) (y : Adapter)
      → ArenaReady i y (mem_allocator_create_arena (2 ^ (3 + i)) y)
  unfolding mem_allocator_create_arena mem_allocator_arena_bytes mem_allocator_used_bytes
      mem_allocator_fixed_bytes
  mem_allocator_create_arena-ArenaReady q arena fits clear i steps trailing y =
      let e : ctz (2 ^ (3 + i)) - 3 ≡ i = omega (arith, trailing) in
      record {
        whole = rw e (covers q arena fits i (omega arith) steps);
        nothing_used = rw e (ground (arith, clear (y.bundles i) (mb_blocks_at (3 + i))));
        same_length = rw e (ground (arith, length-zeroed (y.bundles i)));
        others = λ j d. rw e (ground arith);
      }
