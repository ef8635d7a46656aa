-- ===== src/Mem/BlockCalls.antt =====
-- The allocation calls of src/mem/mem_blocks/mem_blocks.c, over the live pool of Mem/Blocks.antt. What
-- sys_mem_blocks_alloc() and sys_mem_blocks_free() do to the bitmap of a pool is a parameter.
use zephyr_kernel_bm_tuc_hms.Prelude.{
  ℕ, zero, suc, ◌+◌, ◌*◌, ◌^◌, ◌%◌, ◌≤◌, ◌≡◌, ◌≢◌, refl, sym, ap, ◌∙◌, arith, Bool, true, false,
  List, [], ◌∷◌, Option, none, some, length, ◌==◌, if◌then◌else◌,
}
use zephyr_kernel_bm_tuc_hms.Mem.Blocks.{
  Pool, Adapter, test_pool, mem_allocator_used_bytes, mem_allocator_fixed_bytes,
}

-- The bitmap after a call for so many pieces, and the pieces; `none` where the pool refuses.
pub record BlocksApi : Type 0 where
  pub sys_mem_blocks_alloc : Pool → ℕ → List ℕ → List ℕ × Option (List ℕ)
  pub sys_mem_blocks_free : Pool → List ℕ → List ℕ → List ℕ

-- The hypothesis on Zephyr: with room for all the pieces, they are given and their bits set; the bitmap keeps its length.
pub record BlocksDoc (popcount_region : List ℕ → ℕ → Option ℕ) (a : BlocksApi) : Type 0 where
  pub alloc_sets :
      (p : Pool) (n c : ℕ) (bits : List ℕ)
      → popcount_region bits p.num_blocks ≡ some c
      → c + n ≤ p.num_blocks
      → popcount_region ((a.sys_mem_blocks_alloc p n bits).0) p.num_blocks ≡ some (c + n)
  pub alloc_gives :
      (p : Pool) (n c : ℕ) (bits : List ℕ)
      → popcount_region bits p.num_blocks ≡ some c
      → c + n ≤ p.num_blocks
      → (a.sys_mem_blocks_alloc p n bits).1 ≢ none
  pub alloc_length :
      (p : Pool) (n : ℕ) (bits : List ℕ)
      → length ((a.sys_mem_blocks_alloc p n bits).0) ≡ length bits

abbrev first_piece : Option (List ℕ) → Option ℕ
first_piece none = none
first_piece (some []) = none
first_piece (some (p ∷ ps)) = some p

abbrev is_given : Option (List ℕ) → Bool
is_given none = false
is_given (some ps) = true

is_given-none : (r : Option (List ℕ)) → r ≢ none → is_given r ≡ true
is_given-none none h = absurd (h refl)
is_given-none (some ps) h = refl

-- The bitmap of the live pool is replaced.
abbrev set_live : List ℕ → Adapter → Adapter
set_live bits y = record y { bundles = λ i. if i == y.test_live then bits else y.bundles i }

module _ (mem_arena_size : ℕ) (ctz : ℕ → ℕ) (popcount_region : List ℕ → ℕ → Option ℕ)
    (sizeof_pool sizeof_bitarray : ℕ) (a : BlocksApi) where
  abbrev live_pool : Adapter → Pool
  live_pool y = test_pool mem_arena_size ctz popcount_region sizeof_pool sizeof_bitarray y.test_live

  -- The size asked for is not used.
  unfoldable pub mem_allocator_alloc : ℕ → Adapter → Adapter × Option ℕ
  mem_allocator_alloc bytes y =
      let (bits, pieces) = a.sys_mem_blocks_alloc (live_pool y) 1 (y.bundles y.test_live) in
      (set_live bits y, first_piece pieces)

  unfoldable pub mem_allocator_free : ℕ → Adapter → Adapter
  mem_allocator_free allocation y =
      set_live (a.sys_mem_blocks_free (live_pool y) (allocation ∷ []) (y.bundles y.test_live)) y

  unfoldable pub mem_allocator_alloc_n : ℕ → Adapter → Adapter × Bool
  mem_allocator_alloc_n count y =
      let (bits, pieces) = a.sys_mem_blocks_alloc (live_pool y) count (y.bundles y.test_live) in
      (set_live bits y, is_given pieces)

  abbrev pub mem_allocator_create_is_native : Bool
  mem_allocator_create_is_native = false

  abbrev pub mem_allocator_is_fixed_size : Bool
  mem_allocator_is_fixed_size = true

  abbrev pub mem_allocator_supports_alloc_n : Bool
  mem_allocator_supports_alloc_n = true

  -- `n` single allocations.
  unfoldable pub one_by_one : ℕ → ℕ → Adapter → Adapter
  unfolding mem_allocator_alloc
  one_by_one bytes zero y = y
  one_by_one bytes (suc n) y = (mem_allocator_alloc bytes (one_by_one bytes n y)).0

  module _ (doc : BlocksDoc popcount_region a) (bytes c : ℕ) (y : Adapter)
      (counted : popcount_region (y.bundles y.test_live) (live_pool y).num_blocks ≡ some c) where
    one_by_one-test_live : (n : ℕ) → (one_by_one bytes n y).test_live ≡ y.test_live
    unfolding one_by_one mem_allocator_alloc
    one_by_one-test_live zero = refl
    one_by_one-test_live (suc n) = one_by_one-test_live n

    abbrev bits_after : ℕ → List ℕ
    bits_after n = (one_by_one bytes n y).bundles y.test_live

    abbrev used_after : Adapter → ℕ
    used_after z =
        mem_allocator_used_bytes mem_arena_size ctz popcount_region sizeof_pool sizeof_bitarray z

    -- A single allocation on the bitmap.
    bits_after-suc :
        (n : ℕ) → bits_after (suc n) ≡ (a.sys_mem_blocks_alloc (live_pool y) 1 (bits_after n)).0
    unfolding one_by_one mem_allocator_alloc
    bits_after-suc n = rw (one_by_one-test_live n) (ground arith)

    bits_after-length : (n : ℕ) → length (bits_after n) ≡ length (y.bundles y.test_live)
    unfolding one_by_one
    bits_after-length zero = refl
    bits_after-length (suc n) =
        ap length (bits_after-suc n)
        ∙ doc.alloc_length (live_pool y) 1 (bits_after n)
        ∙ bits_after-length n

    bits_after-popcount :
        (n : ℕ)
        → c + n ≤ (live_pool y).num_blocks
        → popcount_region (bits_after n) (live_pool y).num_blocks ≡ some (c + n)
    unfolding one_by_one
    bits_after-popcount zero l = let e : c + 0 ≡ c = omega arith in rw e counted
    bits_after-popcount (suc n) l =
        let e : c + suc n ≡ (c + n) + 1 = omega arith in
        rw e (
          ap (λ b. popcount_region b (live_pool y).num_blocks) (bits_after-suc n)
          ∙ doc.alloc_sets (live_pool y) 1 (c + n) (bits_after n)
              (bits_after-popcount n (omega arith)) (omega arith))

    -- The space in use, from the count of bits, the length of the bitmap and the index of the pool.
    abbrev used_of : Option ℕ → ℕ → ℕ → ℕ
    used_of none len live = 0
    used_of (some count) len live =
        ((count * 2 ^ (3 + live)) % 2 ^ 32 + (sizeof_pool + sizeof_bitarray + len * 4) % 2 ^ 32)
        % 2 ^ 32

    used_after-used_of :
        (z : Adapter)
        → used_after z
          ≡ used_of
              (popcount_region (z.bundles z.test_live) (live_pool z).num_blocks)
              (length (z.bundles z.test_live))
              z.test_live
    unfolding mem_allocator_used_bytes mem_allocator_fixed_bytes
    used_after-used_of z =
        elim (popcount_region (z.bundles z.test_live) (live_pool z).num_blocks)
          as (λ r.
            elim r [
              | none ↦ 0
              | some count ↦
                  ((count * 2 ^ (3 + z.test_live)) % 2 ^ 32
                    + (sizeof_pool + sizeof_bitarray + length (z.bundles z.test_live) * 4) % 2 ^ 32)
                  % 2 ^ 32
            ]
            ≡ used_of r (length (z.bundles z.test_live)) z.test_live) [
              | none ↦ refl
              | some count ↦ refl
            ]

    -- The space in use is read off the count of bits and the length of the bitmap.
    used_after-same :
        (z w : Adapter) (k : ℕ)
        → z.test_live ≡ w.test_live
        → popcount_region (z.bundles z.test_live) (live_pool z).num_blocks ≡ some k
        → popcount_region (w.bundles w.test_live) (live_pool w).num_blocks ≡ some k
        → length (z.bundles z.test_live) ≡ length (w.bundles w.test_live)
        → used_after z ≡ used_after w
    used_after-same z w k e p q l =
        used_after-used_of z
        ∙ (λ i. used_of (p i) (l i) (e i))
        ∙ ap (λ r. used_of r (length (w.bundles w.test_live)) w.test_live) (sym q)
        ∙ sym (used_after-used_of w)

    -- Where the live pool has room for `n` pieces more, mem_allocator_alloc_n() of `n` pieces succeeds, and leaves the
    -- same reported space in use as `n` single allocations.
    pub alloc_n-one_by_one :
        (n : ℕ)
        → c + n ≤ (live_pool y).num_blocks
        → ((mem_allocator_alloc_n n y).1 ≡ true)
          × (used_after (mem_allocator_alloc_n n y).0 ≡ used_after (one_by_one bytes n y))
    unfolding mem_allocator_alloc_n
    alloc_n-one_by_one n l =
        let bits = y.bundles y.test_live in
        let given = doc.alloc_gives (live_pool y) n c bits counted l in
        let r = a.sys_mem_blocks_alloc (live_pool y) n bits in
        let t = one_by_one-test_live n in
        let same : (set_live r.0 y).bundles y.test_live ≡ r.0 = ground arith in
        (
          is_given-none r.1 given,
          used_after-same (set_live r.0 y) (one_by_one bytes n y) (c + n) (sym t)
              (ap (λ b. popcount_region b (live_pool y).num_blocks) same
                ∙ doc.alloc_sets (live_pool y) n c bits counted l)
              (rw t (bits_after-popcount n l))
              (ap length same
                ∙ doc.alloc_length (live_pool y) n bits
                ∙ rw t (sym (bits_after-length n))),
        )
