-- ===== src/Examples/Blocks.antt =====
-- The theorem on the allocation calls of src/mem/mem_blocks at a concrete pool.
use zephyr_kernel_bm_tuc_hms.Prelude.{
  ℕ, ◌+◌, ◌≡◌, refl, arith, true, List, [], ◌∷◌, Option, none, some, length,
}
use zephyr_kernel_bm_tuc_hms.Mem.Blocks.{Adapter, mem_allocator_used_bytes}
use zephyr_kernel_bm_tuc_hms.Mem.BlockCalls.{
  BlocksApi, BlocksDoc, mem_allocator_alloc_n, one_by_one, alloc_n-one_by_one,
}

-- A bitmap as the numbers of bits in its bundles; one without bundles has no region to count.
abbrev bits_in : List ℕ → ℕ
bits_in [] = 0
bits_in (x ∷ xs) = x + bits_in xs

abbrev counted_bits : List ℕ → ℕ → Option ℕ
counted_bits [] n = none
counted_bits (x ∷ xs) n = some (x + bits_in xs)

abbrev taking : ℕ → List ℕ → List ℕ
taking n [] = []
taking n (x ∷ xs) = (x + n) ∷ xs

-- Every call is served.
abbrev generous : BlocksApi
generous = record {
  sys_mem_blocks_alloc = λ p n bits. (taking n bits, some (n ∷ []));
  sys_mem_blocks_free = λ p ps bits. bits;
}

taking-counted_bits :
    (n c m : ℕ) (bits : List ℕ)
    → counted_bits bits m ≡ some c
    → counted_bits (taking n bits) m ≡ some (c + n)
taking-counted_bits n c m [] h = absurd (ground arith)
taking-counted_bits n c m (x ∷ xs) h = ground arith

length-taking : (n : ℕ) (bits : List ℕ) → length (taking n bits) ≡ length bits
length-taking n [] = refl
length-taking n (x ∷ xs) = refl

generous-BlocksDoc : BlocksDoc counted_bits generous
generous-BlocksDoc = record {
  alloc_sets = λ p n c bits h l. taking-counted_bits n c p.num_blocks bits h;
  alloc_gives = λ p n c bits h l e. absurd (ground arith);
  alloc_length = λ p n bits. length-taking n bits;
}

abbrev half_full : Adapter
half_full = record { test_live = 2; bundles = λ i. 3 ∷ 5 ∷ [] }

alloc_n-one_by_one_example :
    ((mem_allocator_alloc_n 8192 (λ g. g) counted_bits 40 12 generous 4 half_full).1 ≡ true)
    × (mem_allocator_used_bytes 8192
          (λ g. g)
          counted_bits
          40
          12
          (mem_allocator_alloc_n 8192 (λ g. g) counted_bits 40 12 generous 4 half_full).0
        ≡ mem_allocator_used_bytes 8192
            (λ g. g)
            counted_bits
            40
            12
            (one_by_one 8192 (λ g. g) counted_bits 40 12 generous 32 4 half_full))
alloc_n-one_by_one_example =
    alloc_n-one_by_one 8192 (λ g. g) counted_bits 40 12 generous generous-BlocksDoc 32 8 half_full
      refl 4 (omega arith)
