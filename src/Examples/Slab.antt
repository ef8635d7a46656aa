-- ===== src/Examples/Slab.antt =====
-- The theorems on src/mem/mem_slab at a concrete slab.
use zephyr_kernel_bm_tuc_hms.Prelude.{
  List, [], ◌∷◌, length, ◌*◌, ◌%◌, ◌≤◌, ℕ, suc, ◌+◌, ◌-◌, ◌^◌, ◌<◌, ◌≡◌, refl, arith, Option, none,
  some, ltb, if◌then◌else◌,
}
use zephyr_kernel_bm_tuc_hms.Itc.Async.{below_nine}
use zephyr_kernel_bm_tuc_hms.Mem.Slab.{
  SlabApi, SlabDoc, mem_allocator_create_arena, mem_allocator_alloc, mem_allocator_arena_bytes,
  mem_allocator_used_bytes, filled, mem_slab-full, ms_pieces,
}
use zephyr_kernel_bm_tuc_hms.Mem.Requests.{
  SlabRequest, takes, gives_back, requested, requested-used_bytes,
}
use zephyr_kernel_bm_tuc_hms.Examples.Mem.{trailing_zeros}

-- A slab as its three numbers; the address of a piece is its index.
abbrev Slab : Type 0
Slab = ℕ × ℕ × ℕ

abbrev slab_alloc : Slab → Slab × Option ℕ
slab_alloc (n, size, used) =
    if ltb used n then ((n, size, suc used), some used) else ((n, size, used), none)

abbrev counted_slab : SlabApi Slab
counted_slab = record {
  k_mem_slab_init = λ size n s. (n, size, 0);
  k_mem_slab_alloc = slab_alloc;
  k_mem_slab_free = λ p s. (s.0, s.1, s.2 - 1);
  num_blocks = λ s. s.0;
  block_size = λ s. s.1;
  num_used = λ s. s.2;
}

counted_slab-SlabDoc : SlabDoc counted_slab
counted_slab-SlabDoc = record {
  init_blocks = λ size n s. refl;
  init_size = λ size n s. refl;
  init_used = λ size n s. refl;
  alloc_gives = λ (n, size, used) l. ground arith;
  alloc_used = λ (n, size, used) l. ground arith;
  alloc_blocks = λ (n, size, used). ground arith;
  alloc_size = λ (n, size, used). ground arith;
  alloc_full = λ (n, size, used) e. ground arith;
  free_used = λ p s l. refl;
  free_blocks = λ p s. refl;
  free_size = λ p s. refl;
}

trailing : (i : ℕ) → i < 8 → trailing_zeros 32 (2 ^ (3 + i)) ≡ 3 + i
trailing i l =
    below_nine (λ i. i < 8 → trailing_zeros 32 (2 ^ (3 + i)) ≡ 3 + i) (λ _. refl) (λ _. refl)
      (λ _. refl) (λ _. refl) (λ _. refl) (λ _. refl) (λ _. refl) (λ _. refl)
      (λ m. absurd (omega arith)) i (omega arith) l

mem_slab-full_example :
    let full =
      filled 8192
        (λ g. trailing_zeros 32 g)
        40
        counted_slab
        32
        256
        (mem_allocator_create_arena 8192
          (λ g. trailing_zeros 32 g)
          40
          counted_slab
          (2 ^ 5)
          (1, 1, 1)) in
    (mem_allocator_arena_bytes 8192 (λ g. trailing_zeros 32 g) 40 counted_slab full ≡ 8192)
    × (mem_allocator_used_bytes 8192 (λ g. trailing_zeros 32 g) 40 counted_slab full ≡ 8232)
    × (mem_allocator_alloc 8192 (λ g. trailing_zeros 32 g) 40 counted_slab 32 full ≡ (full, none))
mem_slab-full_example =
    mem_slab-full 8192 (λ g. trailing_zeros 32 g) 40 counted_slab counted_slab-SlabDoc 8 refl
      (omega arith) trailing 2 32 (1, 1, 1) (omega arith)

-- Of three pieces, the second is given back, and another one allocated.
abbrev requests : List SlabRequest
requests = takes 32 ∷ takes 32 ∷ takes 32 ∷ gives_back 1 ∷ takes 32 ∷ []

requested-used_bytes_example :
    let g = 2 ^ (3 + 2) in
    let ctz = λ (g : ℕ). trailing_zeros 32 g in
    let y =
      requested 8192 ctz 40 counted_slab requests
        (mem_allocator_create_arena 8192 ctz 40 counted_slab g (1, 1, 1), []) in
    (mem_allocator_used_bytes 8192 ctz 40 counted_slab y.0 ≡ (length y.1 * g + 40) % 2 ^ 32)
    × (length y.1 ≤ ms_pieces 8192 ctz 40 counted_slab g)
    × (mem_allocator_arena_bytes 8192 ctz 40 counted_slab y.0 ≡ 8192)
requested-used_bytes_example =
    requested-used_bytes 8192 (λ g. trailing_zeros 32 g) 40 counted_slab counted_slab-SlabDoc 8 refl
      (omega arith) trailing 2 requests (1, 1, 1) (omega arith)
