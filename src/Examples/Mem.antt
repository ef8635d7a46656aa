-- ===== src/Examples/Mem.antt =====
-- The theorems on src/mem at a concrete heap and pool.
use zephyr_kernel_bm_tuc_hms.Prelude.{
  ltb, ℕ, zero, suc, ◌+◌, ◌/◌, ◌%◌, ◌^◌, ◌≡◌, ◌≤◌, refl, ap, arith, List, [], ◌∷◌, none, some, ◌==◌,
  if◌then◌else◌,
}
use zephyr_kernel_bm_tuc_hms.Mem.Heap.{
  Heap, IsLaidOut, used_sum, mem_zephyr_heap_used_bytes, mem_zephyr_heap_used_bytes-ends,
}
use zephyr_kernel_bm_tuc_hms.Mem.HeapAdapters.{
  HeapApi, mem_allocator_used_bytes, mem_allocator_fixed_bytes, used_bytes-fixed_bytes,
}
use zephyr_kernel_bm_tuc_hms.Mem.Blocks.{
  Adapter, zeroed, mem_allocator_create_arena, ArenaReady, mem_allocator_create_arena-ArenaReady,
}

-- Three chunks of one unit each, the first in use.
abbrev small_heap : Heap
small_heap = record {
  end_chunk = 3;
  right_chunk = λ c. c + 1;
  chunk_used = λ c. c == 0;
  chunk_size = λ c. 1;
}

abbrev small_api : HeapApi ℕ
small_api = record {
  heap_init = λ n s. n;
  heap_alloc = λ n s. (s, none);
  heap_free = λ p s. s;
  init_bytes = λ s. s;
  heap = λ s. some small_heap;
}

used_bytes-fixed_bytes_example :
    (mem_allocator_used_bytes 64 8 small_api 64 10 ≡ some 8)
    × (mem_allocator_fixed_bytes 64 8 small_api 64 ≤ 8)
used_bytes-fixed_bytes_example =
    used_bytes-fixed_bytes 64 8 small_api 64 small_heap (1 ∷ 2 ∷ []) 10 refl (omega arith) refl
      (omega arith) (omega arith)

-- The end chunk is its own right neighbour.
abbrev closed_heap : Heap
closed_heap = record small_heap { right_chunk = λ c. if ltb c 3 then c + 1 else c }

mem_zephyr_heap_used_bytes-ends_example :
    (ds : List ℕ) × IsLaidOut 8 closed_heap 0 ds
    × (mem_zephyr_heap_used_bytes 8 (some closed_heap) 4
        ≡ some (used_sum 8 closed_heap ds % 2 ^ 32))
mem_zephyr_heap_used_bytes-ends_example =
    mem_zephyr_heap_used_bytes-ends 8 closed_heap (λ c l. ground arith) 4 (omega arith)

abbrev pub trailing_zeros : ℕ → ℕ → ℕ
trailing_zeros zero n = 0
trailing_zeros (suc fuel) n =
    let rest = trailing_zeros fuel (n / 2) in if n % 2 == 0 then suc rest else 0

abbrev sum : List ℕ → ℕ
sum [] = 0
sum (x ∷ xs) = x + sum xs

sum-zeroed : (l : List ℕ) → sum (zeroed l) ≡ 0
sum-zeroed [] = refl
sum-zeroed (x ∷ l) = omega (arith, sum-zeroed l)

abbrev worn : Adapter
worn = record { test_live = 0; bundles = λ i. 7 ∷ i ∷ [] }

mem_allocator_create_arena-ArenaReady_example :
    ArenaReady 8192
      (λ g. trailing_zeros 32 g)
      (λ l n. some (sum l))
      40
      12
      2
      worn
      (mem_allocator_create_arena 8192
        (λ g. trailing_zeros 32 g)
        (λ l n. some (sum l))
        40
        12
        (2 ^ (3 + 2))
        worn)
mem_allocator_create_arena-ArenaReady_example =
    mem_allocator_create_arena-ArenaReady 8192 (λ g. trailing_zeros 32 g) (λ l n. some (sum l)) 40
      12 8 refl (omega arith) (λ l n. ap some (sum-zeroed l)) 2 (omega arith) refl worn
