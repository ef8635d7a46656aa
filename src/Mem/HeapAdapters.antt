-- ===== src/Mem/HeapAdapters.antt =====
-- The adapters src/mem/k_heap/k_heap.c, src/mem/k_malloc/k_malloc.c and src/mem/sys_heap/sys_heap.c, and
-- the other two readers of src/mem/mem_zephyr_heap.h. Zephyr's heaps are parameters; MEM_ARENA_SIZE
-- comes from the harness.
use zephyr_kernel_bm_tuc_hms.Prelude.{
  ℕ, ◌*◌, ◌^◌, ◌%◌, ◌<◌, ◌≤◌, ◌≡◌, refl, ◌∙◌, arith, Bool, true, false, List, [], ◌∷◌, Option, none,
  some, length,
}
use zephyr_kernel_bm_tuc_hms.Mem.Heap.{
  Heap, IsLaidOut, used_sum, mem_zephyr_heap_used_bytes, mem_zephyr_heap_used_bytes-used_sum,
}

-- What the adapters call of a heap: k_heap_init(), k_heap_alloc() with K_NO_WAIT and k_heap_free();
-- k_heap_init() of _system_heap, k_malloc() and k_free(); sys_heap_init(), sys_heap_alloc() and
-- sys_heap_free(). `init_bytes` and `heap` are those of the struct sys_heap.
pub record HeapApi (S : Type 0) : Type 0 where
  pub heap_init : ℕ → S → S  -- over so many bytes
  pub heap_alloc : ℕ → S → S × Option ℕ
  pub heap_free : ℕ → S → S
  pub init_bytes : S → ℕ
  pub heap : S → Option Heap

-- The hypothesis on Zephyr: the heap records the bytes it was given, and hands none of them over later.
pub record HeapDoc {S : Type 0} (a : HeapApi S) : Type 0 where
  pub init_records : (n : ℕ) (s : S) → a.init_bytes (a.heap_init n s) ≡ n
  pub alloc_keeps : (n : ℕ) (s : S) → a.init_bytes ((a.heap_alloc n s).0) ≡ a.init_bytes s
  pub free_keeps : (p : ℕ) (s : S) → a.init_bytes (a.heap_free p s) ≡ a.init_bytes s

-- Which of the three files.
pub data HeapFile : Type 0 where
  k_heap : HeapFile
  k_malloc : HeapFile
  sys_heap : HeapFile

-- A call of the harness.
pub data Request : Type 0 where
  allocates : ℕ → Request
  frees : ℕ → Request

module _ (mem_arena_size chunk_unit : ℕ) {S : Type 0} (a : HeapApi S) where
  unfoldable pub mem_zephyr_heap_fixed_bytes : Option Heap → ℕ
  mem_zephyr_heap_fixed_bytes none = 0
  mem_zephyr_heap_fixed_bytes (some h) = (h.chunk_size 0 * chunk_unit) % 2 ^ 32

  unfoldable pub mem_zephyr_heap_real_arena : S → ℕ
  mem_zephyr_heap_real_arena s = a.init_bytes s

  -- The granularity is not used; the system heap is laid out anew over the bytes it has.
  unfoldable pub mem_allocator_create_arena : HeapFile → ℕ → S → S
  mem_allocator_create_arena k_heap granularity s = a.heap_init mem_arena_size s
  mem_allocator_create_arena k_malloc granularity s = a.heap_init (a.init_bytes s) s
  mem_allocator_create_arena sys_heap granularity s = a.heap_init mem_arena_size s

  unfoldable pub mem_allocator_alloc : ℕ → S → S × Option ℕ
  mem_allocator_alloc bytes s = a.heap_alloc bytes s

  unfoldable pub mem_allocator_free : ℕ → S → S
  mem_allocator_free allocation s = a.heap_free allocation s

  unfoldable pub mem_allocator_arena_bytes : S → ℕ
  unfolding mem_zephyr_heap_real_arena
  mem_allocator_arena_bytes s = mem_zephyr_heap_real_arena s

  unfoldable pub mem_allocator_used_bytes : S → ℕ → Option ℕ
  mem_allocator_used_bytes s fuel = mem_zephyr_heap_used_bytes chunk_unit (a.heap s) fuel

  unfoldable pub mem_allocator_fixed_bytes : S → ℕ
  unfolding mem_zephyr_heap_fixed_bytes
  mem_allocator_fixed_bytes s = mem_zephyr_heap_fixed_bytes (a.heap s)

  abbrev pub mem_allocator_create_is_native : Bool
  mem_allocator_create_is_native = true

  abbrev pub mem_allocator_is_fixed_size : Bool
  mem_allocator_is_fixed_size = false

  abbrev pub mem_allocator_supports_alloc_n : Bool
  mem_allocator_supports_alloc_n = false

  abbrev pub mem_allocator_alloc_n : ℕ → S → S × Bool
  mem_allocator_alloc_n count s = (s, false)

  -- What a sequence of requests leaves, the first of them at the head.
  unfoldable pub served : List Request → S → S
  unfolding mem_allocator_alloc mem_allocator_free
  served [] s = s
  served (allocates n ∷ rs) s = served rs (mem_allocator_alloc n s).0
  served (frees p ∷ rs) s = served rs (mem_allocator_free p s)

  module _ (doc : HeapDoc a) where
    served-init_bytes : (rs : List Request) (s : S) → a.init_bytes (served rs s) ≡ a.init_bytes s
    unfolding served mem_allocator_alloc mem_allocator_free
    served-init_bytes [] s = refl
    served-init_bytes (allocates n ∷ rs) s =
        served-init_bytes rs ((a.heap_alloc n s).0) ∙ doc.alloc_keeps n s
    served-init_bytes (frees p ∷ rs) s = served-init_bytes rs (a.heap_free p s) ∙ doc.free_keeps p s

    -- The reported arena is the whole arena, MEM_ARENA_SIZE bytes where the adapter has an array of its own and the
    -- bytes of the system heap otherwise, whatever was allocated and freed since.
    pub served-arena_bytes :
        (f : HeapFile) (granularity : ℕ) (rs : List Request) (s : S)
        → (f ≡ k_malloc → a.init_bytes s ≡ mem_arena_size)
        → mem_allocator_arena_bytes (served rs (mem_allocator_create_arena f granularity s))
          ≡ mem_arena_size
    unfolding mem_allocator_arena_bytes mem_zephyr_heap_real_arena mem_allocator_create_arena
    served-arena_bytes k_heap granularity rs s h =
        served-init_bytes rs (a.heap_init mem_arena_size s) ∙ doc.init_records mem_arena_size s
    served-arena_bytes k_malloc granularity rs s h =
        served-init_bytes rs (a.heap_init (a.init_bytes s) s)
        ∙ doc.init_records (a.init_bytes s) s
        ∙ h refl
    served-arena_bytes sys_heap granularity rs s h =
        served-init_bytes rs (a.heap_init mem_arena_size s) ∙ doc.init_records mem_arena_size s

  -- Where the heap starts with its header, a used chunk, and its used chunks fit in a size_t together, the reported
  -- space in use is at least the reported fixed cost, with any fuel above the number of chunks.
  pub used_bytes-fixed_bytes :
      (s : S) (z : Heap) (ds : List ℕ) (fuel : ℕ)
      → a.heap s ≡ some z
      → IsLaidOut chunk_unit z 0 (0 ∷ ds)
      → z.chunk_used 0 ≡ true
      → used_sum chunk_unit z (0 ∷ ds) < 2 ^ 32
      → length (0 ∷ ds) < fuel
      → (mem_allocator_used_bytes s fuel ≡ some (used_sum chunk_unit z (0 ∷ ds)))
        × (mem_allocator_fixed_bytes s ≤ used_sum chunk_unit z (0 ∷ ds))
  unfolding mem_allocator_used_bytes mem_allocator_fixed_bytes mem_zephyr_heap_fixed_bytes
  used_bytes-fixed_bytes s z ds fuel e l u b g = (
    rw e (mem_zephyr_heap_used_bytes-used_sum chunk_unit z (0 ∷ ds) fuel l b g),
    rw e (ground arith),
  )
