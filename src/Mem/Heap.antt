-- ===== src/Mem/Heap.antt =====
-- The space readers of src/mem/mem_zephyr_heap.h. What lib/heap/heap.h of Zephyr gives them is a
-- parameter; a size_t has 32 bits.
use zephyr_kernel_bm_tuc_hms.Prelude.{
  ℕ, zero, suc, ◌+◌, ◌*◌, ◌^◌, ◌%◌, ◌<◌, ◌≤◌, ◌≡◌, ap, refl, ◌∙◌, arith, Bool, true, false, List,
  [], ◌∷◌, Option, none, some, length, ltb, if◌then◌else◌,
}

-- `struct z_heap` and the readers of its chunks.
pub record Heap : Type 0 where
  pub end_chunk : ℕ
  pub right_chunk : ℕ → ℕ
  pub chunk_used : ℕ → Bool
  pub chunk_size : ℕ → ℕ

module _ (chunk_unit : ℕ) where
  abbrev chunk_bytes : Heap → ℕ → ℕ
  chunk_bytes h c = if h.chunk_used c then (h.chunk_size c * chunk_unit) % 2 ^ 32 else 0

  -- The walk from chunk `c`; `none` where the fuel does not last.
  unfoldable pub walk : Heap → ℕ → ℕ → ℕ → Option ℕ
  walk h zero c total = none
  walk h (suc fuel) c total =
      let rest = walk h fuel (h.right_chunk c) ((total + chunk_bytes h c) % 2 ^ 32) in
      if ltb c h.end_chunk then rest else some total

  -- A null heap, or the walk from chunk 0.
  unfoldable pub mem_zephyr_heap_used_bytes : Option Heap → ℕ → Option ℕ
  mem_zephyr_heap_used_bytes none fuel = some 0
  mem_zephyr_heap_used_bytes (some h) fuel = walk h fuel 0 0

  -- From chunk `c` on, the heap has exactly the listed chunks.
  abbrev pub IsLaidOut : Heap → ℕ → List ℕ → Type 0
  IsLaidOut h c [] = h.end_chunk ≤ c
  IsLaidOut h c (d ∷ ds) = (d ≡ c) × (c < h.end_chunk) × IsLaidOut h (h.right_chunk c) ds

  abbrev pub used_sum : Heap → List ℕ → ℕ
  used_sum h [] = 0
  used_sum h (d ∷ ds) = (if h.chunk_used d then h.chunk_size d * chunk_unit else 0) + used_sum h ds

  walk-used_sum :
      (h : Heap) (ds : List ℕ) (c total fuel : ℕ)
      → IsLaidOut h c ds
      → total + used_sum h ds < 2 ^ 32
      → length ds < fuel
      → walk h fuel c total ≡ some (total + used_sum h ds)
  unfolding walk
  walk-used_sum h ds c total zero l b g = absurd (omega arith)
  walk-used_sum h [] c total (suc fuel) l b g = ground arith
  walk-used_sum h (d ∷ ds) c total (suc fuel) (e, m, l) b g =
      ground
        (arith, walk-used_sum h ds (h.right_chunk c) ((total + chunk_bytes h c) % 2 ^ 32) fuel l)

  -- The chunks that a walk passes, and their sum.
  abbrev LaidOut : Heap → ℕ → ℕ → ℕ → Type 0
  LaidOut h c total fuel =
      (ds : List ℕ) × IsLaidOut h c ds
      × (walk h fuel c total ≡ some ((total + used_sum h ds) % 2 ^ 32))

  walk-step :
      (h : Heap) (c total fuel : ℕ) (ds : List ℕ)
      → c < h.end_chunk
      → walk h fuel (h.right_chunk c) ((total + chunk_bytes h c) % 2 ^ 32)
        ≡ some (((total + chunk_bytes h c) % 2 ^ 32 + used_sum h ds) % 2 ^ 32)
      → walk h (suc fuel) c total ≡ some ((total + used_sum h (c ∷ ds)) % 2 ^ 32)
  unfolding walk
  walk-step h c total fuel ds l e = ground arith

  walk-LaidOut :
      (h : Heap) (grows : (c : ℕ) → c < h.end_chunk → c < h.right_chunk c) (fuel c total : ℕ)
      → h.end_chunk < c + fuel
      → total < 2 ^ 32
      → 0 < fuel
      → LaidOut h c total fuel
  unfolding walk
  walk-LaidOut h grows zero c total l b p = absurd (omega arith)
  walk-LaidOut h grows (suc fuel) c total l b p =
      elim (ltb c h.end_chunk) as (λ t. ltb c h.end_chunk ≡ t → LaidOut h c total (suc fuel)) [
        | true ↦ λ e.
            let m : c < h.end_chunk = ground arith in
            let g = grows c m in
            let (ds, laid, sum) =
              walk-LaidOut h grows fuel (h.right_chunk c) ((total + chunk_bytes h c) % 2 ^ 32)
                (omega (arith, g)) (omega arith) (omega (arith, m, l)) in
            (c ∷ ds, (refl, m, laid), walk-step h c total fuel ds m sum)
        | false ↦ λ e. let m : h.end_chunk ≤ c = ground arith in ([], m, ground arith)
      ]
        refl

  -- Where the heap has exactly the listed chunks, in the order of the walk, and the used ones fit in a
  -- size_t together, the walk returns the bytes of the used chunks, with any fuel above the number of
  -- chunks.
  pub mem_zephyr_heap_used_bytes-used_sum :
      (h : Heap) (ds : List ℕ) (fuel : ℕ)
      → IsLaidOut h 0 ds
      → used_sum h ds < 2 ^ 32
      → length ds < fuel
      → mem_zephyr_heap_used_bytes (some h) fuel ≡ some (used_sum h ds)
  unfolding mem_zephyr_heap_used_bytes
  mem_zephyr_heap_used_bytes-used_sum h ds fuel l b g =
      let e : 0 + used_sum h ds ≡ used_sum h ds = omega arith in
      rw e at (walk-used_sum h ds 0 0 fuel l (omega arith) g)

  -- Where every chunk in front of the end chunk has its right neighbour after it, the walk ends: with
  -- more fuel than the number of the end chunk it returns the bytes of exactly the used chunks of the
  -- heap's layout, as a size_t, whatever their sum.
  pub mem_zephyr_heap_used_bytes-ends :
      (h : Heap) (grows : (c : ℕ) → c < h.end_chunk → c < h.right_chunk c) (fuel : ℕ)
      → h.end_chunk < fuel
      → (ds : List ℕ) × IsLaidOut h 0 ds
        × (mem_zephyr_heap_used_bytes (some h) fuel ≡ some (used_sum h ds % 2 ^ 32))
  unfolding mem_zephyr_heap_used_bytes
  mem_zephyr_heap_used_bytes-ends h grows fuel l =
      let (ds, laid, sum) =
        walk-LaidOut h grows fuel 0 0 (omega arith) (omega arith) (omega arith) in
      let e : 0 + used_sum h ds ≡ used_sum h ds = omega arith in
      (ds, laid, sum ∙ ap (λ (x : ℕ). some (x % 2 ^ 32)) e)
