-- ===== src/Mem/Requests.antt =====
-- The adapter src/mem/mem_slab/mem_slab.c under any sequence of allocations and frees.
use zephyr_kernel_bm_tuc_hms.Prelude.{
  ℕ, zero, suc, ◌+◌, ◌*◌, ◌-◌, ◌/◌, ◌%◌, ◌^◌, ◌<◌, ◌≤◌, ◌≡◌, ◌≢◌, refl, ap, ◌∙◌, arith, true, false,
  List, [], ◌∷◌, length, Option, none, some, ltb,
}
use zephyr_kernel_bm_tuc_hms.Mem.Blocks.{covers}
use zephyr_kernel_bm_tuc_hms.Mem.Slab.{
  SlabApi, SlabDoc, ms_pieces, mem_allocator_create_arena, mem_allocator_alloc, mem_allocator_free,
  mem_allocator_fixed_bytes, mem_allocator_arena_bytes, mem_allocator_used_bytes,
}

-- An allocation of so many bytes, or the free of a piece that is out: its place, the last allocated first.
pub data SlabRequest : Type 0 where
  takes : ℕ → SlabRequest
  gives_back : ℕ → SlabRequest

-- The slab and the pieces that are out.
abbrev pub Held : Type 0 → Type 0
Held S = S × List ℕ

abbrev piece_at : ℕ → List ℕ → Option ℕ
piece_at i [] = none
piece_at zero (p ∷ ps) = some p
piece_at (suc i) (p ∷ ps) = piece_at i ps

abbrev without : ℕ → List ℕ → List ℕ
without i [] = []
without zero (p ∷ ps) = ps
without (suc i) (p ∷ ps) = p ∷ without i ps

length-without :
    (i : ℕ) (ps : List ℕ) (p : ℕ)
    → piece_at i ps ≡ some p
    → (0 < length ps) × (length (without i ps) ≡ length ps - 1)
length-without i [] p e = absurd (ground arith)
length-without zero (q ∷ ps) p e = (omega arith, omega arith)
length-without (suc i) (q ∷ ps) p e =
    let (l, h) = length-without i ps p e in (omega arith, omega (arith, l, h))

abbrev handed : {S : Type 0} → S × Option ℕ → List ℕ → Held S
handed (s, none) out = (s, out)
handed (s, some p) out = (s, p ∷ out)

module _ (mem_arena_size : ℕ) (ctz : ℕ → ℕ) (sizeof_slab : ℕ) {S : Type 0} (a : SlabApi S) where
  abbrev taken_back : ℕ → S → List ℕ → Option ℕ → Held S
  taken_back i s out none = (s, out)
  taken_back i s out (some p) =
      (mem_allocator_free mem_arena_size ctz sizeof_slab a p s, without i out)

  -- What a sequence of requests leaves, the first of them at the head.
  unfoldable pub requested : List SlabRequest → Held S → Held S
  requested [] y = y
  requested (takes bytes ∷ rs) (s, out) =
      requested rs (handed (mem_allocator_alloc mem_arena_size ctz sizeof_slab a bytes s) out)
  requested (gives_back i ∷ rs) (s, out) = requested rs (taken_back i s out (piece_at i out))

  record Laid (n g : ℕ) (y : Held S) : Type 0 where
    blocks : a.num_blocks y.0 ≡ n
    size : a.block_size y.0 ≡ g
    used : a.num_used y.0 ≡ length y.1
    within : length y.1 ≤ n

  handed-Laid :
      (n g : ℕ) (r : S × Option ℕ) (out : List ℕ)
      → a.num_blocks r.0 ≡ n
      → a.block_size r.0 ≡ g
      → a.num_used r.0 ≡ suc (length out)
      → suc (length out) ≤ n
      → r.1 ≢ none
      → Laid n g (handed r out)
  handed-Laid n g (s, none) out b z u l h = absurd (h refl)
  handed-Laid n g (s, some p) out b z u l h = record { blocks = b; size = z; used = u; within = l }

  module _ (doc : SlabDoc a) (n g : ℕ) where
    takes-Laid :
        (s : S) (out : List ℕ) → Laid n g (s, out) → Laid n g (handed (a.k_mem_slab_alloc s) out)
    takes-Laid s out h =
        let b = h.blocks in
        let u = h.used in
        let w = h.within in
        elim (ltb (a.num_used s) (a.num_blocks s))
            as (λ t.
              ltb (a.num_used s) (a.num_blocks s) ≡ t
              → Laid n g (handed (a.k_mem_slab_alloc s) out)) [
                | true ↦ λ e.
                    let l : a.num_used s < a.num_blocks s = ground arith in
                    handed-Laid n g (a.k_mem_slab_alloc s) out (doc.alloc_blocks s ∙ b)
                      (doc.alloc_size s ∙ h.size) (doc.alloc_used s l ∙ ap (λ (m : ℕ). suc m) u)
                      (omega (arith, l, b, u)) (doc.alloc_gives s l)
                | false ↦ λ e.
                    let l : a.num_used s ≡ a.num_blocks s = ground arith in
                    rw (doc.alloc_full s l) h
              ]
          refl

    gives_back-Laid :
        (i : ℕ) (s : S) (out : List ℕ) (r : Option ℕ)
        → piece_at i out ≡ r
        → Laid n g (s, out)
        → Laid n g (taken_back i s out r)
    unfolding mem_allocator_free
    gives_back-Laid i s out none e h = h
    gives_back-Laid i s out (some p) e h =
        let (l, d) = length-without i out p e in
        let u = h.used in
        let w = h.within in
        record {
          blocks = doc.free_blocks p s ∙ h.blocks;
          size = doc.free_size p s ∙ h.size;
          used = doc.free_used p s (omega (arith, l, u)) ∙ omega (arith, d, u);
          within = omega (arith, d, w);
        }

    requested-Laid : (rs : List SlabRequest) (y : Held S) → Laid n g y → Laid n g (requested rs y)
    unfolding requested mem_allocator_alloc
    requested-Laid [] y h = h
    requested-Laid (takes bytes ∷ rs) (s, out) h =
        requested-Laid rs (handed (a.k_mem_slab_alloc s) out) (takes-Laid s out h)
    requested-Laid (gives_back i ∷ rs) (s, out) h =
        requested-Laid rs (taken_back i s out (piece_at i out))
          (gives_back-Laid i s out (piece_at i out) refl h)

  -- At each step of the sweep, in an arena of a multiple of 1,024 bytes below 4 GiB, after any sequence of
  -- allocations, those that find the arena full included, and of frees of pieces that are out: the
  -- space in use is that of the pieces that are out and the fixed cost, as a size_t, they are no more
  -- than the arena holds, and the arena is still reported in full.
  pub requested-used_bytes :
      (doc : SlabDoc a) (q : ℕ)
      → mem_arena_size ≡ 1024 * q
      → mem_arena_size < 2 ^ 32
      → ((i : ℕ) → i < 8 → ctz (2 ^ (3 + i)) ≡ 3 + i)
      → (i : ℕ) (rs : List SlabRequest) (s : S) → i < 8
      → let g = 2 ^ (3 + i) in
        let y =
          requested rs (mem_allocator_create_arena mem_arena_size ctz sizeof_slab a g s, []) in
        (mem_allocator_used_bytes mem_arena_size ctz sizeof_slab a y.0
          ≡ (length y.1 * g + mem_allocator_fixed_bytes mem_arena_size ctz sizeof_slab a) % 2 ^ 32)
        × (length y.1 ≤ ms_pieces mem_arena_size ctz sizeof_slab a g)
        × (mem_allocator_arena_bytes mem_arena_size ctz sizeof_slab a y.0 ≡ mem_arena_size)
  unfolding mem_allocator_arena_bytes mem_allocator_used_bytes mem_allocator_create_arena
  requested-used_bytes doc q e l trailing i rs s h =
      let g = 2 ^ (3 + i) in
      let n = ms_pieces mem_arena_size ctz sizeof_slab a g in
      let first : Laid n g (a.k_mem_slab_init g n s, []) = record {
        blocks = doc.init_blocks g n s;
        size = doc.init_size g n s;
        used = doc.init_used g n s;
        within = omega arith;
      } in
      let y = requested rs (a.k_mem_slab_init g n s, []) in
      let z = requested-Laid doc n g rs (a.k_mem_slab_init g n s, []) first in
      let covered : (n * g) % 2 ^ 32 ≡ mem_arena_size =
        ap (λ (k : ℕ). ((mem_arena_size / 2 ^ k) * g) % 2 ^ 32) (trailing i h)
        ∙ covers mem_arena_size ctz (λ r n. none) 0 0 q e l i (omega arith) h in
      (
        (λ j. ((z.used j * z.size j) % 2 ^ 32 + sizeof_slab) % 2 ^ 32) ∙ omega arith,
        z.within,
        (λ j. (z.blocks j * z.size j) % 2 ^ 32) ∙ covered,
      )
