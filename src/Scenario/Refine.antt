-- ===== src/Scenario/Refine.antt =====
-- A run of the scenario threads over any kernel that does what is documented is the run over the
-- documented view of that kernel.
use zephyr_kernel_bm_tuc_hms.Prelude.{
  ℕ, zero, suc, ◌≡◌, refl, sym, ap, ◌∙◌, arith, true, false, [], ◌∷◌, Option, none, some, ◌<◌, leb,
  if◌then◌else◌,
}
use zephyr_kernel_bm_tuc_hms.Itc.Kernel.{Scheduler, SchedulerDoc}
use zephyr_kernel_bm_tuc_hms.Itc.Handover.{continue}
use zephyr_kernel_bm_tuc_hms.Scenario.Kernel.{
  Task, slot_1, slot_2, slot_3, slot_4, idle, Kernel, View, documented,
}
use zephyr_kernel_bm_tuc_hms.Scenario.Doc.{KernelDoc, map_option}
use zephyr_kernel_bm_tuc_hms.Scenario.Program.{
  Call, Program, Board, System, left, set_left, next_call, skip_calls, call, proceed, advance,
  tasks,
}
use zephyr_kernel_bm_tuc_hms.Scenario.Run.{steps, first_of, IsSorted, next-first_of}
pub use zephyr_kernel_bm_tuc_hms.Scenario.Refine.Calls.{viewed}
use zephyr_kernel_bm_tuc_hms.Scenario.Refine.Calls.{call-viewed}
mod Calls

map-first_of :
    {A B : Type 0} (f : A → B) (p q r s t : ℕ) (a b c d e : Option A)
    → map_option f (first_of ((p, a) ∷ (q, b) ∷ (r, c) ∷ (s, d) ∷ (t, e) ∷ []))
      ≡ first_of (
          (p, map_option f a)
          ∷ (q, map_option f b)
          ∷ (r, map_option f c)
          ∷ (s, map_option f d)
          ∷ (t, map_option f e)
          ∷ [])
map-first_of f p q r s t (some a) b c d e = refl
map-first_of f p q r s t none (some b) c d e = refl
map-first_of f p q r s t none none (some c) d e = refl
map-first_of f p q r s t none none none (some d) e = refl
map-first_of f p q r s t none none none none (some e) = refl
map-first_of f p q r s t none none none none none = refl

map-continue :
    {A B : Type 0} (f : A → B) (r : Option A) (g : A → Option A) (h : B → Option B)
    → ((a : A) → map_option f (g a) ≡ h (f a))
    → map_option f (continue r g) ≡ continue (map_option f r) h
map-continue f none g h e = refl
map-continue f (some a) g h e = e a

-- The priorities fall in this order; a larger number is a lower priority.
pub record Ranked (prio : Task → ℕ) : Type 0 where
  pub order_1 : prio slot_1 < prio slot_2
  pub order_2 : prio slot_2 < prio slot_3
  pub order_3 : prio slot_3 < prio slot_4
  pub order_4 : prio slot_4 < prio idle

Ranked-IsSorted :
    {A : Type 0} (prio : Task → ℕ)
    → Ranked prio
    → (a b c d e : Option A)
    → IsSorted (
        (prio slot_1, a)
        ∷ (prio slot_2, b)
        ∷ (prio slot_3, c)
        ∷ (prio slot_4, d)
        ∷ (prio idle, e)
        ∷ [])
Ranked-IsSorted prio r a b c d e =
    let e1 = r.order_1 in
    let e2 = r.order_2 in let e3 = r.order_3 in let e4 = r.order_4 in omega arith

-- The documented machine: the first thread that can go on does, on the documented kernel.
abbrev pub machine : Board → ℕ → (Task → ℕ) → System View → Option (System View)
machine b limit prio v = first_of (tasks b (documented limit) prio v)

module _ {S : Type 0} (b : Board) (limit : ℕ) (k : Kernel S) (view : S → View)
    (doc : KernelDoc k limit view) where
  proceed-viewed :
      (t : Task) (r : Option (Call × Program)) (y : System S)
      → map_option (viewed view) (proceed b k t r y)
        ≡ proceed b (documented limit) t r (viewed view y)
  proceed-viewed t none y = refl
  proceed-viewed t (some (c, p)) y =
      call-viewed b limit k view doc t c (record y { programs = set_left t p y.programs })

  advance-viewed :
      (t : Task) (y : System S)
      → map_option (viewed view) (advance b k t y) ≡ advance b (documented limit) t (viewed view y)
  advance-viewed t y =
      elim (k.can_run t y.kernel)
          as (λ r.
            r ≡ (documented limit).can_run t (view y.kernel)
            → map_option (viewed view)
                (if r then proceed b k t (next_call (left t y.programs)) y else none)
              ≡ advance b (documented limit) t (viewed view y)) [
                | true ↦ λ e. rw (sym e) (proceed-viewed t (next_call (left t y.programs)) y)
                | false ↦ λ e. rw (sym e) refl
              ]
        (doc.runnable t y.kernel)

  continue-viewed :
      (n : ℕ) (prio : Task → ℕ) (next : Scheduler (System S)) (r : Option (System S))
      → ((y : System S)
          → map_option (viewed view) (steps (λ y'. next (tasks b k prio y')) n y)
            ≡ steps (machine b limit prio) n (viewed view y))
      → map_option (viewed view) (continue r (λ y. steps (λ y'. next (tasks b k prio y')) n y))
        ≡ continue (map_option (viewed view) r) (λ v. steps (machine b limit prio) n v)
  continue-viewed n prio next r ih = map-continue (viewed view) r _ _ ih

  next-viewed :
      (prio : Task → ℕ) (ranked : Ranked prio) (next : Scheduler (System S))
      (rule : SchedulerDoc next) (y : System S)
      → map_option (viewed view) (next (tasks b k prio y)) ≡ machine b limit prio (viewed view y)
  next-viewed prio ranked next rule y =
      ap (map_option (viewed view)) (
        next-first_of next rule (tasks b k prio y) (
          Ranked-IsSorted prio ranked (advance b k slot_1 y) (advance b k slot_2 y)
            (advance b k slot_3 y) (advance b k slot_4 y) (advance b k idle y)))
      ∙ map-first_of (viewed view) (prio slot_1) (prio slot_2) (prio slot_3) (prio slot_4)
          (prio idle) (advance b k slot_1 y) (advance b k slot_2 y) (advance b k slot_3 y)
          (advance b k slot_4 y) (advance b k idle y)
      ∙ (λ i. first_of (
          (prio slot_1, advance-viewed slot_1 y i)
          ∷ (prio slot_2, advance-viewed slot_2 y i)
          ∷ (prio slot_3, advance-viewed slot_3 y i)
          ∷ (prio slot_4, advance-viewed slot_4 y i)
          ∷ (prio idle, advance-viewed idle y i)
          ∷ []))

  -- Over any kernel that does what is documented and under any scheduler that follows Zephyr's rule,
  -- a run of any number of calls of threads whose priorities fall from slot_1 to idle looks, through
  -- the view, like the run of the documented machine: it goes as far, and leaves the same programs,
  -- captures, signals and marks.
  pub steps-viewed :
      (prio : Task → ℕ) (ranked : Ranked prio) (next : Scheduler (System S))
      (rule : SchedulerDoc next) (n : ℕ) (y : System S)
      → map_option (viewed view) (steps (λ y'. next (tasks b k prio y')) n y)
        ≡ steps (machine b limit prio) n (viewed view y)
  unfolding steps
  steps-viewed prio ranked next rule zero y = refl
  steps-viewed prio ranked next rule (suc n) y =
      continue-viewed n prio next (next (tasks b k prio y))
        (λ y'. steps-viewed prio ranked next rule n y')
      ∙ ap (λ r. continue r (λ v. steps (machine b limit prio) n v))
          (next-viewed prio ranked next rule y)
