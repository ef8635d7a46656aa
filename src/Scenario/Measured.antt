-- ===== src/Scenario/Measured.antt =====
-- What a sweep adds to a number read off the marks, where each round of a step is known to add one
-- to it, or nothing.
use zephyr_kernel_bm_tuc_hms.Prelude.{
  ℕ, zero, suc, ◌+◌, ◌≤◌, ◌<◌, ◌≡◌, refl, ap, ◌∙◌, arith, List, ◌⊎◌, inl, inr,
}
use zephyr_kernel_bm_tuc_hms.Window.{Mark}
use zephyr_kernel_bm_tuc_hms.Scenario.Run.{iterate}
use zephyr_kernel_bm_tuc_hms.Scenario.Rounds.{Seen}
use zephyr_kernel_bm_tuc_hms.Scenario.Sweep.{sized, swept}

module _ (measure : List Mark → ℕ) where
  measure-counting :
      (turn : Seen → Seen)
      → ((w : Seen) → measure (turn w).trace ≡ suc (measure w.trace))
      → (n : ℕ) (w : Seen) → measure (iterate turn n w).trace ≡ n + measure w.trace
  measure-counting turn h zero w = omega arith
  measure-counting turn h (suc n) w = omega (arith, measure-counting turn h n (turn w), h w)

  measure-idling :
      (turn : Seen → Seen)
      → ((w : Seen) → measure (turn w).trace ≡ measure w.trace)
      → (n : ℕ) (w : Seen) → measure (iterate turn n w).trace ≡ measure w.trace
  measure-idling turn h zero w = refl
  measure-idling turn h (suc n) w = measure-idling turn h n (turn w) ∙ h w

  module _ (turn : ℕ → Seen → Seen) where
    -- A sweep of which no step counts.
    pub measure-swept_idle :
        ((i : ℕ) (w : Seen) → measure (turn i w).trace ≡ measure w.trace)
        → (n step : ℕ) (w : Seen) → measure (swept turn n step w).trace ≡ measure w.trace
    measure-swept_idle h zero step w = refl
    measure-swept_idle h (suc n) step w =
        measure-swept_idle h n (suc step) (sized step (iterate (turn step) 50000 w))
        ∙ measure-idling (turn step) (h step) 50000 w

    -- One of which step `j` counts, and no other.
    module _ (j : ℕ) (here : (w : Seen) → measure (turn j w).trace ≡ suc (measure w.trace))
        (elsewhere : (i : ℕ)
          → (i < j) ⊎ (j < i)
          → (w : Seen) → measure (turn i w).trace ≡ measure w.trace) where
      measure-swept_after :
          (n step : ℕ) (w : Seen) → j < step → measure (swept turn n step w).trace ≡ measure w.trace
      measure-swept_after zero step w l = refl
      measure-swept_after (suc n) step w l =
          measure-swept_after n (suc step) (sized step (iterate (turn step) 50000 w)) (omega arith)
          ∙ measure-idling (turn step) (elsewhere step (inr l)) 50000 w

      le_cases : (i : ℕ) → i ≤ j → (i < j) ⊎ (i ≡ j)
      le_cases i l = ground arith

      pub measure-swept :
          (n step : ℕ) (w : Seen)
          → step ≤ j
          → j < step + n
          → measure (swept turn n step w).trace ≡ 50000 + measure w.trace
      measure-swept zero step w l g = absurd (omega arith)
      measure-swept (suc n) step w l g =
          let u = iterate (turn step) 50000 w in
          elim (le_cases step l) [
            | inl e ↦
                measure-swept n (suc step) (sized step u) e (omega arith)
                ∙ ap (λ (i : ℕ). 50000 + i)
                    (measure-idling (turn step) (elsewhere step (inl e)) 50000 w)
            | inr e ↦ rw e (
                measure-swept_after n (suc j) (sized j (iterate (turn j) 50000 w)) (omega arith)
                ∙ measure-counting (turn j) here 50000 w)
          ]
