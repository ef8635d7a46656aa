-- ===== src/Scenario/Sweep.antt =====
-- A sweep over message sizes: in every step a size is set and a counted loop of rounds is run.
use zephyr_kernel_bm_tuc_hms.Prelude.{
  ℕ, zero, suc, ◌+◌, ◌*◌, ◌^◌, ◌%◌, ◌<◌, ◌≤◌, ◌≡◌, refl, sym, ap, ◌∙◌, arith, false, List, Option,
  some, ◌==◌, ◌⊎◌, inl, inr,
}
use zephyr_kernel_bm_tuc_hms.Window.{Series}
use zephyr_kernel_bm_tuc_hms.Itc.Handover.{continue}
use zephyr_kernel_bm_tuc_hms.Scenario.Kernel.{View}
use zephyr_kernel_bm_tuc_hms.Scenario.Program.{Call, Program, ◌⨾◌, for_count, Board, System}
use zephyr_kernel_bm_tuc_hms.Scenario.Run.{steps, iterate, steps-after, steps-rounds}
use zephyr_kernel_bm_tuc_hms.Scenario.Tally.{timed, stray}
use zephyr_kernel_bm_tuc_hms.Scenario.Rounds.{
  Seen, sample, timed-rounds, stray-rounds, timed-rounds_other, stray-rounds_other,
}

-- MESSAGE_SIZE_MIN << step, on uint32_t.
abbrev pub step_message_size : ℕ → ℕ
step_message_size step = (4 * 2 ^ step) % 2 ^ 32

-- The steps from `step` on, `n` of them, of MEASUREMENT_COUNT rounds each.
abbrev pub sweep_from : (ℕ → List Call) → ℕ → ℕ → Program → Program
sweep_from round zero step rest = rest
sweep_from round (suc n) step rest =
    Call.set_message_size (step_message_size step)
    ⨾ for_count 50000 (round step) (sweep_from round n (suc step) rest)

abbrev pub sized : ℕ → Seen → Seen
sized step w = record w { message_size = step_message_size step }

-- What `n` steps leave.
abbrev pub swept : (ℕ → Seen → Seen) → ℕ → ℕ → Seen → Seen
swept turn zero step w = w
swept turn (suc n) step w = swept turn n (suc step) (sized step (iterate (turn step) 50000 w))

-- How the documented machine goes through a sweep: before a step with `n` to come, and in a step
-- with `m` rounds to go.
pub record Sweeping (f : System View → Option (System View)) (r : ℕ)
    (before : ℕ → ℕ → Seen → System View) (inside : ℕ → ℕ → ℕ → Seen → System View)
    (after : Seen → System View) (turn : ℕ → Seen → Seen) : Type 0 where
  pub begin :
      (n step : ℕ) (w : Seen) → steps f 1 (before (suc n) step w) ≡ some (inside n step 50000 w)
  pub round :
      (n step m : ℕ) (w : Seen)
      → step < 9
      → steps f r (inside n step (suc m) w) ≡ some (inside n step m (turn step w))
  pub leave :
      (n step : ℕ) (w : Seen) → f (inside n step 0 w) ≡ f (before n (suc step) (sized step w))
  pub done : (step : ℕ) (w : Seen) → before 0 step w ≡ after w

module _ (f : System View → Option (System View)) (r : ℕ) (before : ℕ → ℕ → Seen → System View)
    (inside : ℕ → ℕ → ℕ → Seen → System View) (after : Seen → System View) (turn : ℕ → Seen → Seen)
    (h : Sweeping f r before inside after turn) where
  from_inside :
      (n step k : ℕ) (w : Seen)
      → steps f (suc k) (inside n step 0 w) ≡ steps f (suc k) (before n (suc step) (sized step w))
  unfolding steps
  from_inside n step k w = ap (λ y. continue y (λ y'. steps f k y')) (h.leave n step w)

  pub steps-sweep :
      (n step k : ℕ) (w : Seen)
      → step + n ≤ 9
      → steps f (n * (1 + 50000 * r) + suc k) (before n step w)
        ≡ steps f (suc k) (after (swept turn n step w))
  steps-sweep zero step k w l =
      let e : 0 * (1 + 50000 * r) + suc k ≡ suc k = omega arith in rw (e, h.done step w) refl
  steps-sweep (suc n) step k w l =
      let c = 1 + 50000 * r in
      let e : suc n * c + suc k ≡ 1 + (50000 * r + suc (n * c + k)) = omega arith in
      let g : suc (n * c + k) ≡ n * c + suc k = omega arith in
      let u = iterate (turn step) 50000 w in
      ap (λ i. steps f i (before (suc n) step w)) e
      ∙ steps-after f 1 (50000 * r + suc (n * c + k)) _ _ (h.begin n step w)
      ∙ steps-after f (50000 * r) (suc (n * c + k)) _ _ (
          steps-rounds f r (inside n step) (turn step) (λ m v. h.round n step m v (omega arith))
            50000 w)
      ∙ from_inside n step (n * c + k) u
      ∙ ap (λ i. steps f i (before n (suc step) (sized step u))) g
      ∙ steps-sweep n (suc step) k (sized step u) (omega arith)

le_cases : (i j : ℕ) → i ≤ j → (i < j) ⊎ (i ≡ j)
le_cases i j h = ground arith

pub trichotomy : (i j : ℕ) → (i < j) ⊎ ((i ≡ j) ⊎ (j < i))
trichotomy i j = ground arith

-- The samples of a sweep: the series of every step gets 50,000 and the others none.
module _ (b : Board) (series : ℕ → Series) (turn : ℕ → Seen → Seen)
    (apart : (i j : ℕ)
      → i < j
      → ((series i == series j) ≡ false) × ((series j == series i) ≡ false))
    (same : (step : ℕ) (w : Seen) → (turn step w).trace ≡ (sample b (series step) w).trace) where
  timed-swept_before :
      (n step j : ℕ) (w : Seen)
      → j < step
      → timed (series j) (swept turn n step w).trace ≡ timed (series j) w.trace
  timed-swept_before zero step j w l = refl
  timed-swept_before (suc n) step j w l =
      timed-swept_before n (suc step) j (sized step (iterate (turn step) 50000 w)) (omega arith)
      ∙ timed-rounds_other b (series step) (turn step) (same step) (series j) (apart j step l).0
          (apart j step l).1 50000 w

  pub timed-swept :
      (n step j : ℕ) (w : Seen)
      → step ≤ j
      → j < step + n
      → timed (series j) (swept turn n step w).trace ≡ 50000 + timed (series j) w.trace
  timed-swept zero step j w l g = absurd (omega arith)
  timed-swept (suc n) step j w l g =
      let u = iterate (turn step) 50000 w in
      elim (le_cases step j l) [
        | inl e ↦
            timed-swept n (suc step) j (sized step u) e (omega arith)
            ∙ ap (λ (i : ℕ). 50000 + i)
                (timed-rounds_other b (series step) (turn step) (same step) (series j)
                  (apart step j e).1 (apart step j e).0 50000 w)
        | inr e ↦ rw (sym e) (
            timed-swept_before n (suc step) step (sized step u) (omega arith)
            ∙ timed-rounds b (series step) (turn step) (same step) 50000 w)
      ]

  pub stray-swept :
      (n step j : ℕ) (w : Seen)
      → stray (series j) (swept turn n step w).trace ≡ stray (series j) w.trace
  stray-swept zero step j w = refl
  stray-swept (suc n) step j w =
      let u = iterate (turn step) 50000 w in
      stray-swept n (suc step) j (sized step u) ∙ elim (trichotomy step j) [
        | inl e ↦
            stray-rounds_other b (series step) (turn step) (same step) (series j) (apart step j e).1
              (apart step j e).0 50000 w
        | inr (inl e) ↦ rw (sym e) (stray-rounds b (series step) (turn step) (same step) 50000 w)
        | inr (inr e) ↦
            stray-rounds_other b (series step) (turn step) (same step) (series j) (apart j step e).0
              (apart j step e).1 50000 w
      ]
