-- ===== src/Scenario/Run.antt =====
-- Runs of the threads of src/task_switching: one call at a time, of the ready thread of the highest
-- priority.
use zephyr_kernel_bm_tuc_hms.Prelude.{
  ℕ, zero, suc, ◌+◌, ◌*◌, ◌≡◌, refl, ◌∙◌, arith, List, [], ◌∷◌, Option, none, some,
}
use zephyr_kernel_bm_tuc_hms.Itc.Kernel.{Scheduler, SchedulerDoc, IsLowest}
use zephyr_kernel_bm_tuc_hms.Itc.Handover.{continue}

abbrev pub iterate : {B : Type 0} → (B → B) → ℕ → B → B
iterate f zero w = w
iterate f (suc n) w = iterate f n (f w)

continue-continue :
    {A B C : Type 0} (r : Option A) (f : A → Option B) (g : B → Option C)
    → continue (continue r f) g ≡ continue r (λ a. continue (f a) g)
continue-continue none f g = refl
continue-continue (some a) f g = refl

module _ {A : Type 0} where
  -- `n` steps; `none` where there is no next one.
  unfoldable pub steps : (A → Option A) → ℕ → A → Option A
  steps f zero y = some y
  steps f (suc n) y = continue (f y) (λ y'. steps f n y')

  -- The first thread that can go on.
  abbrev pub first_of : List (ℕ × Option A) → Option A
  first_of [] = none
  first_of ((p, some a) ∷ ts) = some a
  first_of ((p, none) ∷ ts) = first_of ts

  -- Every thread is of a higher priority than those after it.
  abbrev pub IsSorted : List (ℕ × Option A) → Type 0
  IsSorted [] = Unit
  IsSorted ((p, a) ∷ ts) = IsLowest p ts × IsSorted ts

  pub next-first_of :
      (next : Scheduler A) (rule : SchedulerDoc next) (ts : List (ℕ × Option A))
      → IsSorted ts
      → next ts ≡ first_of ts
  next-first_of next rule [] h = rule.idle
  next-first_of next rule ((p, some a) ∷ ts) (l, h) = rule.first p a ts l
  next-first_of next rule ((p, none) ∷ ts) (l, h) =
      rw (rule.skip p ts) (next-first_of next rule ts h)

  pub steps-add :
      (f : A → Option A) (m n : ℕ) (y : A)
      → steps f (m + n) y ≡ continue (steps f m y) (λ y'. steps f n y')
  unfolding steps
  steps-add f zero n y = let e : 0 + n ≡ n = omega arith in rw e refl
  steps-add f (suc m) n y =
      let e : suc m + n ≡ suc (m + n) = omega arith in
      rw (e, continue-continue (f y) (λ y'. steps f m y') (λ y''. steps f n y''))
        (λ i. continue (f y) (λ y'. steps-add f m n y' i))

  -- A run in two parts, the first of them known.
  pub steps-after :
      (f : A → Option A) (m n : ℕ) (y z : A)
      → steps f m y ≡ some z
      → steps f (m + n) y ≡ steps f n z
  steps-after f m n y z h = rw (steps-add f m n y, h) refl

  -- `n` rounds of a loop of `r` steps whose state goes from `at (suc m) w` to `at m (turn w)`.
  pub steps-rounds :
      {W : Type 0} (f : A → Option A) (r : ℕ) (at : ℕ → W → A) (turn : W → W)
      → ((m : ℕ) (w : W) → steps f r (at (suc m) w) ≡ some (at m (turn w)))
      → (n : ℕ) (w : W) → steps f (n * r) (at n w) ≡ some (at 0 (iterate turn n w))
  unfolding steps
  steps-rounds f r at turn h zero w = let e : 0 * r ≡ 0 = omega arith in rw e refl
  steps-rounds f r at turn h (suc n) w =
      let e : suc n * r ≡ r + n * r = omega arith in
      rw e (
        steps-after f r (n * r) (at (suc n) w) (at n (turn w)) (h n w)
        ∙ steps-rounds f r at turn h n (turn w))

  -- Where a step changes nothing, no run does.
  pub steps-still : (f : A → Option A) (n : ℕ) (y : A) → f y ≡ some y → steps f n y ≡ some y
  unfolding steps
  steps-still f zero y h = refl
  steps-still f (suc n) y h = rw h (steps-still f n y h)
