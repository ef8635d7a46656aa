-- ===== src/Scenario/Guarded.antt =====
-- Loops that end when a series has its 50,000 samples, which iteration_count tells.
use zephyr_kernel_bm_tuc_hms.Prelude.{
  ℕ, zero, suc, ◌+◌, ◌*◌, ◌<◌, ◌≡◌, ◌∙◌, ap, arith, Bool, true, false, Option, some, List, leb,
  if◌then◌else◌,
}
use zephyr_kernel_bm_tuc_hms.Window.{Mark, Series}
use zephyr_kernel_bm_tuc_hms.Scenario.Kernel.{View}
use zephyr_kernel_bm_tuc_hms.Scenario.Program.{Board, System}
use zephyr_kernel_bm_tuc_hms.Scenario.Run.{steps, iterate, steps-after}
use zephyr_kernel_bm_tuc_hms.Scenario.Tally.{timed, stray}
use zephyr_kernel_bm_tuc_hms.Scenario.Rounds.{Seen, sample, timed-rounds, stray-rounds}

-- The hypothesis on the harness: where nothing was fed to a series but what its windows had captured,
-- iteration_count is the number of its samples.
abbrev pub CountsSamples : Board → Type 0
CountsSamples b = (s : Series) (ms : List Mark) → stray s ms ≡ 0 → b.iterations s ms ≡ timed s ms

-- Whether the series is complete.
abbrev pub is_counted : Board → Series → Seen → Bool
is_counted b s w = leb 50000 (b.iterations s w.trace)

-- The two sides of a test.
module _ {A : Type 0} (f : A → Option A) (m n : ℕ) (x y z u : A) (g : Bool)
    (tests : steps f m x ≡ some (if g then y else z)) where
  pub steps-then : g ≡ true → steps f n y ≡ some u → steps f (m + n) x ≡ some u
  steps-then h e =
      steps-after f m n x y (tests ∙ ap (λ (c : Bool). some (if c then y else z)) h) ∙ e

  pub steps-else : g ≡ false → steps f n z ≡ some u → steps f (m + n) x ≡ some u
  steps-else h e =
      steps-after f m n x z (tests ∙ ap (λ (c : Bool). some (if c then y else z)) h) ∙ e

-- A round of the loop, and the last one.
pub record GuardedLoop (b : Board) (f : System View → Option (System View)) (s : Series) (r q : ℕ)
    (at next : Seen → System View) (turn : Seen → Seen) : Type 0 where
  pub again : (w : Seen) → is_counted b s (turn w) ≡ false → steps f r (at w) ≡ some (at (turn w))
  pub leave : (w : Seen) → is_counted b s (turn w) ≡ true → steps f q (at w) ≡ some (next (turn w))
  pub takes : (w : Seen) → (turn w).trace ≡ (sample b s w).trace

-- A loop of which `again` is a round and `leave` the one that reaches the limit.
module _ {A W : Type 0} (f : A → Option A) (limit r q : ℕ) (at next : W → A) (turn : W → W)
    (count : W → ℕ) (Ok : W → Type 0) (gains : (w : W) → count (turn w) ≡ suc (count w))
    (keeps : (w : W) → Ok w → Ok (turn w))
    (again : (w : W) → Ok w → suc (count w) < limit → steps f r (at w) ≡ some (at (turn w)))
    (leave : (w : W) → Ok w → suc (count w) ≡ limit → steps f q (at w) ≡ some (next (turn w))) where
  pub steps-until :
      (n : ℕ) (w : W)
      → Ok w
      → count w + suc n ≡ limit
      → steps f (n * r + q) (at w) ≡ some (next (iterate turn (suc n) w))
  steps-until zero w z e =
      let g : 0 * r + q ≡ q = omega arith in rw g (leave w z (omega (arith, e)))
  steps-until (suc n) w z e =
      let t = gains w in
      let g : suc n * r + q ≡ r + (n * r + q) = omega arith in
      rw g (
        steps-after f r (n * r + q) (at w) (at (turn w)) (again w z (omega (arith, e)))
        ∙ steps-until n (turn w) (keeps w z) (omega (arith, e, t)))

-- From an incomplete series, the loop is left when it is complete.
module _ (b : Board) (f : System View → Option (System View)) (s : Series) (r q : ℕ)
    (at next : Seen → System View) (turn : Seen → Seen) (loop : GuardedLoop b f s r q at next turn)
    (counts : CountsSamples b) where
  timed-once : (w : Seen) → timed s (turn w).trace ≡ suc (timed s w.trace)
  timed-once w = omega (arith, timed-rounds b s turn loop.takes 1 w)

  stray-once : (w : Seen) → stray s (turn w).trace ≡ stray s w.trace
  stray-once w = stray-rounds b s turn loop.takes 1 w

  iterations-once :
      (w : Seen) → stray s w.trace ≡ 0 → b.iterations s (turn w).trace ≡ suc (timed s w.trace)
  iterations-once w z = counts s (turn w).trace (stray-once w ∙ z) ∙ timed-once w

  pub steps-guarded :
      (n : ℕ) (w : Seen)
      → stray s w.trace ≡ 0
      → timed s w.trace + suc n ≡ 50000
      → steps f (n * r + q) (at w) ≡ some (next (iterate turn (suc n) w))
  steps-guarded =
      steps-until f 50000 r q at next turn (λ w. timed s w.trace) (λ w. stray s w.trace ≡ 0)
        timed-once (λ w z. stray-once w ∙ z)
        (λ w z l. let i = iterations-once w z in loop.again w (ground (arith, i)))
        (λ w z e. let i = iterations-once w z in loop.leave w (ground (arith, i)))
