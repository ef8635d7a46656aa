-- ===== src/TaskChange/Counts.antt =====
-- What the rounds of task_change add to the counts of the two scenarios.
use zephyr_kernel_bm_tuc_hms.Prelude.{
  ℕ, zero, suc, ◌+◌, ◌≡◌, refl, ◌∙◌, arith, false, List, ◌∷◌, ◌==◌,
}
use zephyr_kernel_bm_tuc_hms.Window.{Mark}
use zephyr_kernel_bm_tuc_hms.Scenario.Program.{Board, scenario_a, scenario_b}
use zephyr_kernel_bm_tuc_hms.Scenario.Run.{iterate}
use zephyr_kernel_bm_tuc_hms.Scenario.Tally.{
  tally, timed, stray, count_mark, follow, feeds_timed, feeds_any,
}
use zephyr_kernel_bm_tuc_hms.Window.{concerns}
use zephyr_kernel_bm_tuc_hms.TaskChange.States.{Held, take_sample, shut, shut_by, begun}

-- What the marks add to the counts of a series.
pub timed-closed : (r s : ℕ) (ms : List Mark) → timed r (Mark.closed s ∷ ms) ≡ timed r ms
unfolding timed tally count_mark concerns follow feeds_timed
timed-closed r s ms = ground arith

pub stray-closed : (r s : ℕ) (ms : List Mark) → stray r (Mark.closed s ∷ ms) ≡ stray r ms
unfolding stray tally count_mark concerns follow feeds_timed feeds_any
stray-closed r s ms = ground arith

pub timed-take_sample :
    (b : Board) (s : ℕ) (w : Held) → timed s (take_sample b s w).trace ≡ suc (timed s w.trace)
unfolding timed tally count_mark concerns follow feeds_timed
timed-take_sample b s w = ground arith

pub stray-take_sample :
    (b : Board) (s : ℕ) (w : Held) → stray s (take_sample b s w).trace ≡ stray s w.trace
unfolding stray tally count_mark concerns follow feeds_timed feeds_any
stray-take_sample b s w = ground arith

timed-feed_other :
    (b : Board) (r s : ℕ) (w : Held)
    → (r == s) ≡ false
    → (s == r) ≡ false
    → timed r (take_sample b s w).trace ≡ timed r w.trace
unfolding timed tally count_mark concerns follow feeds_timed
timed-feed_other b r s w h g = ground arith

stray-feed_other :
    (b : Board) (r s : ℕ) (w : Held)
    → (r == s) ≡ false
    → (s == r) ≡ false
    → stray r (take_sample b s w).trace ≡ stray r w.trace
unfolding stray tally count_mark concerns follow feeds_timed feeds_any
stray-feed_other b r s w h g = ground arith

pub timed-shut_by : (r n : ℕ) (w : Held) → timed r (shut_by n w).trace ≡ timed r w.trace
timed-shut_by r zero w = refl
timed-shut_by r (suc n) w =
    timed-shut_by r n (shut scenario_a w) ∙ timed-closed r scenario_a w.trace

pub stray-shut_by : (r n : ℕ) (w : Held) → stray r (shut_by n w).trace ≡ stray r w.trace
stray-shut_by r zero w = refl
stray-shut_by r (suc n) w =
    stray-shut_by r n (shut scenario_a w) ∙ stray-closed r scenario_a w.trace

-- A begun window is no sample.
pub timed-begun : (b : Board) (r : ℕ) (w : Held) → timed r (begun b w).trace ≡ timed r w.trace
unfolding timed tally count_mark concerns follow feeds_timed
timed-begun b r w = ground arith

pub stray-begun : (b : Board) (r : ℕ) (w : Held) → stray r (begun b w).trace ≡ stray r w.trace
unfolding stray tally count_mark concerns follow feeds_timed feeds_any
stray-begun b r w = ground arith

-- Who closes the window.
abbrev closers : ℕ → ℕ
closers zero = 1
closers (suc n) = suc n

abbrev pub turn_a : Board → ℕ → Held → Held
turn_a b n w = shut_by (closers n) (take_sample b scenario_a w)

abbrev pub turn_b : Board → Held → Held
turn_b b w = shut scenario_b (take_sample b scenario_b w)

pub timed-turn_a :
    (b : Board) (n : ℕ) (w : Held)
    → timed scenario_a (turn_a b n w).trace ≡ suc (timed scenario_a w.trace)
timed-turn_a b n w =
    timed-shut_by scenario_a (closers n) (take_sample b scenario_a w)
    ∙ timed-take_sample b scenario_a w

pub stray-turn_a :
    (b : Board) (n : ℕ) (w : Held)
    → stray scenario_a (turn_a b n w).trace ≡ stray scenario_a w.trace
stray-turn_a b n w =
    stray-shut_by scenario_a (closers n) (take_sample b scenario_a w)
    ∙ stray-take_sample b scenario_a w

pub timed-turn_b :
    (b : Board) (w : Held) → timed scenario_b (turn_b b w).trace ≡ suc (timed scenario_b w.trace)
timed-turn_b b w =
    timed-closed scenario_b scenario_b (take_sample b scenario_b w).trace
    ∙ timed-take_sample b scenario_b w

pub stray-turn_b :
    (b : Board) (w : Held) → stray scenario_b (turn_b b w).trace ≡ stray scenario_b w.trace
stray-turn_b b w =
    stray-closed scenario_b scenario_b (take_sample b scenario_b w).trace
    ∙ stray-take_sample b scenario_b w

-- Many rounds of one scenario, for the other.
pub timed_b-rounds_a :
    (b : Board) (n m : ℕ) (w : Held)
    → timed scenario_b (iterate (turn_a b n) m w).trace ≡ timed scenario_b w.trace
timed_b-rounds_a b n zero w = refl
timed_b-rounds_a b n (suc m) w =
    timed_b-rounds_a b n m (turn_a b n w)
    ∙ timed-shut_by scenario_b (closers n) (take_sample b scenario_a w)
    ∙ timed-feed_other b scenario_b scenario_a w refl refl

pub stray_b-rounds_a :
    (b : Board) (n m : ℕ) (w : Held)
    → stray scenario_b (iterate (turn_a b n) m w).trace ≡ stray scenario_b w.trace
stray_b-rounds_a b n zero w = refl
stray_b-rounds_a b n (suc m) w =
    stray_b-rounds_a b n m (turn_a b n w)
    ∙ stray-shut_by scenario_b (closers n) (take_sample b scenario_a w)
    ∙ stray-feed_other b scenario_b scenario_a w refl refl

pub timed_a-rounds_b :
    (b : Board) (m : ℕ) (w : Held)
    → timed scenario_a (iterate (turn_b b) m w).trace ≡ timed scenario_a w.trace
timed_a-rounds_b b zero w = refl
timed_a-rounds_b b (suc m) w =
    timed_a-rounds_b b m (turn_b b w)
    ∙ timed-closed scenario_a scenario_b (take_sample b scenario_b w).trace
    ∙ timed-feed_other b scenario_a scenario_b w refl refl

pub stray_a-rounds_b :
    (b : Board) (m : ℕ) (w : Held)
    → stray scenario_a (iterate (turn_b b) m w).trace ≡ stray scenario_a w.trace
stray_a-rounds_b b zero w = refl
stray_a-rounds_b b (suc m) w =
    stray_a-rounds_b b m (turn_b b w)
    ∙ stray-closed scenario_a scenario_b (take_sample b scenario_b w).trace
    ∙ stray-feed_other b scenario_a scenario_b w refl refl

-- A count that each round raises by one, or leaves.
pub raised :
    (turn : Held → Held) (count : Held → ℕ) (gains : (w : Held) → count (turn w) ≡ suc (count w))
    (m : ℕ) (w : Held)
    → count (iterate turn m w) ≡ m + count w
raised turn count gains zero w = omega arith
raised turn count gains (suc m) w = omega (arith, raised turn count gains m (turn w), gains w)

pub kept :
    (turn : Held → Held) (count : Held → ℕ) (stays : (w : Held) → count (turn w) ≡ count w) (m : ℕ)
    (w : Held)
    → count (iterate turn m w) ≡ count w
kept turn count stays zero w = refl
kept turn count stays (suc m) w = kept turn count stays m (turn w) ∙ stays w
