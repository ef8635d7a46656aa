-- ===== src/Sim/Probe.antt =====
-- What every probe of the zephyr_sim.c files does around the chain it times: feeding the series,
-- the counted loop of a `measure_*_overhead` function, and the states between two rounds.
use zephyr_kernel_bm_tuc_hms.Prelude.{
  ℕ, zero, suc, ◌+◌, ◌≡◌, ◌==◌, Option, none, some, arith, if◌then◌else◌,
}
use zephyr_kernel_bm_tuc_hms.Window.{Series, IsSampled}
use zephyr_kernel_bm_tuc_hms.Sim.Machine.{
  current_thread, Env, World, M, ◌>>=◌, ◌>>◌, and_then, pure, gets, Ensures, marks,
}
use zephyr_kernel_bm_tuc_hms.Sim.Calls.{mseries_iterate, signalize_jitter_detected, mwindow_close}

-- if (BMTH_mseries_iterate(mseries, sim_test_start_time, sim_test_stop_time)
--     == BMTH_MEASUREMENT_WINDOW_COMPLETED_WITH_JITTER) { BMTH_signalize_jitter_detected(); }
-- BMTH_mwindow_close(mseries);
abbrev pub feed_and_close : Env → {F : Type 0} → Series → M F (Unit {0})
feed_and_close env mseries = do
  start ← gets (λ w. w.sim_test_start_time)
  stop ← gets (λ w. w.sim_test_stop_time)
  jitter ← mseries_iterate env mseries start stop
  if jitter then signalize_jitter_detected else pure tt
  mwindow_close mseries

-- for (uint32_t i = 0; i < loop_count; i++) { body; }
unfoldable pub repeat : {F : Type 0} → ℕ → M F (Unit {0}) → M F (Unit {0})
repeat zero body = pure tt
repeat (suc n) body = do body; repeat n body

-- Between two rounds: the simulated kernel is initialised, the probed series `s` has had `i`
-- samples, each from a window of its own, and another series `r` still has its `m`.
pub record Ready (s i r m : ℕ) {F : Type 0} (w : World F) : Type 0 where
  pub current : w.cpu_current ≡ current_thread
  pub sampled : IsSampled s i (marks w.trace)
  pub beside : IsSampled r m (marks w.trace)

-- After a `measure_*_overhead` function of `n` rounds: the series `s`, which had `k` samples, has `n`
-- more, each a start and a stop captured in that order in the sample's own window and fed
-- unchanged, and no window is left open; another series `r` still has its `m`.
pub record Measured (s k n r m : ℕ) {F : Type 0} (w : World F) : Type 0 where
  pub sampled : IsSampled s (k + n) (marks w.trace)
  pub beside : IsSampled r m (marks w.trace)

module _ {F A B : Type 0} (P : A → World F → Type 0) (Q : B → World F → Type 0) where
  pub Ensures-and_then :
      (r : Option (A × World F)) (k : A → M F B)
      → Ensures P r
      → ((a : A) (w : World F) → P a w → Ensures Q (k a w))
      → Ensures Q (and_then r k)
  Ensures-and_then none k h next = absurd h
  Ensures-and_then (some (a, w)) k h next = next a w h

and_then-id :
    {F : Type 0} (Q : World F → Type 0) (r : Option (Unit {0} × World F))
    → Ensures (λ _. Q) (and_then r pure)
    → Ensures (λ _. Q) r
and_then-id Q none h = h
and_then-id Q (some (a, w)) h = h

-- The rule of the counted loop: an invariant that every round carries one further.
pub repeat_inv :
    {F : Type 0} (I : ℕ → World F → Type 0) (body : M F (Unit {0}))
    → ((i : ℕ) (w : World F) → I i w → Ensures (λ _ w'. I (suc i) w') (body w))
    → (n i j : ℕ) (w : World F) → i + n ≡ j
    → I i w
    → Ensures (λ _ w'. I j w') (repeat n body w)
unfolding repeat
repeat_inv I body keep zero i j w e h = let e' : i ≡ j = omega arith in rw (← e') h
repeat_inv I body keep (suc n) i j w e h =
    Ensures-and_then (λ _ w'. I (suc i) w') (λ _ w'. I j w') (body w) (λ _. repeat n body)
      (keep i w h) (λ _ w' h'. repeat_inv I body keep n (suc i) j w' (omega arith) h')

-- What a static holds after `n` rounds that each write `v` to it.
abbrev pub after {ℓ} : {A : Type ℓ} → ℕ → A → A → A
after n old v = if n == 0 then old else v

-- The same for the loop of a probe, with an invariant that holds the state between two rounds.
module _ (s k r m : ℕ) {F : Type 0} (I : ℕ → World F → Type 0) where
  pub Measured-repeat :
      (P : World F → Type 0) (body : M F (Unit {0}))
      → ((i : ℕ) (w : World F) → I i w → Ensures (λ _ w'. I (suc i) w') (body w))
      → ((i : ℕ) (w : World F) → I i w → Ready s (k + i) r m w)
      → (n : ℕ) (w : World F) → ((w' : World F) → I n w' → P w')
      → I 0 w
      → Ensures (λ _ w'. Measured s k n r m w' × P w') (repeat n body w)
  Measured-repeat P body keep ready n w last h =
      and_then-id (λ w'. Measured s k n r m w' × P w') (repeat n body w)
        (Ensures-and_then (λ _. I n) (λ _ w'. Measured s k n r m w' × P w') (repeat n body w) pure
          (repeat_inv I body keep n 0 n w (omega arith) h)
          (λ _ w' e. (
            record { sampled = (ready n w' e).sampled; beside = (ready n w' e).beside },
            last w' e,
          )))
