-- ===== src/Itc/Handover/Steps.antt =====
-- The releaser's two loops in src/itc, and its end: every step of the sweep gets its full count of
-- samples.
use zephyr_kernel_bm_tuc_hms.Prelude.{
  ℕ, zero, suc, ◌+◌, ◌*◌, ◌<◌, ◌≡◌, refl, arith, List, none, ltb, if◌then◌else◌,
}
use zephyr_kernel_bm_tuc_hms.Window.{Mark, Series, IsSampled}
use zephyr_kernel_bm_tuc_hms.Itc.Kernel.{
  test_arm_sem, test_recv_sem, Object, Kernel, KernelDoc, Scheduler, SchedulerDoc,
}
use zephyr_kernel_bm_tuc_hms.Itc.Handover.{
  Uses, Agree, measurement_count, message_size_steps, Direction, series, ArmPc, next_round,
  done_event_mask, System, t_send, t_recv, t_arm, threads, run,
}
use zephyr_kernel_bm_tuc_hms.Itc.Handover.States.{Then, Then-continue, goes}
use zephyr_kernel_bm_tuc_hms.Itc.Handover.Sweep.{
  fed_so_far, Between, Settled, Then-map, Then-all, run-Then, round_one,
}
use zephyr_kernel_bm_tuc_hms.Itc.Handover.Fed.{fed_before, fed_so_far-zero, fed_so_far-done}

-- Where the releaser goes from the last round of a step.
abbrev after_step : ℕ → ArmPc
after_step step =
    if ltb (suc step) message_size_steps then ArmPc.begin_step (suc step) else ArmPc.post_done

module _ {S : Type 0} (k : Kernel S) (doc : KernelDoc k) (counter : List Mark → ℕ) (uses : Uses)
    (agree : Agree uses) (next : Scheduler (System S)) (rule : SchedulerDoc next)
    (d : Direction) where
  -- From what holds of every series and every object.
  settle :
      (arm : ArmPc) (fed : Series → ℕ) (n : ℕ) (y : System S)
      → ((s : Series) (o : Object)
          → Then (Settled k arm (fed s) s o) (run next (threads k counter uses d) n y))
      → Then (Between k arm fed) (run next (threads k counter uses d) n y)
  settle arm fed n y h =
      Then-map (λ y'. (i : Series × Object) → Settled k arm (fed i.0) i.0 i.1 y') _
        (run next (threads k counter uses d) n y)
        (λ y' g. record {
          sender = (g (0, 0)).sender;
          receiver = (g (0, 0)).receiver;
          releaser = (g (0, 0)).releaser;
          baton_tokens = (g (0, 0)).baton_tokens;
          gate_tokens = (g (0, 0)).gate_tokens;
          in_objects = λ o. (g (0, o)).in_object;
          sampled = λ s. (g (s, 0)).sampled;
        })
        (Then-all _ (run next (threads k counter uses d) n y) (0, 0) (λ i. h i.0 i.1))

  begin_one :
      (step : ℕ) (s : Series) (o : Object) (y : System S)
      → Between k (ArmPc.begin_step step) (fed_before d step) y
      → Then
          (Settled k (ArmPc.give_recv step 0) (fed_so_far d step 0 s) s o)
          (next (threads k counter uses d y))
  unfolding t_send t_recv t_arm
  begin_one step s o y h =
      goes k doc counter uses agree next rule d (Then _) y
        (ground (arith, h.in_objects o, h.sampled s, fed_so_far-zero d step s))

  post_one :
      (fed : Series → ℕ) (s : Series) (o : Object) (y : System S)
      → Between k ArmPc.post_done fed y
      → Then (Settled k ArmPc.suspended (fed s) s o) (next (threads k counter uses d y))
  unfolding t_send t_recv t_arm
  post_one fed s o y h = goes k doc counter uses agree next rule d (Then _) y (
      ground (
        arith,
        h.in_objects o,
        h.sampled s,
        doc.post_sent (done_event_mask d) o y.kernel,
        doc.post_tokens (done_event_mask d) test_arm_sem y.kernel,
        doc.post_tokens (done_event_mask d) test_recv_sem y.kernel,
      ))

  at_rest :
      (fed : Series → ℕ) (y : System S)
      → Between k ArmPc.suspended fed y
      → next (threads k counter uses d y) ≡ none
  unfolding t_send t_recv t_arm
  at_rest fed y h = goes k doc counter uses agree next rule d (λ r. r ≡ none) y (ground arith)

  round_all :
      (step i : ℕ) (y : System S)
      → Between k (ArmPc.give_recv step i) (fed_so_far d step i) y
      → Then
          (Between k (next_round step i) (fed_so_far d step (suc i)))
          (run next (threads k counter uses d) 12 y)
  round_all step i y h =
      settle (next_round step i) (fed_so_far d step (suc i)) 12 y
        (λ s o. round_one k doc counter uses agree next rule d step i s o y h)

  next_round-last : (step i : ℕ) → suc i ≡ measurement_count → next_round step i ≡ after_step step
  next_round-last step i e = ground arith

  next_round-more :
      (step i : ℕ) → suc i < measurement_count → next_round step i ≡ ArmPc.give_recv step (suc i)
  next_round-more step i e = ground arith

  same_state :
      (step step' i j n : ℕ) (arm arm' : ArmPc) (y : System S)
      → arm ≡ arm'
      → step ≡ step'
      → i ≡ j
      → Then (Between k arm (fed_so_far d step i)) (run next (threads k counter uses d) n y)
      → Then (Between k arm' (fed_so_far d step' j)) (run next (threads k counter uses d) n y)
  same_state step step' i j n arm arm' y p q r h = rw (← p, ← q, ← r) h

  -- The inner loop, from round `i` on.
  rounds :
      (n step i : ℕ) (y : System S)
      → i + suc n ≡ measurement_count
      → Between k (ArmPc.give_recv step i) (fed_so_far d step i) y
      → Then
          (Between k (after_step step) (fed_so_far d step measurement_count))
          (run next (threads k counter uses d) (12 * suc n) y)
  rounds zero step i y e h =
      let last : suc i ≡ measurement_count = omega arith in
      same_state step step (suc i) measurement_count 12 _ _ y (next_round-last step i last) refl
        last (round_all step i y h)
  rounds (suc n) step i y e h =
      let more : suc i < measurement_count = omega arith in
      let split : 12 * suc (suc n) ≡ 12 + 12 * suc n = omega arith in
      rw split (
        run-Then next (threads k counter uses d) _ _ 12 (12 * suc n) y (round_all step i y h)
          (λ y' g. rounds n step (suc i) y' (omega arith) (rw (← next_round-more step i more) g)))

  begin_all :
      (step : ℕ) (y : System S)
      → Between k (ArmPc.begin_step step) (fed_before d step) y
      → Then
          (Between k (ArmPc.give_recv step 0) (fed_so_far d step 0))
          (run next (threads k counter uses d) 1 y)
  unfolding run
  begin_all step y h =
      settle (ArmPc.give_recv step 0) (fed_so_far d step 0) 1 y
        (λ s o. Then-continue _ (next (threads k counter uses d y)) (begin_one step s o y h))

  post_all :
      (fed : Series → ℕ) (y : System S)
      → Between k ArmPc.post_done fed y
      → Then (Between k ArmPc.suspended fed) (run next (threads k counter uses d) 1 y)
  unfolding run
  post_all fed y h =
      settle ArmPc.suspended fed 1 y
        (λ s o. Then-continue _ (next (threads k counter uses d y)) (post_one fed s o y h))

  one_step :
      (step : ℕ) (y : System S)
      → Between k (ArmPc.begin_step step) (fed_before d step) y
      → Then
          (Between k (after_step step) (fed_so_far d step measurement_count))
          (run next (threads k counter uses d) (1 + 12 * measurement_count) y)
  one_step step y h =
      run-Then next (threads k counter uses d) _ _ 1 (12 * measurement_count) y (begin_all step y h)
        (λ y' g. rounds 49999 step 0 y' (omega arith) g)

  after_step-more :
      (step : ℕ) → suc step < message_size_steps → after_step step ≡ ArmPc.begin_step (suc step)
  after_step-more step e = ground arith

  after_step-last : (step : ℕ) → step ≡ 8 → after_step step ≡ ArmPc.post_done
  after_step-last step e = ground arith

  -- The outer loop, from the start of a step on, and the end.
  steps :
      (m step : ℕ) (y : System S)
      → step + suc m ≡ message_size_steps
      → Between k (ArmPc.begin_step step) (fed_before d step) y
      → Then
          (Between k ArmPc.post_done (fed_so_far d 8 measurement_count))
          (run next (threads k counter uses d) ((1 + 12 * measurement_count) * suc m) y)
  unfolding fed_before
  steps zero step y e h =
      let last : step ≡ 8 = omega arith in
      same_state step 8 measurement_count measurement_count (1 + 12 * measurement_count) _ _ y
        (after_step-last step last) last refl (one_step step y h)
  steps (suc m) step y e h =
      let more : suc step < message_size_steps = omega arith in
      let split : (1 + 12 * measurement_count) * suc (suc m)
          ≡ (1 + 12 * measurement_count) + (1 + 12 * measurement_count) * suc m =
        omega arith in
      rw split (
        run-Then next (threads k counter uses d) _ _ (1 + 12 * measurement_count)
          ((1 + 12 * measurement_count) * suc m) y (one_step step y h)
          (λ y' g. steps m (suc step) y' (omega arith) (rw (← after_step-more step more) g)))

  -- Where the sender and the receiver name the same object, from the start of the first step, with the
  -- measured threads waiting, no token and no message left and no sample fed: after (1 + 12 * 50000) * 9 + 1 statements of the three threads, in the order
  -- that the scheduler picks, the releaser is suspended, no thread can go on, and the series of every
  -- step of the sweep has exactly 50000 samples, each a start and a stop captured in that order in
  -- the sample's own window.
  pub sweep :
      (step : ℕ) (y : System S)
      → step < message_size_steps
      → Between k (ArmPc.begin_step 0) (λ _. 0) y
      → Then
          (λ y'.
            (y'.arm ≡ ArmPc.suspended)
            × ((next (threads k counter uses d y') ≡ none)
                × IsSampled (series d step) measurement_count y'.trace))
          (run next
            (threads k counter uses d)
            ((1 + 12 * measurement_count) * message_size_steps + 1)
            y)
  unfolding fed_before
  sweep step y l h =
      run-Then next (threads k counter uses d) _ _
        ((1 + 12 * measurement_count) * message_size_steps) 1 y (steps 8 0 y refl h)
        (λ y' g.
          Then-map (Between k ArmPc.suspended (fed_so_far d 8 measurement_count)) _
            (run next (threads k counter uses d) 1 y')
            (λ y'' e. (
              e.releaser,
              (at_rest _ y'' e, rw (← fed_so_far-done d 8 step l) (e.sampled (series d step))),
            ))
            (post_all _ y' g))
