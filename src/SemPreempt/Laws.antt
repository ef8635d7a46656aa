-- ===== src/SemPreempt/Laws.antt =====
-- What the `measure_*_overhead` functions of sem_preempt/zephyr_sim.c leave behind.
use zephyr_kernel_bm_tuc_hms.Prelude.{ℕ, suc, ◌+◌, ◌≡◌, ◌≢◌, arith, ℤ, pos, min, ==_false}
use zephyr_kernel_bm_tuc_hms.Window.{phase, samples, IsSampled}
use zephyr_kernel_bm_tuc_hms.Sim.Machine.{
  null, waiter_thread, Env, KernelDoc, World, Ensures, marks,
}
use zephyr_kernel_bm_tuc_hms.Sim.Probe.{Ready, after, Measured, Measured-repeat}
use zephyr_kernel_bm_tuc_hms.Sim.Sem.{SemFile}
use zephyr_kernel_bm_tuc_hms.SemPreempt.{
  measure_take_tail, measure_take_tail_overhead, measure_give_tail,
  measure_give_tail_no_swap_overhead,
}

record TakeReady (env : Env) (s k r m old i : ℕ) (w : World SemFile) : Type 0 where
  ready : Ready s (k + i) r m w
  forever : w.file.sim_take_ticks ≡ env.ticks_forever
  empty : w.file.tail_sem.count ≡ 0
  swapped : w.sim_current_thread.swap_return_value ≡ pos 0
  sunk : w.file.sim_take_sink ≡ after i old 0

-- No thread waits: each give counts up, to the limit.
record CountReady (env : Env) (s k r m i : ℕ) (w : World SemFile) : Type 0 where
  ready : Ready s (k + i) r m w
  alone : env.dlist_peek_head w.file.tail_sem.wait_q ≡ null
  limited : w.file.tail_sem.limit ≡ env.sem_max_limit
  counted : w.file.tail_sem.count ≡ min i env.sem_max_limit

-- One thread waits: each give wakes it by name only, and counts nothing.
record WaiterReady (env : Env) (s k r m : ℕ) (old : ℤ) (i : ℕ) (w : World SemFile) : Type 0 where
  ready : Ready s (k + i) r m w
  waiting : env.dlist_peek_head w.file.tail_sem.wait_q ≡ waiter_thread
  empty : w.file.tail_sem.count ≡ 0
  woken : w.sim_waiter_thread.swap_return_value ≡ after i old (pos 0)

module _ (env : Env) (doc : KernelDoc env) (s k r m : ℕ) (apart : r ≢ s) where
  measure_take_tail-TakeReady :
      (old i : ℕ) (w : World SemFile)
      → TakeReady env s k r m old i w
      → Ensures (λ _ w'. TakeReady env s k r m old (suc i) w') (measure_take_tail env s w)
  unfolding measure_take_tail phase samples marks
  measure_take_tail-TakeReady old i w h = ground (arith, doc.no_wait, doc.forever)

  measure_give_tail-CountReady :
      (i : ℕ) (w : World SemFile)
      → CountReady env s k r m i w
      → Ensures (λ _ w'. CountReady env s k r m (suc i) w') (measure_give_tail env s w)
  unfolding measure_give_tail phase samples marks
  measure_give_tail-CountReady i w h = ground (arith, doc.limit_fits)

  measure_give_tail-WaiterReady :
      (old : ℤ) (i : ℕ) (w : World SemFile)
      → WaiterReady env s k r m old i w
      → Ensures (λ _ w'. WaiterReady env s k r m old (suc i) w') (measure_give_tail env s w)
  unfolding measure_give_tail phase samples marks
  measure_give_tail-WaiterReady old i w h = ground arith

  -- The blocking take, if the windows of `s` and `r` are shut: the semaphore, initialised empty,
  -- ends empty; exactly `loop_count` samples are added to `s`, each timed in its own window, and
  -- none to `r`; and if a round ran the sink holds 0, the swap's return value, else what it held.
  pub measure_take_tail_overhead_lem :
      (loop_count : ℕ) (w : World SemFile)
      → IsSampled s k (marks w.trace)
      → IsSampled r m (marks w.trace)
      → Ensures
          (λ _ w'.
            Measured s k loop_count r m w'
            × ((w'.file.tail_sem.count ≡ 0)
                × (w'.file.sim_take_sink ≡ after loop_count w.file.sim_take_sink 0)))
          (measure_take_tail_overhead env s loop_count w)
  unfolding measure_take_tail_overhead marks
  measure_take_tail_overhead_lem n w h g =
      Measured-repeat s k r m (λ i. TakeReady env s k r m w.file.sim_take_sink i) _
        (measure_take_tail env s) (measure_take_tail-TakeReady w.file.sim_take_sink)
        (λ _ _ e. e.ready) n _ (λ w' e. (e.empty, e.sunk))
        (ground (arith, doc.init_count w.file.tail_sem 0 env.sem_max_limit))

  -- The k_sem_give() tail with no waiter, if the windows of `s` and `r` are shut: exactly
  -- `loop_count` samples are added to `s`, each timed in its own window, and none to `r`, and the
  -- count ends at the number of rounds, or at the limit if that is less.
  pub give_tail-no_waiter :
      (loop_count : ℕ) (w : World SemFile)
      → IsSampled s k (marks w.trace)
      → IsSampled r m (marks w.trace)
      → Ensures
          (λ _ w'.
            Measured s k loop_count r m w'
            × (w'.file.tail_sem.count ≡ min loop_count env.sem_max_limit))
          (measure_give_tail_no_swap_overhead env s loop_count 0 w)
  unfolding measure_give_tail_no_swap_overhead marks
  give_tail-no_waiter n w h g =
      Measured-repeat s k r m (λ i. CountReady env s k r m i) _ (measure_give_tail env s)
        measure_give_tail-CountReady (λ _ _ e. e.ready) n _ (λ w' e. e.counted)
        (ground (
          arith,
          doc.init_count w.file.tail_sem 0 env.sem_max_limit,
          doc.init_limit w.file.tail_sem 0 env.sem_max_limit,
          doc.init_empty w.file.tail_sem 0 env.sem_max_limit,
        ))

  -- The k_sem_give() tail with a waiter, for any nonzero `has_waiter`, if the windows of `s` and `r`
  -- are shut: exactly `loop_count` samples are added to `s`, each timed in its own window, and none
  -- to `r`; the count ends at 0, the waiter is left at the head of the queue, and if a round ran its
  -- swap return value is 0, else what it was.
  pub give_tail-waiter :
      (loop_count has_waiter : ℕ) (w : World SemFile)
      → has_waiter ≢ 0
      → IsSampled s k (marks w.trace)
      → IsSampled r m (marks w.trace)
      → Ensures
          (λ _ w'.
            Measured s k loop_count r m w'
            × ((w'.file.tail_sem.count ≡ 0)
                × (env.dlist_peek_head w'.file.tail_sem.wait_q ≡ waiter_thread)
                × (w'.sim_waiter_thread.swap_return_value
                    ≡ after loop_count w.sim_waiter_thread.swap_return_value (pos 0))))
          (measure_give_tail_no_swap_overhead env s loop_count has_waiter w)
  unfolding measure_give_tail_no_swap_overhead marks
  give_tail-waiter n b w nz h g = rw (==_false b 0 nz) (
      Measured-repeat s k r m (λ i. WaiterReady env s k r m w.sim_waiter_thread.swap_return_value i)
        _ (measure_give_tail env s)
        (measure_give_tail-WaiterReady w.sim_waiter_thread.swap_return_value) (λ _ _ e. e.ready) n _
        (λ w' e. (e.empty, e.waiting, e.woken))
        (ground (
          arith,
          doc.init_count w.file.tail_sem 0 env.sem_max_limit,
          doc.append_empty (env.sem_init w.file.tail_sem 0 env.sem_max_limit).wait_q waiter_thread,
          doc.init_empty w.file.tail_sem 0 env.sem_max_limit,
        )))
