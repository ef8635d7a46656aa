-- ===== src/TaskChange/Refine.antt =====
-- A run of the threads of task_change over any kernel that does what is documented is the run over the
-- documented view of that kernel.
use zephyr_kernel_bm_tuc_hms.Prelude.{
  ℕ, zero, suc, ◌≡◌, refl, ap, ◌∙◌, Option, none, some, leb, if◌then◌else◌, true, false, Bool,
}
use zephyr_kernel_bm_tuc_hms.Itc.Handover.{continue}
use zephyr_kernel_bm_tuc_hms.Scenario.Doc.{map_option}
use zephyr_kernel_bm_tuc_hms.Scenario.Program.{Board}
use zephyr_kernel_bm_tuc_hms.Scenario.Run.{steps}
use zephyr_kernel_bm_tuc_hms.TaskChange.Ready.{
  Thread, WakeOrder, Kernel, KernelDoc, View, documented,
}
use zephyr_kernel_bm_tuc_hms.TaskChange.Tasks.{
  Call, System, left, set_left, first_call, rest_of, call, turn_of, next_state,
}

abbrev pub viewed : {S : Type 0} → (S → View) → System S → System View
viewed view y = record {
  kernel = view y.kernel;
  programs = y.programs;
  test_start_time = y.test_start_time;
  test_stop_time = y.test_stop_time;
  signalled = y.signalled;
  trace = y.trace;
}

-- The documented machine.
abbrev pub machine : Board → WakeOrder → System View → Option (System View)
machine b o v = next_state b (documented o) v

module _ {S : Type 0} (b : Board) (o : WakeOrder) (k : Kernel S) (view : S → View)
    (doc : KernelDoc k o view) where
  go :
      (y : System S) (s : S) (v : View)
      → view s ≡ v
      → viewed view (record y { kernel = s }) ≡ record (viewed view y) { kernel = v }
  go y s v e = ap (λ v. record (viewed view y) { kernel = v }) e

  viewed-if :
      (g : Bool) (y z : System S)
      → viewed view (if g then y else z) ≡ (if g then viewed view y else viewed view z)
  viewed-if true y z = refl
  viewed-if false y z = refl

  call-viewed :
      (t : Thread) (c : Call) (y : System S)
      → viewed view (call b k t c y) ≡ call b (documented o) t c (viewed view y)
  call-viewed t (Call.mwindow_open s) y = refl
  call-viewed t Call.reset_counter y = refl
  call-viewed t Call.get_start_cnt y = refl
  call-viewed t Call.get_stop_cnt y = refl
  call-viewed t (Call.mseries_iterate s) y = refl
  call-viewed t (Call.mwindow_close s) y = refl
  call-viewed t (Call.skip_unless_counted s n) y =
      viewed-if (leb 50000 (b.iterations s y.trace)) y _
  call-viewed t Call.event_init y = go y _ _ (doc.event_init y.kernel)
  call-viewed t (Call.event_wait m) y = go y _ _ (doc.event_wait m y.kernel)
  call-viewed t (Call.event_post m) y = go y _ _ (doc.event_post m y.kernel)
  call-viewed t Call.yield y = go y _ _ (doc.yield y.kernel)
  call-viewed t (Call.thread_create u) y = go y _ _ (doc.thread_create u y.kernel)
  call-viewed t (Call.thread_abort u) y = go y _ _ (doc.thread_abort u y.kernel)
  call-viewed t (Call.thread_suspend u) y = go y _ _ (doc.thread_suspend u y.kernel)
  call-viewed t Call.suspend_self y = go y _ _ (doc.thread_suspend t y.kernel)
  call-viewed t Call.signalize_mseries_stop y = refl

  turn_of-viewed :
      (t : Thread) (y : System S)
      → viewed view (turn_of b k t y) ≡ turn_of b (documented o) t (viewed view y)
  turn_of-viewed t y =
      let p = left t y.programs in
      call-viewed t (first_call p) (record y { programs = set_left t (rest_of p) y.programs })

  running-viewed :
      (r : Option Thread) (y : System S)
      → map_option (viewed view) (continue r (λ t. some (turn_of b k t y)))
        ≡ continue r (λ t. some (turn_of b (documented o) t (viewed view y)))
  running-viewed none y = refl
  running-viewed (some t) y = ap some (turn_of-viewed t y)

  next_state-viewed :
      (y : System S) → map_option (viewed view) (next_state b k y) ≡ machine b o (viewed view y)
  next_state-viewed y =
      running-viewed (k.current y.kernel) y
      ∙ ap (λ r. continue r (λ t. some (turn_of b (documented o) t (viewed view y))))
          (doc.running y.kernel)

  continued :
      (n : ℕ) (r : Option (System S))
      → ((y : System S)
          → map_option (viewed view) (steps (next_state b k) n y)
            ≡ steps (machine b o) n (viewed view y))
      → map_option (viewed view) (continue r (λ y. steps (next_state b k) n y))
        ≡ continue (map_option (viewed view) r) (λ v. steps (machine b o) n v)
  continued n none ih = refl
  continued n (some y) ih = ih y

  -- Over any kernel that does what is documented, a run of any number of calls looks, through the view,
  -- like the run of the documented machine.
  pub steps-viewed :
      (n : ℕ) (y : System S)
      → map_option (viewed view) (steps (next_state b k) n y)
        ≡ steps (machine b o) n (viewed view y)
  unfolding steps
  steps-viewed zero y = refl
  steps-viewed (suc n) y =
      continued n (next_state b k y) (λ y'. steps-viewed n y')
      ∙ ap (λ r. continue r (λ v. steps (machine b o) n v)) (next_state-viewed y)
