-- ===== src/Itc/Self.antt =====
-- T_Self of fifo.c, lifo.c, stack.c and msgq.c of src/itc: one thread puts and gets in each window.
pub mod Laws
use zephyr_kernel_bm_tuc_hms.Prelude.{
  ℕ, zero, suc, Bool, List, ◌∷◌, Option, none, some, ltb, if◌then◌else◌,
}
use zephyr_kernel_bm_tuc_hms.Window.{Mark, Series}
use zephyr_kernel_bm_tuc_hms.Itc.Kernel.{Object, Kernel}
use zephyr_kernel_bm_tuc_hms.Itc.Handover.{
  measurement_count, message_size_steps, self_send, continue,
}

pub record SelfThread (S : Type 0) : Type 0 where
  pub kernel : S
  pub test_start_time : ℕ
  pub test_stop_time : ℕ
  pub trace : List Mark

-- `put_fails` is whether a put to a full object fails, where others pend, `forever` whether the get is given K_FOREVER, and `object` the object of a step. A run is `none`
-- where the thread pends for good, no other thread being there to wake it.
module _ {S : Type 0} (k : Kernel S) (counter : List Mark → ℕ) (put_fails forever : Bool)
    (object : ℕ → Object) where
  mark : Mark → SelfThread S → SelfThread S
  mark m y = record y { trace = m ∷ y.trace }

  start_time : SelfThread S → SelfThread S
  start_time y =
      let v = counter y.trace in record y { test_start_time = v; trace = Mark.start v ∷ y.trace }

  stop_time : SelfThread S → SelfThread S
  stop_time y =
      let v = counter y.trace in record y { test_stop_time = v; trace = Mark.stop v ∷ y.trace }

  put_object : Object → SelfThread S → Option (SelfThread S)
  put_object o y =
      if k.has_room o y.kernel
      then some (record y { kernel = k.put o y.kernel })
      else if put_fails
      then some y
      else none

  -- K_NO_WAIT takes nothing from an empty object.
  get_object : Object → SelfThread S → Option (SelfThread S)
  get_object o y =
      if ltb 0 (k.sent o y.kernel)
      then some (record y { kernel = k.get o y.kernel })
      else if forever
      then none
      else some y

  feed : Series → SelfThread S → SelfThread S
  feed s y = record y { trace = Mark.fed s y.test_start_time y.test_stop_time ∷ y.trace }

  -- The body of the inner loop.
  unfoldable pub self_round : Series → Object → SelfThread S → Option (SelfThread S)
  unfolding mark start_time stop_time put_object get_object feed
  self_round s o y =
      continue (put_object o (start_time (mark Mark.reset (mark (Mark.opened s) y)))) (λ y1.
        continue (get_object o y1) (λ y2. some (mark (Mark.closed s) (feed s (stop_time y2)))))

  unfoldable pub self_rounds : ℕ → Series → Object → SelfThread S → Option (SelfThread S)
  self_rounds zero s o y = some y
  self_rounds (suc n) s o y = continue (self_round s o y) (λ y'. self_rounds n s o y')

  -- `n` steps of the sweep, from `step` on.
  unfoldable pub self_steps : ℕ → ℕ → SelfThread S → Option (SelfThread S)
  self_steps zero step y = some y
  self_steps (suc n) step y =
      continue (self_rounds measurement_count (self_send step) (object step) y)
        (λ y'. self_steps n (suc step) y')

  -- Both loops of T_Self().
  unfoldable pub self_loop : SelfThread S → Option (SelfThread S)
  unfolding self_steps
  self_loop y = self_steps message_size_steps 0 y
