-- ===== src/Itc/Handover.antt =====
-- The protocol that fifo.c, lifo.c, stack.c and msgq.c of src/itc share, statement by statement: a
-- sender, a receiver and a releaser of lower priority than both. Up is the direction to a receiver
-- of higher priority than the sender's, down the other. A thread is a function that runs its next
-- statement, `none` where that pends.
pub mod States
pub mod Arming
pub mod Passing
pub mod Round
pub mod Fed
pub mod Sweep
pub mod Steps
use zephyr_kernel_bm_tuc_hms.Prelude.{
  Bool, ◌≡◌, ℕ, zero, suc, ◌+◌, ◌*◌, List, [], ◌∷◌, Option, none, some, ltb, if◌then◌else◌,
}
use zephyr_kernel_bm_tuc_hms.Window.{Mark, Series}
use zephyr_kernel_bm_tuc_hms.Itc.Kernel.{
  SemPtr, test_arm_sem, test_recv_sem, Object, Kernel, Scheduler,
}

abbrev pub measurement_count : ℕ
measurement_count = 50000

abbrev pub message_size_steps : ℕ
message_size_steps = 9

pub data Direction : Type 0 where
  up : Direction
  down : Direction

-- self_send[step], send_to_higher_prio[step] and send_to_lower_prio[step], numbered.
abbrev pub self_send : ℕ → Series
self_send step = 3 * step

abbrev pub series : Direction → ℕ → Series
series up step = 3 * step + 1
series down step = 3 * step + 2

abbrev pub start_event_mask : Direction → ℕ
start_event_mask up = 0x0002
start_event_mask down = 0x0004

abbrev pub done_event_mask : Direction → ℕ
done_event_mask up = 0x0020
done_event_mask down = 0x0040

abbrev pub t_send_prio : Direction → ℕ
t_send_prio up = 3
t_send_prio down = 2

abbrev pub t_recv_prio : Direction → ℕ
t_recv_prio up = 2
t_recv_prio down = 3

abbrev pub t_arm_prio : ℕ
t_arm_prio = 4

-- The statement that the sender runs next; those of the loop come round again.
pub data SendPc : Type 0 where
  send_wait : SendPc
  take_arm : SendPc
  send_reset : SendPc
  send_start : SendPc
  send_put : SendPc

pub data RecvPc : Type 0 where
  take_recv : RecvPc
  recv_get : RecvPc
  recv_stop : RecvPc

-- With the releaser's `step` and `i`.
pub data ArmPc : Type 0 where
  arm_wait : ArmPc
  begin_step : ℕ → ArmPc
  give_recv : ℕ → ℕ → ArmPc
  arm_open : ℕ → ℕ → ArmPc
  give_arm : ℕ → ℕ → ArmPc
  arm_feed : ℕ → ℕ → ArmPc
  arm_close : ℕ → ℕ → ArmPc
  post_done : ArmPc
  suspended : ArmPc

-- The control of the releaser's two loops, at the end of the inner body.
abbrev pub next_round : ℕ → ℕ → ArmPc
next_round step i =
    if ltb (suc i) measurement_count
    then give_recv step (suc i)
    else if ltb (suc step) message_size_steps
    then begin_step (suc step)
    else post_done

-- The threads of one direction, with the file's statics and the harness's marks.
pub record System (S : Type 0) : Type 0 where
  pub kernel : S
  pub send : SendPc
  pub recv : RecvPc
  pub arm : ArmPc
  pub active : Object  -- what the start of a step has chosen
  pub test_start_time : ℕ
  pub test_stop_time : ℕ
  pub trace : List Mark

-- What a file's threads do with an object: what the start of a step of the sweep does to `active`, the
-- objects that the sender and the receiver name, given it, and whether a put to a full one fails, where
-- others pend.
pub record Uses : Type 0 where
  pub choose : ℕ → Object → Object
  pub sender_object : Object → Object
  pub receiver_object : Object → Object
  pub put_fails : Bool

-- The sender and the receiver name the same object.
abbrev pub Agree : Uses → Type 0
Agree u = (o : Object) → u.sender_object o ≡ u.receiver_object o

-- `counter` is what the cycle counter reads after the marks so far.
module _ {S : Type 0} (k : Kernel S) (counter : List Mark → ℕ) (uses : Uses) (d : Direction) where
  send_at : SendPc → System S → Option (System S)
  send_at send_wait y = elim (k.k_event_wait_safe (start_event_mask d) y.kernel) [
    | none ↦ none
    | some s ↦ some (record y { kernel = s; send = take_arm })
  ]
  send_at take_arm y =
      if ltb 0 (k.tokens test_arm_sem y.kernel)
      then some (record y { kernel = k.k_sem_take test_arm_sem y.kernel; send = send_reset })
      else none
  send_at send_reset y = some (record y { trace = Mark.reset ∷ y.trace; send = send_start })
  send_at send_start y =
      let v = counter y.trace in
      some (record y { test_start_time = v; trace = Mark.start v ∷ y.trace; send = send_put })
  send_at send_put y =
      let o = uses.sender_object y.active in
      if k.has_room o y.kernel
      then some (record y { kernel = k.put o y.kernel; send = take_arm })
      else if uses.put_fails
      then some (record y { send = take_arm })
      else none

  unfoldable pub t_send : System S → Option (System S)
  unfolding send_at
  t_send y = send_at y.send y

  recv_at : RecvPc → System S → Option (System S)
  recv_at take_recv y =
      if ltb 0 (k.tokens test_recv_sem y.kernel)
      then some (record y { kernel = k.k_sem_take test_recv_sem y.kernel; recv = recv_get })
      else none
  recv_at recv_get y =
      let o = uses.receiver_object y.active in
      if ltb 0 (k.sent o y.kernel)
      then some (record y { kernel = k.get o y.kernel; recv = recv_stop })
      else none
  recv_at recv_stop y =
      let v = counter y.trace in
      some (record y { test_stop_time = v; trace = Mark.stop v ∷ y.trace; recv = take_recv })

  unfoldable pub t_recv : System S → Option (System S)
  unfolding recv_at
  t_recv y = recv_at y.recv y

  arm_at : ArmPc → System S → Option (System S)
  arm_at arm_wait y = elim (k.k_event_wait_safe (start_event_mask d) y.kernel) [
    | none ↦ none
    | some s ↦ some (record y { kernel = s; arm = begin_step 0 })
  ]
  arm_at (begin_step step) y =
      some (record y { active = uses.choose step y.active; arm = give_recv step 0 })
  arm_at (give_recv step i) y =
      some (record y { kernel = k.k_sem_give test_recv_sem y.kernel; arm = arm_open step i })
  arm_at (arm_open step i) y =
      some (record y { trace = Mark.opened (series d step) ∷ y.trace; arm = give_arm step i })
  arm_at (give_arm step i) y =
      some (record y { kernel = k.k_sem_give test_arm_sem y.kernel; arm = arm_feed step i })
  arm_at (arm_feed step i) y = some (record y {
    trace = Mark.fed (series d step) y.test_start_time y.test_stop_time ∷ y.trace;
    arm = arm_close step i;
  })
  arm_at (arm_close step i) y =
      some (record y { trace = Mark.closed (series d step) ∷ y.trace; arm = next_round step i })
  arm_at post_done y =
      some (record y { kernel = k.k_event_post (done_event_mask d) y.kernel; arm = suspended })
  arm_at suspended y = none

  unfoldable pub t_arm : System S → Option (System S)
  unfolding arm_at
  t_arm y = arm_at y.arm y

  -- The threads, with the priorities that they are created with.
  unfoldable pub threads : System S → List (ℕ × Option (System S))
  threads y = elim d [
    | up ↦ (t_recv_prio up, t_recv y) ∷ (t_send_prio up, t_send y) ∷ (t_arm_prio, t_arm y) ∷ []
    | down ↦
        (t_send_prio down, t_send y) ∷ (t_recv_prio down, t_recv y) ∷ (t_arm_prio, t_arm y) ∷ []
  ]

abbrev pub continue {ℓ} : {A B : Type ℓ} → Option A → (A → Option B) → Option B
continue none f = none
continue (some a) f = f a

-- `n` statements of the threads, in the order that the scheduler picks; `none` where none can run.
unfoldable pub run :
    {S : Type 0}
    → Scheduler (System S)
    → (System S → List (ℕ × Option (System S)))
    → ℕ
    → System S
    → Option (System S)
run next ts zero y = some y
run next ts (suc n) y = continue (next (ts y)) (λ y'. run next ts n y')
