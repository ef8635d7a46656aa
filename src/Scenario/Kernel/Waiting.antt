-- ===== src/Scenario/Kernel/Waiting.antt =====
-- The threads of a test, and which of them wait for the event object `test_event`, for the tests in
-- which one k_event_post() is to wake two threads.
use zephyr_kernel_bm_tuc_hms.Prelude.{ℕ, ◌-◌, ◌==◌, if◌then◌else◌, bit_and}

-- The threads of a test, in the order of their priorities.
pub data Task : Type 0 where
  slot_1 : Task
  slot_2 : Task
  slot_3 : Task
  slot_4 : Task
  idle : Task

-- How a thread stands to the event object.
pub data Wait : Type 0 where
  elsewhere : Wait
  wants : ℕ → Wait  -- pends for one of these bits
  woken : Wait

pub record Waits : Type 0 where
  pub wait_1 : Wait
  pub wait_2 : Wait
  pub wait_3 : Wait
  pub wait_4 : Wait
  pub idle_wait : Wait

abbrev pub nobody : Waits
nobody = record {
  wait_1 = elsewhere;
  wait_2 = elsewhere;
  wait_3 = elsewhere;
  wait_4 = elsewhere;
  idle_wait = elsewhere;
}

abbrev pub wait_of : Task → Waits → Wait
wait_of slot_1 ws = ws.wait_1
wait_of slot_2 ws = ws.wait_2
wait_of slot_3 ws = ws.wait_3
wait_of slot_4 ws = ws.wait_4
wait_of idle ws = ws.idle_wait

abbrev pub set_wait : Task → Wait → Waits → Waits
set_wait slot_1 a ws = record ws { wait_1 = a }
set_wait slot_2 a ws = record ws { wait_2 = a }
set_wait slot_3 a ws = record ws { wait_3 = a }
set_wait slot_4 a ws = record ws { wait_4 = a }
set_wait idle a ws = record ws { idle_wait = a }

-- A thread that finds a bit it wants is woken; all are compared with the same bits.
abbrev wake : ℕ → Wait → Wait
wake events (wants m) = if bit_and events m == 0 then wants m else woken
wake events a = a

abbrev pub wake_all : ℕ → Waits → Waits
wake_all events ws = record {
  wait_1 = wake events ws.wait_1;
  wait_2 = wake events ws.wait_2;
  wait_3 = wake events ws.wait_3;
  wait_4 = wake events ws.wait_4;
  idle_wait = wake events ws.idle_wait;
}

-- What the bits `e` are without those that a thread takes.
abbrev unclaimed : Wait → ℕ → ℕ
unclaimed (wants m) e = e - bit_and e m
unclaimed a e = e

abbrev pub unclaimed_by_all : Waits → ℕ → ℕ
unclaimed_by_all ws e =
    unclaimed ws.wait_1
      (unclaimed ws.wait_2 (unclaimed ws.wait_3 (unclaimed ws.wait_4 (unclaimed ws.idle_wait e))))
