-- ===== src/Scenario/Kernel/State.antt =====
-- The view of a kernel: the counts of the semaphores, the posted events and who waits for them, what
-- is in the pipes and mailboxes, the interrupt line, and which threads can run.
use zephyr_kernel_bm_tuc_hms.Prelude.{
  ℕ, ◌+◌, ◌-◌, Bool, true, false, Option, none, some, List, [], ◌∷◌, ◌++◌, ◌==◌, ltb, leb,
  if◌then◌else◌, bit_and,
}
use zephyr_kernel_bm_tuc_hms.Itc.Kernel.{SemPtr, test_arm_sem, test_recv_sem}
use zephyr_kernel_bm_tuc_hms.Scenario.Kernel.Line.{IrqLine}
use zephyr_kernel_bm_tuc_hms.Scenario.Kernel.RingLess.{Transfer}
use zephyr_kernel_bm_tuc_hms.Scenario.Kernel.Waiting.{
  Task, slot_1, slot_2, slot_3, slot_4, idle, Wait, elsewhere, wants, woken, Waits, set_wait,
  wake_all, unclaimed_by_all,
}

-- The message objects of a test of src/itc.
pub data Object : Type 0 where
  test_self : Object
  test_high : Object
  test_low : Object

pub data Status : Type 0 where
  absent : Status
  ready : Status
  stopped : Status

-- What is in a pipe and how much it holds, in bytes, and the sizes of the messages in a mailbox.
pub record Channel : Type 0 where
  pub bytes : ℕ
  pub capacity : ℕ
  pub messages : List ℕ

-- The two semaphores and the objects of a test of src/itc, `transfer` being in test_pipe; the bits in
-- test_release_event and TEST_IRQ_LINE of src/irt.
pub record Mail : Type 0 where
  pub arm_count : ℕ
  pub recv_count : ℕ
  pub self_object : Channel
  pub high_object : Channel
  pub low_object : Channel
  pub transfer : Transfer
  pub released : ℕ
  pub line : IrqLine

abbrev pub channel : Object → Mail → Channel
channel test_self m = m.self_object
channel test_high m = m.high_object
channel test_low m = m.low_object

abbrev pub set_channel : Object → Channel → Mail → Mail
set_channel test_self c m = record m { self_object = c }
set_channel test_high c m = record m { high_object = c }
set_channel test_low c m = record m { low_object = c }

abbrev pub gate : SemPtr → Mail → ℕ
gate test_arm_sem m = m.arm_count
gate test_recv_sem m = m.recv_count

abbrev pub set_gate : SemPtr → ℕ → Mail → Mail
set_gate test_arm_sem n m = record m { arm_count = n }
set_gate test_recv_sem n m = record m { recv_count = n }

-- A write waits until all its bytes fit, a read until there are some, of which it takes what it can.
abbrev pub written : ℕ → Channel → Option Channel
written n c = if leb (c.bytes + n) c.capacity then some (record c { bytes = c.bytes + n }) else none

abbrev pub read_from : ℕ → Channel → Option Channel
read_from n c = if ltb 0 c.bytes then some (record c { bytes = c.bytes - n }) else none

abbrev pub put_in : ℕ → Channel → Channel
put_in n c = record c { messages = c.messages ++ (n ∷ []) }

abbrev pub unread : List ℕ → Channel → Option Channel
unread [] c = some c
unread (n ∷ ns) c = none

abbrev pub got : List ℕ → Channel → Option Channel
got [] c = none
got (n ∷ ns) c = some (record c { messages = ns })

pub record View : Type 0 where
  pub count : ℕ
  pub mail : Mail
  pub events : ℕ
  pub waits : Waits
  pub status_1 : Status
  pub status_2 : Status
  pub status_3 : Status
  pub status_4 : Status
  pub idle_status : Status

abbrev pub status : Task → View → Status
status slot_1 v = v.status_1
status slot_2 v = v.status_2
status slot_3 v = v.status_3
status slot_4 v = v.status_4
status idle v = v.idle_status

abbrev pub set_status : Task → Status → View → View
set_status slot_1 s v = record v { status_1 = s }
set_status slot_2 s v = record v { status_2 = s }
set_status slot_3 s v = record v { status_3 = s }
set_status slot_4 s v = record v { status_4 = s }
set_status idle s v = record v { idle_status = s }

abbrev pub after_suspend : Status → Status
after_suspend ready = stopped
after_suspend s = s

abbrev pub after_resume : Status → Status
after_resume stopped = ready
after_resume s = s

abbrev pub is_ready : Status → Bool
is_ready ready = true
is_ready _ = false

-- A wait takes the bits that it finds of those it asks for.
abbrev pub found : ℕ → View → ℕ
found mask v = bit_and v.events mask

abbrev pub taken : ℕ → View → View
taken mask v = record v { events = v.events - found mask v }

abbrev pub on_channel : Object → View → Option Channel → Option View
on_channel o v none = none
on_channel o v (some c) = some (record v { mail = set_channel o c v.mail })

-- Of the threads that wait, those that find a bit take it; the others find what is left.
abbrev pub post : ℕ → View → View
post e v = record v { events = unclaimed_by_all v.waits e; waits = wake_all e v.waits }

abbrev pub begin_wait : Task → ℕ → View → View
begin_wait t mask v =
    if found mask v == 0
    then record v { waits = set_wait t (wants mask) v.waits }
    else record (taken mask v) { waits = set_wait t woken v.waits }

abbrev pub end_wait : Task → Wait → View → Option View
end_wait t woken v = some (record v { waits = set_wait t elsewhere v.waits })
end_wait t a v = none

abbrev pub on_transfer : View → Option Transfer → Option View
on_transfer v none = none
on_transfer v (some t) = some (record v { mail = record v.mail { transfer = t } })

abbrev pub in_line : View → Option IrqLine → Option View
in_line v none = none
in_line v (some l) = some (record v { mail = record v.mail { line = l } })

abbrev pub released_bits : ℕ → View → ℕ
released_bits mask v = bit_and v.mail.released mask
