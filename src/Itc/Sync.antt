-- ===== src/Itc/Sync.antt =====
-- What src/itc/pipe/pipe_sync.c and src/itc/mailbox/mailbox_sync.c share: their series, the end of I_Task,
-- and what a transaction leaves.
use zephyr_kernel_bm_tuc_hms.Prelude.{
  ℕ, zero, suc, ◌+◌, ◌*◌, ◌%◌, ◌^◌, ◌<◌, ◌≤◌, ◌≡◌, refl, ◌∙◌, ap, arith, Bool, true, false, not,
  ◌&&◌, List, [], ◌∷◌, Option, some, ◌==◌, if◌then◌else◌,
}
use zephyr_kernel_bm_tuc_hms.Window.{Mark, Series}
use zephyr_kernel_bm_tuc_hms.Itc.Handover.{Direction, up, down}
use zephyr_kernel_bm_tuc_hms.Scenario.Kernel.{Task, slot_1, slot_2, slot_3, slot_4, idle}
use zephyr_kernel_bm_tuc_hms.Scenario.Program.{
  Call, Program, finished, ◌⨾◌, while_true, Programs, Board,
}
use zephyr_kernel_bm_tuc_hms.Scenario.Refine.{Ranked}
use zephyr_kernel_bm_tuc_hms.Scenario.Rounds.{Seen}
use zephyr_kernel_bm_tuc_hms.Scenario.TwoStops.{Capture, earlier, later, double_window}
pub mod Course
pub mod Complete
pub mod Samples

-- A series takes the stop of the receiver, or the one of the sender after the rendezvous.
pub data Marker : Type 0 where
  direct : Marker
  rendezvous : Marker

-- send_to_higher_prio[step], send_to_lower_prio[step], rendezvous_to_higher_prio[step] and
-- rendezvous_to_lower_prio[step], numbered.
abbrev pub sync_series : Marker → Direction → ℕ → Series
sync_series direct up step = 4 * step
sync_series direct down step = 4 * step + 1
sync_series rendezvous up step = 4 * step + 2
sync_series rendezvous down step = 4 * step + 3

-- The marker that is captured first is the one of the thread of the higher priority.
abbrev pub capture_of : Marker → Direction → Capture
capture_of direct up = earlier
capture_of direct down = later
capture_of rendezvous up = later
capture_of rendezvous down = earlier

-- A transaction in step `step`: the two markers, in the order of the priorities.
abbrev pub meeting : Board → Direction → ℕ → Seen → Seen
meeting b up step w =
    let s = sync_series direct up step in
    let r = sync_series rendezvous up step in
    let ms = Mark.reset ∷ Mark.opened r ∷ Mark.opened s ∷ w.trace in
    let a = b.counter ms in
    let d = b.counter (Mark.start a ∷ ms) in
    let z = b.counter (Mark.stop d ∷ Mark.start a ∷ ms) in
    record w {
      last_start = a;
      last_stop = d;
      last_rendezvous = z;
      trace = double_window s r a d z d z w.trace;
    }
meeting b down step w =
    let s = sync_series direct down step in
    let r = sync_series rendezvous down step in
    let ms = Mark.reset ∷ Mark.opened r ∷ Mark.opened s ∷ w.trace in
    let a = b.counter ms in
    let z = b.counter (Mark.start a ∷ ms) in
    let d = b.counter (Mark.stop z ∷ Mark.start a ∷ ms) in
    record w {
      last_start = a;
      last_stop = d;
      last_rendezvous = z;
      trace = double_window s r a z d d z w.trace;
    }

abbrev pub sync_done_mask : Direction → ℕ
sync_done_mask up = 0x0020
sync_done_mask down = 0x0040

abbrev pub sync_start_mask : Direction → ℕ
sync_start_mask up = 0x0002
sync_start_mask down = 0x0004

-- The threads of a direction, in the order of their priorities: the receiver, the sender and the releaser upward, the
-- sender, the receiver and the releaser downward.
abbrev pub sync_priority : Task → ℕ
sync_priority slot_1 = 2
sync_priority slot_2 = 3
sync_priority slot_3 = 4
sync_priority slot_4 = 5
sync_priority idle = 15

pub sync_priority-Ranked : Ranked sync_priority
sync_priority-Ranked = record {
  order_1 = omega arith;
  order_2 = omega arith;
  order_3 = omega arith;
  order_4 = omega arith;
}

-- The numbers of the C functions of the threads.
abbrev pub send_entry : Direction → ℕ
send_entry up = 0
send_entry down = 3

abbrev pub recv_entry : Direction → ℕ
recv_entry up = 1
recv_entry down = 4

abbrev pub arm_entry : Direction → ℕ
arm_entry up = 2
arm_entry down = 5

-- The loop of I_Task that adds up the outliers, `n` steps from `step` on.
abbrev pub add_outliers_from : ℕ → ℕ → Program → Program
add_outliers_from zero step rest = rest
add_outliers_from (suc n) step rest =
    Call.add_outliers (sync_series direct up step)
    ⨾ Call.add_outliers (sync_series direct down step)
    ⨾ Call.add_outliers (sync_series rendezvous up step)
    ⨾ Call.add_outliers (sync_series rendezvous down step)
    ⨾ add_outliers_from n (suc step) rest

abbrev pub signal_loop : Program
signal_loop = while_true (Call.signalize_outlier_count ∷ [])

-- What that loop makes of an outlier_count of `o`.
abbrev pub outliers_added : Board → List Mark → ℕ → ℕ → ℕ → ℕ
outliers_added b ms zero step o = o
outliers_added b ms (suc n) step o =
    let p = (o + b.outliers (sync_series direct up step) ms) % 2 ^ 32 in
    let q = (p + b.outliers (sync_series direct down step) ms) % 2 ^ 32 in
    let r = (q + b.outliers (sync_series rendezvous up step) ms) % 2 ^ 32 in
    let s = (r + b.outliers (sync_series rendezvous down step) ms) % 2 ^ 32 in
    outliers_added b ms n (suc step) s

-- Whether none of the series of these steps has an outlier.
abbrev pub no_sync_outliers : Board → List Mark → ℕ → ℕ → Bool
no_sync_outliers b ms zero step = true
no_sync_outliers b ms (suc n) step =
    (b.outliers (sync_series direct up step) ms == 0)
    && (b.outliers (sync_series direct down step) ms == 0)
    && (b.outliers (sync_series rendezvous up step) ms == 0)
    && (b.outliers (sync_series rendezvous down step) ms == 0)
    && no_sync_outliers b ms n (suc step)

abbrev pub sync_verdict : Board → List Mark → Option Bool
sync_verdict b ms = if not (outliers_added b ms 9 0 0 == 0) then some false else some true

four_added :
    (o p q r s : ℕ)
    → p ≤ 50000
    → q ≤ 50000
    → r ≤ 50000
    → s ≤ 50000
    → o + 200000 < 2 ^ 32
    → ((((o + p) % 2 ^ 32 + q) % 2 ^ 32 + r) % 2 ^ 32 + s) % 2 ^ 32 ≡ o + (p + (q + (r + s)))
four_added o p q r s hp hq hr hs l = omega arith

five_zero :
    (o p q r s : ℕ) (c : Bool)
    → ((o + (p + (q + (r + s))) == 0) && c)
      ≡ ((o == 0) && ((p == 0) && (q == 0) && (r == 0) && (s == 0) && c))
five_zero o p q r s c = ground arith

-- Where no series has more outliers than samples, the sum does not wrap: it is 0 only if all are.
pub outliers_added-zero :
    (b : Board) (ms : List Mark)
    → ((s : Series) → b.outliers s ms ≤ 50000)
    → (n step o : ℕ) → o + 200000 * n < 2 ^ 32
    → (outliers_added b ms n step o == 0) ≡ ((o == 0) && no_sync_outliers b ms n step)
outliers_added-zero b ms h zero step o l = ground arith
outliers_added-zero b ms h (suc n) step o l =
    let p = b.outliers (sync_series direct up step) ms in
    let q = b.outliers (sync_series direct down step) ms in
    let r = b.outliers (sync_series rendezvous up step) ms in
    let s = b.outliers (sync_series rendezvous down step) ms in
    let hp : p ≤ 50000 = h (sync_series direct up step) in
    let hq : q ≤ 50000 = h (sync_series direct down step) in
    let hr : r ≤ 50000 = h (sync_series rendezvous up step) in
    let hs : s ≤ 50000 = h (sync_series rendezvous down step) in
    ap (λ z. outliers_added b ms n (suc step) z == 0)
      (four_added o p q r s hp hq hr hs (omega arith))
    ∙ outliers_added-zero b ms h n (suc step) (o + (p + (q + (r + s)))) (omega arith)
    ∙ five_zero o p q r s (no_sync_outliers b ms n (suc step))
