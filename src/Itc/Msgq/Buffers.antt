-- ===== src/Itc/Msgq/Buffers.antt =====
-- src/itc/msgq/msgq.c: the slices of a direction's storage that the queues of the sweep get.
use zephyr_kernel_bm_tuc_hms.Prelude.{
  ℕ, arith, ◌+◌, ◌-◌, ◌*◌, ◌%◌, ◌^◌, ◌<◌, ◌≤◌, ◌≡◌, refl, Bool, true, ◌&&◌, ◌==◌, leb, ==_iff,
  all_below, all_below-at, &&_left, &&_right, leb_le,
}
use zephyr_kernel_bm_tuc_hms.Itc.Handover.{message_size_steps}

abbrev pub message_size_min : ℕ
message_size_min = 4

abbrev pub msgq_max_msgs : ℕ
msgq_max_msgs = 1

-- (size_t) (MESSAGE_SIZE_MIN << step)
unfoldable pub message_size : ℕ → ℕ
message_size step = (message_size_min * 2 ^ step) % 2 ^ 32

unfoldable pub message_size_max : ℕ
unfolding message_size
message_size_max = message_size (message_size_steps - 1)

unfoldable pub msgq_buffer_size : ℕ
msgq_buffer_size =
    ((message_size_min * (2 ^ message_size_steps - 1)) % 2 ^ 32 * msgq_max_msgs) % 2 ^ 32

-- `2U << step` is at most `1U << MESSAGE_SIZE_STEPS` at every step of the sweep.
unfoldable pub msgq_buffer_offset : ℕ → ℕ
msgq_buffer_offset step =
    ((message_size_min * (2 ^ message_size_steps - (2 * 2 ^ step) % 2 ^ 32))
      % 2 ^ 32
      * msgq_max_msgs)
    % 2 ^ 32

-- The end of the storage that k_msgq_init() is given at a step.
unfoldable pub slice_end : ℕ → ℕ
unfolding message_size msgq_buffer_offset
slice_end step = msgq_buffer_offset step + message_size step * msgq_max_msgs

abbrev slice_ok : ℕ → Bool
unfolding slice_end msgq_buffer_size
slice_ok step =
    leb (slice_end step) msgq_buffer_size
    && ((msgq_buffer_offset step % message_size step == 0)
        && (leb (message_size step) message_size_max
            && all_below step (λ before. leb (slice_end step) (msgq_buffer_offset before))))

slices_ok : all_below message_size_steps slice_ok ≡ true
unfolding slice_ok message_size_max
slices_ok = refl

-- The slice of a step lies within the storage, starts at a multiple of its message size, and its
-- message fits the transmit and receive buffers.
pub record IsSliced (step : ℕ) : Type 0 where
  pub within : slice_end step ≤ msgq_buffer_size
  pub aligned : msgq_buffer_offset step % message_size step ≡ 0
  pub fits : message_size step ≤ message_size_max

slice_ok-IsSliced : (step : ℕ) → slice_ok step ≡ true → IsSliced step
unfolding slice_ok
slice_ok-IsSliced step ok =
    let aligned = &&_right (leb (slice_end step) msgq_buffer_size) _ ok in
    let fits = &&_right (msgq_buffer_offset step % message_size step == 0) _ aligned in
    record {
      within = leb_le (slice_end step) msgq_buffer_size (&&_left _ _ ok);
      aligned = (==_iff (msgq_buffer_offset step % message_size step) 0).0 (&&_left _ _ aligned);
      fits = leb_le (message_size step) message_size_max (&&_left _ _ fits);
    }

slice_ok-before :
    (step before : ℕ)
    → before < step
    → slice_ok step ≡ true
    → slice_end step ≤ msgq_buffer_offset before
unfolding slice_ok
slice_ok-before step before b ok =
    let aligned = &&_right (leb (slice_end step) msgq_buffer_size) _ ok in
    let fits = &&_right (msgq_buffer_offset step % message_size step == 0) _ aligned in
    leb_le (slice_end step) (msgq_buffer_offset before) (
      all_below-at step (λ i. leb (slice_end step) (msgq_buffer_offset i))
        (&&_right (leb (message_size step) message_size_max) _ fits) before b)

-- The slice of every step of the sweep, the first and the last included, lies within the storage and
-- starts at a multiple of its message size, and its message fits the transmit and receive buffers; of
-- any two steps, the slice of the later one ends before that of the earlier one begins.
pub slices_apart :
    (step before : ℕ)
    → step < message_size_steps
    → before < step
    → IsSliced step × IsSliced before × (slice_end step ≤ msgq_buffer_offset before)
slices_apart step before l b =
    let ok = all_below-at message_size_steps slice_ok slices_ok step l in
    let earlier = all_below-at message_size_steps slice_ok slices_ok before (omega (arith, l, b)) in
    (slice_ok-IsSliced step ok, slice_ok-IsSliced before earlier, slice_ok-before step before b ok)
