-- ===== src/Itc/Self/Laws.antt =====
-- T_Self of src/itc never pends, and every step of its sweep gets its full count of samples.
use zephyr_kernel_bm_tuc_hms.Prelude.{
  ℕ, zero, suc, ◌+◌, ◌<◌, ◌≡◌, arith, Bool, ◌&&◌, List, Option, some, ltb, leb, ◌==◌, if◌then◌else◌,
}
use zephyr_kernel_bm_tuc_hms.Window.{Mark, Series, phase, samples, IsSampled}
use zephyr_kernel_bm_tuc_hms.Itc.Kernel.{Object, Kernel, KernelDoc}
use zephyr_kernel_bm_tuc_hms.Itc.Handover.{measurement_count, message_size_steps, self_send}
use zephyr_kernel_bm_tuc_hms.Itc.Handover.States.{Then, continue-Then}
use zephyr_kernel_bm_tuc_hms.Itc.Handover.Sweep.{Then-all, Then-map}
use zephyr_kernel_bm_tuc_hms.Itc.Self.{SelfThread, self_round, self_rounds, self_steps, self_loop}

-- Between two rounds: no message is left, and a series has had its samples.
pub record Idle {S : Type 0} (k : Kernel S) (r : Series) (m : ℕ) (y : SelfThread S) : Type 0 where
  pub in_objects : (o : Object) → k.sent o y.kernel ≡ 0
  pub sampled : IsSampled r m y.trace

record IdleAt {S : Type 0} (k : Kernel S) (r : Series) (m : ℕ) (o : Object) (y : SelfThread S)
    : Type 0 where
  in_object : k.sent o y.kernel ≡ 0
  sampled : IsSampled r m y.trace

module _ {S : Type 0} (k : Kernel S) (doc : KernelDoc k) (counter : List Mark → ℕ)
    (put_fails forever : Bool) (object : ℕ → Object) where
  round_at :
      (s r : Series) (m : ℕ) (o o' : Object) (y : SelfThread S)
      → Idle k r m y
      → Then
          (IdleAt k r (m + (if r == s then 1 else 0)) o')
          (self_round k counter put_fails forever object s o y)
  unfolding self_round phase samples
  round_at s r m o o' y h = ground (
    arith,
    h.sampled,
    h.in_objects o,
    h.in_objects o',
    doc.empty_has_room o y.kernel (h.in_objects o),
    doc.put_sent o o y.kernel,
    doc.put_sent o o' y.kernel,
    doc.get_sent o o' (k.put o y.kernel) 0,
  )

  self_round-Idle :
      (s r : Series) (m : ℕ) (o : Object) (y : SelfThread S)
      → Idle k r m y
      → Then
          (Idle k r (m + (if r == s then 1 else 0)))
          (self_round k counter put_fails forever object s o y)
  self_round-Idle s r m o y h =
      Then-map (λ y'. (o' : Object) → IdleAt k r (m + (if r == s then 1 else 0)) o' y') _
        (self_round k counter put_fails forever object s o y)
        (λ y' g. record { in_objects = λ o'. (g o').in_object; sampled = (g 0).sampled })
        (Then-all _ (self_round k counter put_fails forever object s o y) 0
          (λ o'. round_at s r m o o' y h))

  same_count :
      (r : Series) (m n : ℕ) (q : Option (SelfThread S))
      → m ≡ n
      → Then (Idle k r m) q
      → Then (Idle k r n) q
  same_count r m n q e h = rw (← e) h

  self_rounds-Idle :
      (n : ℕ) (s r : Series) (m : ℕ) (o : Object) (y : SelfThread S)
      → Idle k r m y
      → Then
          (Idle k r (m + (if r == s then n else 0)))
          (self_rounds k counter put_fails forever object n s o y)
  unfolding self_rounds
  self_rounds-Idle zero s r m o y h = same_count r m _ (some y) (ground arith) h
  self_rounds-Idle (suc n) s r m o y h =
      same_count r (m + (if r == s then 1 else 0) + (if r == s then n else 0)) _
        (self_rounds k counter put_fails forever object (suc n) s o y) (ground arith)
        (continue-Then (Idle k r (m + (if r == s then 1 else 0))) _
          (self_round k counter put_fails forever object s o y)
          (λ y'. self_rounds k counter put_fails forever object n s o y')
          (self_round-Idle s r m o y h)
          (λ y' g. self_rounds-Idle n s r (m + (if r == s then 1 else 0)) o y' g))

  self_steps-Idle :
      (n step j m : ℕ) (y : SelfThread S)
      → Idle k (self_send j) m y
      → Then
          (Idle k
            (self_send j)
            (m + (if leb step j && ltb j (step + n) then measurement_count else 0)))
          (self_steps k counter put_fails forever object n step y)
  unfolding self_steps
  self_steps-Idle zero step j m y h = same_count (self_send j) m _ (some y) (ground arith) h
  self_steps-Idle (suc n) step j m y h =
      same_count (self_send j)
        (m
          + (if self_send j == self_send step then measurement_count else 0)
          + (if leb (suc step) j && ltb j (suc step + n) then measurement_count else 0))
        _ (self_steps k counter put_fails forever object (suc n) step y) (ground arith)
        (continue-Then
          (Idle k (self_send j)
            (m + (if self_send j == self_send step then measurement_count else 0)))
          _
          (self_rounds k counter put_fails forever object measurement_count (self_send step)
            (object step) y)
          (λ y'. self_steps k counter put_fails forever object n (suc step) y')
          (self_rounds-Idle measurement_count (self_send step) (self_send j) m (object step) y h)
          (λ y' g. self_steps-Idle n (suc step) j _ y' g))

  -- T_Self, from a state in which every object is empty: neither its puts nor its gets ever pend,
  -- every object is left empty, and the series of every step gets exactly 50000 samples more, each
  -- timed in its own window. It does not matter whether the get may pend and whether a put to a full
  -- object would fail.
  pub self_loop-Idle :
      (step m : ℕ) (y : SelfThread S)
      → step < message_size_steps
      → Idle k (self_send step) m y
      → Then
          (Idle k (self_send step) (m + measurement_count))
          (self_loop k counter put_fails forever object y)
  unfolding self_loop
  self_loop-Idle step m y l h =
      same_count (self_send step) _ (m + measurement_count)
        (self_loop k counter put_fails forever object y) (ground arith)
        (self_steps-Idle message_size_steps 0 step m y h)
