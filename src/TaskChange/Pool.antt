-- ===== src/TaskChange/Pool.antt =====
-- A claim on the sizes of the dummy pool of task_change, one size after the other.
use zephyr_kernel_bm_tuc_hms.Prelude.{ℕ, zero, suc, ◌<◌, arith}

-- A claim on each size of the pool.
pub below_five : (P : ℕ → Type 0) → P 0 → P 1 → P 2 → P 3 → P 4 → (n : ℕ) → n < 5 → P n
below_five P a b c d e zero l = a
below_five P a b c d e (suc zero) l = b
below_five P a b c d e (suc (suc zero)) l = c
below_five P a b c d e (suc (suc (suc zero))) l = d
below_five P a b c d e (suc (suc (suc (suc zero)))) l = e
below_five P a b c d e (suc (suc (suc (suc (suc n))))) l = absurd (omega arith)

pub below_four : (P : ℕ → Type 0) → P 0 → P 1 → P 2 → P 3 → (n : ℕ) → n < 4 → P n
below_four P a b c d zero l = a
below_four P a b c d (suc zero) l = b
below_four P a b c d (suc (suc zero)) l = c
below_four P a b c d (suc (suc (suc zero))) l = d
below_four P a b c d (suc (suc (suc (suc n)))) l = absurd (omega arith)

-- A claim on each dummy of it.
pub each_dummy :
    (P : ℕ → ℕ → Type 0)
    → P 1 0
    → P 2 0
    → P 2 1
    → P 3 0
    → P 3 1
    → P 3 2
    → P 4 0
    → P 4 1
    → P 4 2
    → P 4 3
    → (n i : ℕ) → i < n
    → n < 5
    → P n i
each_dummy P a b c d e f g h p q zero i l u = absurd (omega arith)
each_dummy P a b c d e f g h p q (suc zero) zero l u = a
each_dummy P a b c d e f g h p q (suc zero) (suc i) l u = absurd (omega arith)
each_dummy P a b c d e f g h p q (suc (suc zero)) zero l u = b
each_dummy P a b c d e f g h p q (suc (suc zero)) (suc zero) l u = c
each_dummy P a b c d e f g h p q (suc (suc zero)) (suc (suc i)) l u = absurd (omega arith)
each_dummy P a b c d e f g h p q (suc (suc (suc zero))) zero l u = d
each_dummy P a b c d e f g h p q (suc (suc (suc zero))) (suc zero) l u = e
each_dummy P a b c d e f g h p q (suc (suc (suc zero))) (suc (suc zero)) l u = f
each_dummy P a b c d e f g h p q (suc (suc (suc zero))) (suc (suc (suc i))) l u =
    absurd (omega arith)
each_dummy P a b c d e f g h p q (suc (suc (suc (suc zero)))) zero l u = g
each_dummy P a b c d e f g h p q (suc (suc (suc (suc zero)))) (suc zero) l u = h
each_dummy P a b c d e f g h p q (suc (suc (suc (suc zero)))) (suc (suc zero)) l u = p
each_dummy P a b c d e f g h p q (suc (suc (suc (suc zero)))) (suc (suc (suc zero))) l u = q
each_dummy P a b c d e f g h p q (suc (suc (suc (suc zero)))) (suc (suc (suc (suc i)))) l u =
    absurd (omega arith)
each_dummy P a b c d e f g h p q (suc (suc (suc (suc (suc n))))) i l u = absurd (omega arith)
