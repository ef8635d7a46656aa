-- ===== src/Prelude/Bounded.antt =====
-- A Boolean test of every number below a bound, to settle a finite claim by computing.
use Prim.Native.Nat.{ℕ, zero, suc, ◌<◌, ◌≤◌}
use mathlib.Core.Path.{◌≡◌}
use mathlib.Core.Logic.{◌⊎◌, inl, inr}
use mathlib.Core.Bool.{Bool, true, ◌&&◌}
use native.Mathlib.Omega.{arith}
use zephyr_kernel_bm_tuc_hms.Prelude.Tests.{leb}

abbrev pub all_below : ℕ → (ℕ → Bool) → Bool
all_below zero p = true
all_below (suc n) p = let rest = all_below n p in p n && rest

pub lt_split : (j n : ℕ) → j < suc n → (j < n) ⊎ (j ≡ n)
lt_split j n h = ground arith

pub &&_left : (a b : Bool) → (a && b) ≡ true → a ≡ true
&&_left a b h = ground arith

pub &&_right : (a b : Bool) → (a && b) ≡ true → b ≡ true
&&_right a b h = ground arith

pub leb_le : (a b : ℕ) → leb a b ≡ true → a ≤ b
leb_le a b h = ground arith

pub all_below-at : (n : ℕ) (p : ℕ → Bool) → all_below n p ≡ true → (i : ℕ) → i < n → p i ≡ true
all_below-at zero p h i l = ground arith
all_below-at (suc n) p h i l = elim (lt_split i n l) [
  | inl m ↦ all_below-at n p (&&_right (p n) (all_below n p) h) i m
  | inr e ↦ rw e (&&_left (p n) (all_below n p) h)
]
