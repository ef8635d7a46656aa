-- ===== src/Sim/Main.antt =====
-- main() of the tests under src/task_switching, around the probes of their zephyr_sim.c: the harness is set up
-- first, and I_Task created last.
use zephyr_kernel_bm_tuc_hms.Prelude.{
  ℕ, ◌+◌, ◌≡◌, ◌≢◌, refl, arith, true, false, [], ◌∷◌, Option, none, some, ◌==◌, if◌then◌else◌,
}
use zephyr_kernel_bm_tuc_hms.Window.{Series, IsSampled, phase, samples}
use zephyr_kernel_bm_tuc_hms.Sim.Machine.{
  cross_functions_file_scope_vars, inside_function_file_scope_vars, Action, Trace, Env, World, M,
  ◌>>=◌, ◌>>◌, pure, gets, act, Ensures, marks,
}
use zephyr_kernel_bm_tuc_hms.Sim.Calls.{mseries_initialize, signalize_jitter_detected}
use zephyr_kernel_bm_tuc_hms.Sim.Probe.{Measured, Ensures-and_then}
use zephyr_kernel_bm_tuc_hms.Scenario.Program.{scenario_a, scenario_b}

-- What every main() does first. The read overhead that BMTH_check_read_validity() stores is never read.
unfoldable pub set_up : Env → {F : Type 0} → M F (Unit {0})
set_up env = do
  act (Action.hardware_init true)
  act Action.enable_counters
  act Action.disable_sys_tick
  valid ← gets (λ w. env.read_valid w.trace)
  if valid then pure tt else signalize_jitter_detected
  mseries_initialize scenario_a cross_functions_file_scope_vars
  mseries_initialize scenario_b inside_function_file_scope_vars

-- And last.
unfoldable pub hand_over : {F : Type 0} → M F (Unit {0})
hand_over = do act Action.signalize_mseries_start; act Action.create_idle_thread

-- Every series has had as many samples as `c` says, each from a window of its own, and all windows are shut.
abbrev pub Counts : {F : Type 0} → (Series → ℕ) → World F → Type 0
Counts c w = (r : Series) → IsSampled r (c r) (marks w.trace)

abbrev pub plus : ℕ → Series → (Series → ℕ) → Series → ℕ
plus n s c r = if r == s then c r + n else c r

-- `c` is what the series have had, and I_Task was created last, behind the start signal.
pub record Prepared (c : Series → ℕ) {F : Type 0} (w : World F) : Type 0 where
  pub counts : Counts c w
  pub earlier : Trace
  pub created_last : w.trace ≡ Action.create_idle_thread ∷ Action.signalize_mseries_start ∷ earlier

Ensures-all :
    {F A B : Type 0} (P : B → A → World F → Type 0) (b : B) (r : Option (A × World F))
    → ((b : B) → Ensures (P b) r)
    → Ensures (λ a w. (b : B) → P b a w) r
Ensures-all P b none h = h b
Ensures-all P b (some (a, w)) h = h

pub Ensures-both :
    {F A : Type 0} (P Q : A → World F → Type 0) (r : Option (A × World F))
    → Ensures P r
    → Ensures Q r
    → Ensures (λ a w. P a w × Q a w) r
Ensures-both P Q none h g = h
Ensures-both P Q (some (a, w)) h g = (h, g)

pub Ensures-weaken :
    {F A : Type 0} (P Q : A → World F → Type 0) (r : Option (A × World F))
    → Ensures P r
    → ((a : A) (w : World F) → P a w → Q a w)
    → Ensures Q r
Ensures-weaken P Q none h g = h
Ensures-weaken P Q (some (a, w)) h g = g a w h

-- A probe of one series, for all series.
pub probe-Counts :
    {F : Type 0} (s n : ℕ) (probe : M F (Unit {0})) (c : Series → ℕ) (w : World F)
    → ((k r m : ℕ)
        → r ≢ s
        → IsSampled s k (marks w.trace)
        → IsSampled r m (marks w.trace)
        → Ensures (λ _ w'. Measured s k n r m w') (probe w))
    → Counts c w
    → Ensures (λ _ w'. Counts (plus n s c) w') (probe w)
probe-Counts s n probe c w h counts =
    Ensures-all (λ r _ w'. IsSampled r (plus n s c r) (marks w'.trace)) s (probe w)
      (λ r.
        elim (r == s)
            as (λ t.
              (r == s) ≡ t
              → Ensures (λ _ w'. IsSampled r (if t then c r + n else c r) (marks w'.trace))
                  (probe w)) [
                    | true ↦ λ e.
                        let d : r ≡ s = ground arith in
                        let x : s + 1 ≢ s = λ q. omega (arith, q) in
                        rw d (
                          Ensures-weaken (λ _ w'. Measured s (c s) n (s + 1) (c (s + 1)) w') _
                            (probe w) (h (c s) (s + 1) (c (s + 1)) x (counts s) (counts (s + 1)))
                            (λ _ _ g. g.sampled))
                    | false ↦ λ e.
                        let x : r ≢ s = λ q. ground arith in
                        Ensures-weaken (λ _ w'. Measured s (c s) n r (c r) w') _ (probe w)
                          (h (c s) r (c r) x (counts s) (counts r)) (λ _ _ g. g.beside)
                  ]
          refl)

-- The set-up feeds nothing.
pub record SetUp {F : Type 0} (w w' : World F) : Type 0 where
  pub unfed : Counts (λ _. 0) w'
  pub same_cache : w'.ready_cache ≡ w.ready_cache
  pub same_file : w'.file ≡ w.file

pub set_up-SetUp :
    (env : Env) {F : Type 0} (w : World F)
    → w.trace ≡ []
    → Ensures (λ _ w'. SetUp w w') (set_up env w)
unfolding set_up marks phase samples
set_up-SetUp env w h = ground arith

pub hand_over-Prepared :
    {F : Type 0} (c : Series → ℕ) (w : World F)
    → Counts c w
    → Ensures (λ _ w'. Prepared c w') (hand_over w)
unfolding hand_over marks
hand_over-Prepared c w h = record { counts = h; earlier = w.trace; created_last = refl }

pub Ensures-first :
    {F A : Type 0} (P Q : A → World F → Type 0) (r : Option (A × World F))
    → Ensures (λ a w. P a w × Q a w) r
    → Ensures P r
Ensures-first P Q none h = h
Ensures-first P Q (some (a, w)) h = h.0

pub Ensures-any :
    {F A : Type 0} (P Q : A → World F → Type 0) (r : Option (A × World F))
    → Ensures (λ a w. P a w × Q a w) r
    → Ensures (λ a w. P a w × Unit {0}) r
Ensures-any P Q none h = h
Ensures-any P Q (some (a, w)) h = (h.0, tt)

-- A main() with three probes.
unfoldable pub with_probes : Env → {F : Type 0} → (m1 m2 m3 : M F (Unit {0})) → M F (Unit {0})
with_probes env m1 m2 m3 = do set_up env; m1; m2; m3; hand_over

abbrev pub fed_by_probes : (s1 s2 s3 n : ℕ) → Series → ℕ
fed_by_probes s1 s2 s3 n = plus n s3 (plus n s2 (plus n s1 (λ _. 0)))

-- A probe adds `n` samples to series `s` and none to another, and leaves a state with `R`.
abbrev pub Gives : {F : Type 0} → (World F → Type 0) → ℕ → ℕ → M F (Unit {0}) → World F → Type 0
Gives R s n probe w =
    (k r m : ℕ)
    → r ≢ s
    → IsSampled s k (marks w.trace)
    → IsSampled r m (marks w.trace)
    → Ensures (λ _ w'. Measured s k n r m w' × R w') (probe w)

Gives-Counts :
    {F : Type 0} (R : World F → Type 0) (s n : ℕ) (probe : M F (Unit {0})) (c : Series → ℕ)
    (w : World F)
    → Gives R s n probe w
    → Counts c w
    → Ensures (λ _ w'. Counts (plus n s c) w' × R w') (probe w)
Gives-Counts R s n probe c w h counts =
    let x : s + 1 ≢ s = λ q. omega (arith, q) in
    Ensures-both (λ _ w'. Counts (plus n s c) w') (λ _ w'. R w') (probe w)
      (probe-Counts s n probe c w
        (λ k r m a i j.
          Ensures-first (λ _ w'. Measured s k n r m w') (λ _ w'. R w') (probe w) (h k r m a i j))
        counts)
      (Ensures-weaken (λ _ w'. Measured s (c s) n (s + 1) (c (s + 1)) w' × R w') (λ _ w'. R w')
        (probe w) (h (c s) (s + 1) (c (s + 1)) x (counts s) (counts (s + 1))) (λ _ _ g. g.1))

module _ (env : Env) {F : Type 0} (s1 s2 s3 n : ℕ) (m1 m2 m3 : M F (Unit {0}))
    (R1 R2 R3 R4 : World F → Type 0) where
  -- Each probe leaves what the next one needs.
  pub with_probes-Prepared :
      (w : World F)
      → w.trace ≡ []
      → ((w1 : World F) → SetUp w w1 → R1 w1)
      → ((w1 : World F) → R1 w1 → Gives R2 s1 n m1 w1)
      → ((w2 : World F) → R2 w2 → Gives R3 s2 n m2 w2)
      → ((w3 : World F) → R3 w3 → Gives R4 s3 n m3 w3)
      → Ensures (λ _ w'. Prepared (fed_by_probes s1 s2 s3 n) w') (with_probes env m1 m2 m3 w)
  unfolding with_probes
  with_probes-Prepared w first r1 g1 g2 g3 =
      let c1 = plus n s1 (λ _. 0) in
      let c2 = plus n s2 c1 in
      let c3 = plus n s3 c2 in
      Ensures-and_then (λ _ w1. SetUp w w1) (λ _ w'. Prepared c3 w') (set_up env w) _
        (set_up-SetUp env w first)
        λ _ w1 h1.
          Ensures-and_then (λ _ w2. Counts c1 w2 × R2 w2) (λ _ w'. Prepared c3 w') (m1 w1) _
            (Gives-Counts R2 s1 n m1 (λ _. 0) w1 (g1 w1 (r1 w1 h1)) h1.unfed)
            λ _ w2 h2.
              Ensures-and_then (λ _ w3. Counts c2 w3 × R3 w3) (λ _ w'. Prepared c3 w') (m2 w2) _
                (Gives-Counts R3 s2 n m2 c1 w2 (g2 w2 h2.1) h2.0)
                λ _ w3 h3.
                  Ensures-and_then (λ _ w4. Counts c3 w4 × R4 w4) (λ _ w'. Prepared c3 w') (m3 w3) _
                    (Gives-Counts R4 s3 n m3 c2 w3 (g3 w3 h3.1) h3.0)
                    (λ _ w4 h4. hand_over-Prepared c3 w4 h4.0)
