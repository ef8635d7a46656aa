-- ===== src/Itc/Kernel.antt =====
-- What the tests of src/itc call of Zephyr: semaphores, message objects, events and the scheduler,
-- as operations on a kernel state that the development leaves open.
use zephyr_kernel_bm_tuc_hms.Prelude.{
  ℕ, suc, ◌<◌, ◌≡◌, ◌≢◌, Bool, true, Option, none, some, List, [], ◌∷◌, ◌==◌, if◌then◌else◌,
}

-- The two semaphores of a test: the sender's baton and the receiver's gate.
pub data SemPtr : Type 0 where
  test_arm_sem : SemPtr
  test_recv_sem : SemPtr

-- A message object (k_fifo, k_lifo, k_stack, k_msgq), by an identifying number.
abbrev pub Object : Type 0
Object = ℕ

-- The operations on the kernel state `S`. An operation that may pend takes effect when it returns:
-- `tokens` and `sent` count the gives that no take, and the puts that no get, has returned for yet.
pub record Kernel (S : Type 0) : Type 0 where
  pub k_sem_give : SemPtr → S → S
  pub k_sem_take : SemPtr → S → S
  pub tokens : SemPtr → S → ℕ
  pub put : Object → S → S
  pub get : Object → S → S
  pub sent : Object → S → ℕ
  pub has_room : Object → S → Bool  -- whether a put returns without pending
  pub k_event_wait_safe : ℕ → S → Option S  -- `none` while the wait pends
  pub k_event_post : ℕ → S → S

-- What Zephyr's headers document of them, as far as the tests rely on it.
pub record KernelDoc {S : Type 0} (k : Kernel S) : Type 0 where
  pub give : (p : SemPtr) (s : S) → k.tokens p s ≡ 0 → k.tokens p (k.k_sem_give p s) ≡ 1
  pub give_other : (p q : SemPtr) (s : S) → p ≢ q → k.tokens q (k.k_sem_give p s) ≡ k.tokens q s
  pub take : (p : SemPtr) (s : S) (n : ℕ) → k.tokens p s ≡ suc n → k.tokens p (k.k_sem_take p s) ≡ n
  pub take_other : (p q : SemPtr) (s : S) → p ≢ q → k.tokens q (k.k_sem_take p s) ≡ k.tokens q s
  pub give_sent : (p : SemPtr) (o : Object) (s : S) → k.sent o (k.k_sem_give p s) ≡ k.sent o s
  pub take_sent : (p : SemPtr) (o : Object) (s : S) → k.sent o (k.k_sem_take p s) ≡ k.sent o s
  pub put_sent :
      (o o' : Object) (s : S)
      → k.sent o' (k.put o s) ≡ (if o' == o then suc (k.sent o' s) else k.sent o' s)
  pub get_sent :
      (o o' : Object) (s : S) (n : ℕ)
      → k.sent o s ≡ suc n
      → k.sent o' (k.get o s) ≡ (if o' == o then n else k.sent o' s)
  pub put_tokens : (o : Object) (p : SemPtr) (s : S) → k.tokens p (k.put o s) ≡ k.tokens p s
  pub get_tokens : (o : Object) (p : SemPtr) (s : S) → k.tokens p (k.get o s) ≡ k.tokens p s
  pub empty_has_room : (o : Object) (s : S) → k.sent o s ≡ 0 → k.has_room o s ≡ true
  pub post_sent : (m : ℕ) (o : Object) (s : S) → k.sent o (k.k_event_post m s) ≡ k.sent o s
  pub post_tokens : (m : ℕ) (p : SemPtr) (s : S) → k.tokens p (k.k_event_post m s) ≡ k.tokens p s

-- Every priority of the list is a larger number, which is a lower priority.
abbrev pub IsLowest {ℓ} : {A : Type ℓ} → ℕ → List (ℕ × A) → Type 0
IsLowest p [] = Unit
IsLowest p ((q, _) ∷ ts) = (p < q) × IsLowest p ts

-- Which of the threads goes on: `none` stands for a thread that pends or is suspended.
abbrev pub Scheduler : Type 0 → Type 0
Scheduler A = List (ℕ × Option A) → Option A

-- Zephyr's rule: a thread that pends does not run, and the ready thread of the highest priority
-- does.
pub record SchedulerDoc {A : Type 0} (next : Scheduler A) : Type 0 where
  pub idle : next [] ≡ none
  pub skip : (p : ℕ) (ts : List (ℕ × Option A)) → next ((p, none) ∷ ts) ≡ next ts
  pub first :
      (p : ℕ) (a : A) (ts : List (ℕ × Option A)) → IsLowest p ts → next ((p, some a) ∷ ts) ≡ some a

-- The first of three threads that can go on.
abbrev pub first_ready {ℓ} : {A : Type ℓ} → Option A → Option A → Option A → Option A
first_ready (some a) _ _ = some a
first_ready none (some b) _ = some b
first_ready none none c = c

-- Three threads in the order of their priorities: the first that can go on does.
pub next-first_ready :
    {A : Type 0} (next : Scheduler A) (doc : SchedulerDoc next) (p q r : ℕ) (a b c : Option A)
    → p < q
    → q < r
    → p < r
    → next ((p, a) ∷ (q, b) ∷ (r, c) ∷ []) ≡ first_ready a b c
next-first_ready next doc p q r (some a) b c pq qr pr = doc.first p a _ (pq, (pr, tt))
next-first_ready next doc p q r none (some b) c pq qr pr =
    rw (doc.skip p ((q, some b) ∷ (r, c) ∷ [])) (doc.first q b _ (qr, tt))
next-first_ready next doc p q r none none (some c) pq qr pr =
    rw (doc.skip p ((q, none) ∷ (r, some c) ∷ []), doc.skip q ((r, some c) ∷ []))
      (doc.first r c _ tt)
next-first_ready next doc p q r none none none pq qr pr =
    rw (doc.skip p ((q, none) ∷ (r, none) ∷ []), doc.skip q ((r, none) ∷ []), doc.skip r [])
      doc.idle
