-- ===== src/TaskChange/Ready.antt =====
-- What the threads of src/task_switching/task_change/time_task_switch.c call of Zephyr, and the view of a
-- kernel that is documented: the ready queue and who waits for test_event.
use zephyr_kernel_bm_tuc_hms.Prelude.{
  ℕ, ◌-◌, List, [], ◌∷◌, ◌++◌, ◌≡◌, Option, none, some, ◌==◌, ltb, if◌then◌else◌, bit_and, bit_or,
}

pub data Thread : Type 0 where
  sa_low_prio_thread : Thread
  sa_high_prio_thread : Thread
  sa_dummy_0 : Thread  -- sa_dummy_threads[0]
  sa_dummy_1 : Thread
  sa_dummy_2 : Thread
  sa_dummy_3 : Thread
  sb_thread : Thread
  idle_thread : Thread

abbrev number : Thread → ℕ
number sa_low_prio_thread = 0
number sa_high_prio_thread = 1
number sa_dummy_0 = 2
number sa_dummy_1 = 3
number sa_dummy_2 = 4
number sa_dummy_3 = 5
number sb_thread = 6
number idle_thread = 7

-- A larger number is a lower priority.
abbrev pub priority : Thread → ℕ
priority sb_thread = 2
priority idle_thread = 15
priority _ = 3

-- In the ready queue, a thread stands behind those of its priority.
abbrev pub queued : Thread → List Thread → List Thread
queued t [] = t ∷ []
queued t (u ∷ us) = if ltb (priority t) (priority u) then t ∷ u ∷ us else u ∷ queued t us

abbrev pub removed : Thread → List Thread → List Thread
removed t [] = []
removed t (u ∷ us) = if number t == number u then removed t us else u ∷ removed t us

abbrev pub queued_all : List Thread → List Thread → List Thread
queued_all [] q = q
queued_all (t ∷ ts) q = queued_all ts (queued t q)

-- In which order k_event_post() makes the threads ready that it finds waiting.
pub data WakeOrder : Type 0 where
  oldest_first : WakeOrder
  newest_first : WakeOrder

-- Who waits, and for which bits, the oldest first.
abbrev pub Waiters : Type 0
Waiters = List (Thread × ℕ)

abbrev woken : WakeOrder → ℕ → Waiters → List Thread → List Thread
woken o e [] q = q
woken oldest_first e ((t, m) ∷ ws) q =
    if bit_and e m == 0 then woken oldest_first e ws q else woken oldest_first e ws (queued t q)
woken newest_first e ((t, m) ∷ ws) q =
    if bit_and e m == 0 then woken newest_first e ws q else queued t (woken newest_first e ws q)

abbrev still_waiting : ℕ → Waiters → Waiters
still_waiting e [] = []
still_waiting e ((t, m) ∷ ws) =
    if bit_and e m == 0 then (t, m) ∷ still_waiting e ws else still_waiting e ws

-- The bits that they take.
abbrev claimed : ℕ → Waiters → ℕ
claimed e [] = 0
claimed e ((t, m) ∷ ws) = bit_or (bit_and e m) (claimed e ws)

abbrev not_waiting : Thread → Waiters → Waiters
not_waiting t [] = []
not_waiting t ((u, m) ∷ ws) =
    if number t == number u then not_waiting t ws else (u, m) ∷ not_waiting t ws

-- The thread that runs is the head of the queue.
pub record View : Type 0 where
  pub queue : List Thread
  pub waiters : Waiters
  pub events : ℕ

abbrev pub head_of : List Thread → Option Thread
head_of [] = none
head_of (t ∷ ts) = some t

-- The calls of the thread that runs; it goes on after one when it runs again. No thread is suspended
-- while it waits.
pub record Kernel (S : Type 0) : Type 0 where
  pub k_event_init : S → S
  pub k_event_wait_safe : ℕ → S → S  -- `reset` false, K_FOREVER
  pub k_event_post : ℕ → S → S
  pub k_yield : S → S
  pub k_thread_create : Thread → S → S
  pub k_thread_abort : Thread → S → S
  pub k_thread_suspend : Thread → S → S
  pub current : S → Option Thread  -- k_current_get()

abbrev wait_of : ℕ → List Thread → View → View
wait_of m [] v = v
wait_of m (t ∷ ts) v =
    if bit_and v.events m == 0
    then record v { queue = ts; waiters = v.waiters ++ ((t, m) ∷ []) }
    else record v { events = v.events - bit_and v.events m }

abbrev yielded : List Thread → List Thread
yielded [] = []
yielded (t ∷ ts) = queued t ts

abbrev posted : WakeOrder → ℕ → View → View
posted o e v = record {
  queue = woken o e v.waiters v.queue;
  waiters = still_waiting e v.waiters;
  events = e - claimed e v.waiters;
}

abbrev pub documented : WakeOrder → Kernel View
documented o = record {
  k_event_init = λ v. record v { events = 0 };
  k_event_wait_safe = λ m v. wait_of m v.queue v;
  k_event_post = λ m v. posted o (bit_or v.events m) v;
  k_yield = λ v. record v { queue = yielded v.queue };
  k_thread_create = λ t v. record v { queue = queued t v.queue };
  k_thread_abort = λ t v. record v { queue = removed t v.queue; waiters = not_waiting t v.waiters };
  k_thread_suspend = λ t v. record v { queue = removed t v.queue };
  current = λ v. head_of v.queue;
}

-- The hypothesis on Zephyr: every call does to the view of the kernel's state what is documented, and
-- the scheduler picks the head of the ready queue.
pub record KernelDoc {S : Type 0} (k : Kernel S) (o : WakeOrder) (view : S → View) : Type 0 where
  pub event_init : (s : S) → view (k.k_event_init s) ≡ (documented o).k_event_init (view s)
  pub event_wait :
      (m : ℕ) (s : S) → view (k.k_event_wait_safe m s) ≡ (documented o).k_event_wait_safe m (view s)
  pub event_post :
      (m : ℕ) (s : S) → view (k.k_event_post m s) ≡ (documented o).k_event_post m (view s)
  pub yield : (s : S) → view (k.k_yield s) ≡ (documented o).k_yield (view s)
  pub thread_create :
      (t : Thread) (s : S)
      → view (k.k_thread_create t s) ≡ (documented o).k_thread_create t (view s)
  pub thread_abort :
      (t : Thread) (s : S) → view (k.k_thread_abort t s) ≡ (documented o).k_thread_abort t (view s)
  pub thread_suspend :
      (t : Thread) (s : S)
      → view (k.k_thread_suspend t s) ≡ (documented o).k_thread_suspend t (view s)
  pub running : (s : S) → k.current s ≡ (documented o).current (view s)
