-- ===== src/Scenario/Doc.antt =====
-- The hypothesis on the kernel that runs the threads of Scenario/Program.antt.
use zephyr_kernel_bm_tuc_hms.Prelude.{ℕ, ◌≡◌, Option, none, some}
use zephyr_kernel_bm_tuc_hms.Itc.Kernel.{SemPtr}
use zephyr_kernel_bm_tuc_hms.Scenario.Kernel.{Task, Object, Kernel, View, documented}

abbrev pub map_option : {A B : Type 0} → (A → B) → Option A → Option B
map_option f none = none
map_option f (some a) = some (f a)

-- The hypothesis on Zephyr: every call does to the view of the kernel's state what is documented.
pub record KernelDoc {S : Type 0} (k : Kernel S) (limit : ℕ) (view : S → View) : Type 0 where
  pub sem_init : (s : S) → view (k.k_sem_init s) ≡ (documented limit).k_sem_init (view s)
  pub sem_take : (s : S) → map_option view (k.k_sem_take s) ≡ (documented limit).k_sem_take (view s)
  pub sem_take_no_wait :
      (s : S) → view (k.k_sem_take_no_wait s) ≡ (documented limit).k_sem_take_no_wait (view s)
  pub sem_give : (s : S) → view (k.k_sem_give s) ≡ (documented limit).k_sem_give (view s)
  pub sem_reset : (s : S) → view (k.k_sem_reset s) ≡ (documented limit).k_sem_reset (view s)
  pub event_init : (s : S) → view (k.k_event_init s) ≡ (documented limit).k_event_init (view s)
  pub event_wait :
      (m : ℕ) (s : S)
      → map_option view (k.k_event_wait_safe m s) ≡ (documented limit).k_event_wait_safe m (view s)
  pub event_wait_no_wait :
      (m : ℕ) (s : S)
      → view (k.k_event_wait_safe_no_wait m s)
        ≡ (documented limit).k_event_wait_safe_no_wait m (view s)
  pub event_wait_begin :
      (t : Task) (m : ℕ) (s : S)
      → view (k.k_event_wait_begin t m s) ≡ (documented limit).k_event_wait_begin t m (view s)
  pub event_wait_end :
      (t : Task) (s : S)
      → map_option view (k.k_event_wait_end t s) ≡ (documented limit).k_event_wait_end t (view s)
  pub event_post :
      (m : ℕ) (s : S) → view (k.k_event_post m s) ≡ (documented limit).k_event_post m (view s)
  pub event_clear :
      (m : ℕ) (s : S) → view (k.k_event_clear m s) ≡ (documented limit).k_event_clear m (view s)
  pub gate_give :
      (p : SemPtr) (s : S) → view (k.k_gate_give p s) ≡ (documented limit).k_gate_give p (view s)
  pub gate_take :
      (p : SemPtr) (s : S)
      → map_option view (k.k_gate_take p s) ≡ (documented limit).k_gate_take p (view s)
  pub gate_init :
      (p : SemPtr) (s : S) → view (k.k_gate_init p s) ≡ (documented limit).k_gate_init p (view s)
  pub gate_reset :
      (p : SemPtr) (s : S) → view (k.k_gate_reset p s) ≡ (documented limit).k_gate_reset p (view s)
  pub pipe_write :
      (o : Object) (n : ℕ) (s : S)
      → map_option view (k.k_pipe_write o n s) ≡ (documented limit).k_pipe_write o n (view s)
  pub pipe_read :
      (o : Object) (n : ℕ) (s : S)
      → map_option view (k.k_pipe_read o n s) ≡ (documented limit).k_pipe_read o n (view s)
  pub pipe_reset :
      (o : Object) (s : S) → view (k.k_pipe_reset o s) ≡ (documented limit).k_pipe_reset o (view s)
  pub mbox_async_put :
      (o : Object) (n : ℕ) (s : S)
      → view (k.k_mbox_async_put o n s) ≡ (documented limit).k_mbox_async_put o n (view s)
  pub mbox_get :
      (o : Object) (n : ℕ) (s : S)
      → map_option view (k.k_mbox_get o n s) ≡ (documented limit).k_mbox_get o n (view s)
  pub pipe_ring_init :
      (o : Object) (n : ℕ) (s : S)
      → view (k.k_pipe_ring_init o n s) ≡ (documented limit).k_pipe_ring_init o n (view s)
  pub pipe_init : (s : S) → view (k.k_pipe_init s) ≡ (documented limit).k_pipe_init (view s)
  pub pipe_write_begin :
      (n : ℕ) (s : S)
      → view (k.k_pipe_write_begin n s) ≡ (documented limit).k_pipe_write_begin n (view s)
  pub pipe_write_end :
      (s : S)
      → map_option view (k.k_pipe_write_end s) ≡ (documented limit).k_pipe_write_end (view s)
  pub pipe_read_begin :
      (n : ℕ) (s : S)
      → view (k.k_pipe_read_begin n s) ≡ (documented limit).k_pipe_read_begin n (view s)
  pub pipe_read_end :
      (s : S) → map_option view (k.k_pipe_read_end s) ≡ (documented limit).k_pipe_read_end (view s)
  pub mbox_init :
      (o : Object) (s : S) → view (k.k_mbox_init o s) ≡ (documented limit).k_mbox_init o (view s)
  pub mbox_put_begin :
      (o : Object) (n : ℕ) (s : S)
      → view (k.k_mbox_put_begin o n s) ≡ (documented limit).k_mbox_put_begin o n (view s)
  pub mbox_put_end :
      (o : Object) (s : S)
      → map_option view (k.k_mbox_put_end o s) ≡ (documented limit).k_mbox_put_end o (view s)
  pub release_init :
      (s : S) → view (k.k_release_init s) ≡ (documented limit).k_release_init (view s)
  pub release_wait :
      (m : ℕ) (s : S)
      → map_option view (k.k_release_wait m s) ≡ (documented limit).k_release_wait m (view s)
  pub release_post :
      (m : ℕ) (s : S) → view (k.k_release_post m s) ≡ (documented limit).k_release_post m (view s)
  pub irq_enable : (s : S) → view (k.irq_enable s) ≡ (documented limit).irq_enable (view s)
  pub irq_disable : (s : S) → view (k.irq_disable s) ≡ (documented limit).irq_disable (view s)
  pub irq_set_pending :
      (s : S) → view (k.nvic_set_pending_irq s) ≡ (documented limit).nvic_set_pending_irq (view s)
  pub irq_clear_pending :
      (s : S)
      → view (k.nvic_clear_pending_irq s) ≡ (documented limit).nvic_clear_pending_irq (view s)
  pub handler_entry :
      (s : S) → map_option view (k.irq_entry s) ≡ (documented limit).irq_entry (view s)
  pub thread_create :
      (t : Task) (s : S)
      → view (k.k_thread_create t s) ≡ (documented limit).k_thread_create t (view s)
  pub thread_abort :
      (t : Task) (s : S)
      → view (k.k_thread_abort t s) ≡ (documented limit).k_thread_abort t (view s)
  pub thread_suspend :
      (t : Task) (s : S)
      → view (k.k_thread_suspend t s) ≡ (documented limit).k_thread_suspend t (view s)
  pub thread_resume :
      (t : Task) (s : S)
      → view (k.k_thread_resume t s) ≡ (documented limit).k_thread_resume t (view s)
  pub runnable : (t : Task) (s : S) → k.can_run t s ≡ (documented limit).can_run t (view s)
