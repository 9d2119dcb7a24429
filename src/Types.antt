-- ===== src/Types.antt =====
-- The types of kernel/kortos.h and the constants of config/kortos_config.h, and the state that the
-- static variables of kernel/kernel.c, the application's objects and the core's registers make up.
use ko_rtos.Base.{
  ℕ, ◌+◌, ◌-◌, ◌%◌, ◌^◌, ◌≡◌, subst, ◌≢◌, ◌↔◌, Option, Bool, true, false, none, some, ◌==◌,
  if◌then◌else◌, ltb, update, if_ind, arith,
}

pub data OsErr : Type 0 where
  ok out_of_range max_tasks null_ptr unavailable invalid_schedule_policy waitlist_full : OsErr
  sem_invalid_init_count mtx_recursive_lock mtx_not_owner : OsErr

pub data TaskState : Type 0 where
  ready running blocked : TaskState

pub data BlockReason : Type 0 where
  not_blocked on_delay on_sem on_mutex on_queue_send on_queue_recv : BlockReason

-- `invalid` stands for a value of the C enumeration type that is none of its enumerators.
pub data SchedulePolicy : Type 0 where
  fifo priority : SchedulePolicy
  invalid : ℕ → SchedulePolicy

pub data MutexState : Type 0 where
  unlocked locked : MutexState

-- The address of a waitlist: the object that holds it, and which member it is.
pub data WaitlistRef : Type 0 where
  sem_list mutex_list send_list recv_list : ℕ → WaitlistRef

-- An entry of the array is NULL or points to a task, which its index in `user_tasks` names.
pub record Waitlist : Type 0 where
  pub task_waitlist : ℕ → Option ℕ
  pub wait_count : ℕ
  pub schedule_policy : SchedulePolicy

-- The member `waitlist` of a semaphore, a mutex or a queue stands in `Kernel.waitlists`.
pub record Semaphore : Type 0 where
  pub count : ℕ

pub record Mutex : Type 0 where
  pub owner : Option ℕ
  pub state : MutexState

pub record Queue : Type 0 where
  pub buffer : ℕ → ℕ
  pub item_size : ℕ
  pub max_items : ℕ
  pub count : ℕ
  pub head : ℕ
  pub tail : ℕ
  pub dropped_count : ℕ

pub record Tcb : Type 0 where
  pub stack_pointer : ℕ
  pub task_handler : ℕ
  pub current_state : TaskState
  pub base_priority : ℕ
  pub effective_priority : ℕ
  pub wakeup_tick : ℕ
  pub block_reason : BlockReason
  pub blocked_waitlist : Option WaitlistRef
  pub owned_mutexes : ℕ → Option ℕ
  pub owned_mutex_count : ℕ
  pub timeout : Bool

pub record Kernel : Type 0 where
  pub user_tasks : ℕ → Tcb
  pub task_count : ℕ
  pub current_task : ℕ
  pub systick_count : ℕ
  pub waitlists : WaitlistRef → Waitlist
  pub semaphores : ℕ → Semaphore
  pub mutexes : ℕ → Mutex
  pub queues : ℕ → Queue
  pub memory : ℕ → ℕ
  pub primask : ℕ
  pub pendsv : Bool

abbrev pub os_max_tasks : ℕ
os_max_tasks = 20

abbrev pub os_priority_lowest : ℕ
os_priority_lowest = 31

abbrev pub os_max_mtx_per_task : ℕ
os_max_mtx_per_task = 4

abbrev pub idle_task_idx : ℕ
idle_task_idx = 0

abbrev pub os_wait_forever : ℕ
os_wait_forever = 2 ^ 32 - 1

abbrev pub u8 : ℕ → ℕ
u8 n = n % 2 ^ 8

abbrev pub u32 : ℕ → ℕ
u32 n = n % 2 ^ 32

-- `(int32_t)(now - deadline) >= 0` on `uint32_t` values.
abbrev pub reached : ℕ → ℕ → Bool
reached now deadline = ltb ((now + 2 ^ 32 - deadline) % 2 ^ 32) (2 ^ 31)

-- Comparison of two waitlist addresses.
unfoldable pub ref_eq : WaitlistRef → WaitlistRef → Bool
ref_eq (sem_list a) (sem_list b) = a == b
ref_eq (mutex_list a) (mutex_list b) = a == b
ref_eq (send_list a) (send_list b) = a == b
ref_eq (recv_list a) (recv_list b) = a == b
ref_eq _ _ = false

pub ref_eq_iff : (a b : WaitlistRef) → (ref_eq a b ≡ true) ↔ (a ≡ b)
unfolding ref_eq
ref_eq_iff (sem_list a) (sem_list b) = ground arith
ref_eq_iff _ _ = ground arith

-- Reads and writes of the state that every component makes.
abbrev pub current : Kernel → Tcb
current k = k.user_tasks k.current_task

abbrev pub set_task : Kernel → ℕ → Tcb → Kernel
set_task k t b = record k { user_tasks = update k.user_tasks t b }

abbrev pub set_waitlist : Kernel → WaitlistRef → Waitlist → Kernel
set_waitlist k r w = record k { waitlists = λ s. if ref_eq r s then w else k.waitlists s }

-- What a blocking call has done when the caller's next instruction would run: it has returned, or
-- the caller is suspended inside `waitlist_block_current` and goes on when it is scheduled again.
pub data Reply : Type 0 where
  returned : OsErr → Reply
  suspended : Reply

-- `none` is a fault: a NULL dereference or an index outside an array.
infixl 5 ◌>>=◌
abbrev pub ◌>>=◌ {ℓ κ} : {A : Type ℓ} {B : Type κ} → Option A → (A → Option B) → Option B
none >>= f = none
some a >>= f = f a

-- What holds of each waitlist holds after the write of one.
pub waitlists_ind {ℓ} :
    (P : WaitlistRef → Waitlist → Type ℓ) (r : WaitlistRef) (w : Waitlist)
    (lists : WaitlistRef → Waitlist)
    → P r w
    → ((s : WaitlistRef) → r ≢ s → P s (lists s))
    → (s : WaitlistRef) → P s (if ref_eq r s then w else lists s)
waitlists_ind P r w lists h g s =
    if_ind (P s) (ref_eq r s) (λ e. subst (λ x. P x w) ((ref_eq_iff r s).0 e) h)
      (λ e. g s (λ q. absurd (ref_eq-ne r s e q)))
  where
    ref_eq-ne : (r s : WaitlistRef) → ref_eq r s ≡ false → r ≢ s
    ref_eq-ne r s e q = let t : ref_eq r s ≡ true = (ref_eq_iff r s).1 q in cc
