-- ===== src/Port.antt =====
-- port/arm/cortex_m4/port.c: interrupt masking, the request of a context switch, and the first
-- stack frame of a task. The instructions themselves are the core's: PRIMASK is the field `primask`
-- (0 = interrupts enabled), the PendSV bit of ICSR is `pendsv`, memory is a word at each address.
pub mod Frame
use ko_rtos.Base.{ℕ, zero, suc, ◌+◌, ◌-◌, ◌*◌, ◌/◌, ◌^◌, true, update}
use ko_rtos.Types.{Kernel, u32}

abbrev pub port_enter_critical : Kernel → ℕ × Kernel
port_enter_critical k = (k.primask, record k { primask = 1 })

abbrev pub port_exit_critical : ℕ → Kernel → Kernel
port_exit_critical prev k = record k { primask = prev }

abbrev pub port_yield : Kernel → Kernel
port_yield k = record k { pendsv = true }

-- Addresses are `uint32_t`; a word pointer moves by 4.
abbrev pub word_down : ℕ → ℕ
word_down sp = u32 (sp + 2 ^ 32 - 4)

abbrev pub dummy_stack_xpsr : ℕ
dummy_stack_xpsr = 0x0100_0000

abbrev pub exc_return_thread_psp : ℕ
exc_return_thread_psp = 0xffff_fffd

-- The memory and the stack pointer, as the function's assignments change them.
pub record Stack : Type 0 where
  pub words : ℕ → ℕ
  pub sp : ℕ

-- `*(--sp) = v`
abbrev pub push_word : ℕ → Stack → Stack
push_word v s = record { words = update s.words (word_down s.sp) v; sp = word_down s.sp }

-- `for (...) *(sp--) = 0`
unfoldable pub zero_words : ℕ → Stack → Stack
zero_words zero s = s
zero_words (suc n) s = zero_words n (record { words = update s.words s.sp 0; sp = word_down s.sp })

unfoldable pub port_init_task_stack_frame : ℕ → ℕ → ℕ → (ℕ → ℕ) → Stack
port_init_task_stack_frame task_handler task_stack_base task_stack_size words = zero_words 13 (
    push_word exc_return_thread_psp (
      push_word task_handler (
        push_word dummy_stack_xpsr
          (record { words = words; sp = u32 (task_stack_base + task_stack_size / 4 * 4) }))))
