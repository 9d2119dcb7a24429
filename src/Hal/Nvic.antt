-- ===== src/Hal/Nvic.antt =====
-- The interrupt controller as the drivers write it: `GPIO_IRQ_config`, `SPI_IRQ_config`,
-- `USART_IRQ_config`, `CAN_IRQ_control` and the functions that set a priority share this code.
pub mod Disable
use ko_rtos.Base.{if◌then◌else◌, ℕ, ◌+◌, ◌*◌, ◌/◌, ◌%◌, ◌^◌, ◌==◌}
use ko_rtos.Hal.{Hardware, Regs, set_bits, store}
use ko_rtos.Hal.Address.{nvic_iser, nvic_icer, nvic_ipr}

module _ (hw : Hardware) where
  unfoldable pub irq_config : ℕ → ℕ → Regs → Regs
  irq_config irq_num enable m =
      if enable == 1
      then set_bits hw (nvic_iser + 4 * (irq_num / 32)) (2 ^ (irq_num % 32)) m
      else set_bits hw (nvic_icer + 4 * (irq_num / 32)) (2 ^ (irq_num % 32)) m

  -- A store of one byte.
  unfoldable pub set_priority : ℕ → ℕ → Regs → Regs
  set_priority irq_num irq_priority m =
      store hw (nvic_ipr + irq_num) (irq_priority * 2 ^ 4 % 2 ^ 8) m
