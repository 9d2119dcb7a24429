-- ===== src/Hal/Nvic/Disable.antt =====
-- Disabling one interrupt.
use ko_rtos.Base.{ℕ, ◌+◌, ◌*◌, ◌/◌, ◌%◌, ◌^◌, ◌<◌, ◌≡◌, ◌≢◌, ◌==◌, false, arith}
use native.Mathlib.Nat.{pow-le-pow_right}
use ko_rtos.Hal.{Hardware, Regs}
use ko_rtos.Hal.Address.{nvic_icer}
use ko_rtos.Hal.Flags.{IsWriteOneToClear, set_bits-clears_all}
use ko_rtos.Hal.Nvic.{irq_config}

-- A word of NVIC->ICER reads as the interrupts that are enabled, and writing 1 to a bit disables the
-- interrupt. On such a register, disabling one interrupt disables all 32 of its word.
pub irq_config-disables_all :
    (hw : Hardware) (irq_num enable : ℕ) (m : Regs)
    → IsWriteOneToClear hw (nvic_icer + 4 * (irq_num / 32))
    → m (nvic_icer + 4 * (irq_num / 32)) < 2 ^ 32
    → enable ≢ 1
    → irq_config hw irq_num enable m (nvic_icer + 4 * (irq_num / 32)) ≡ 0
unfolding irq_config
irq_config-disables_all hw irq_num enable m w p off =
    let disable : (enable == 1) ≡ false = ground arith in
    let small : 2 ^ (irq_num % 32) < 2 ^ 32 =
      omega
        (arith, pow-le-pow_right {n = 2} (omega arith) {i = irq_num % 32} {j = 31} (omega arith)) in
    rw disable
      (set_bits-clears_all hw (nvic_icer + 4 * (irq_num / 32)) (2 ^ (irq_num % 32)) m w p small)
