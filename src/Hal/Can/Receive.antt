-- ===== src/Hal/Can/Receive.antt =====
-- kortos_hal/STM32F446xx/CAN.c: the reception of frames.
use ko_rtos.Base.{ℕ, ◌+◌, ◌-◌, ◌*◌, ◌/◌, ◌^◌, Option, none, some, ltb, ◌==◌, if◌then◌else◌}
use Prim.Native.Nat.{bit_and}
use ko_rtos.Hal.{Hardware, Regs, set_bits, shl32}
use ko_rtos.Hal.Address.{can_rf0r, can_rf1r, can_rx_fifos}
use ko_rtos.Hal.Can.{
  KhalStatus, khal_ok, err_rx, err_invalid_param, err_null_ptr, CanHandle, CanFrame, has,
  after_loads,
}

-- Byte `i` of a word.
unfoldable pub rx_byte : ℕ → ℕ → ℕ
rx_byte word i = bit_and (word / 2 ^ (8 * i)) 0xff

module _ (hw : Hardware) where
  -- The frame in the FIFO at address `a`: the members that the code writes of the caller's frame.
  unfoldable pub decode_frame : ℕ → CanFrame → Regs → CanFrame × Regs
  decode_frame a f m =
      let m₂ = after_loads hw a 2 m in
      let m₃ = hw.reads (a + 4) m₂ in
      let m₄ = after_loads hw (a + 8) 4 m₃ in
      let m₅ = after_loads hw (a + 12) 4 m₄ in
      let ide = bit_and (m a) (2 ^ 2) / 2 ^ 2 in
      let rir = hw.reads a m a in
      (
        record f {
          id =
              if ide == 0
              then bit_and rir (shl32 0x7ff 21) / 2 ^ 21
              else bit_and rir (shl32 0x3ffff 3) / 2 ^ 3;
          dlc = bit_and (m₂ (a + 4)) 0xf;
          payload = λ i.
              if ltb i 4
              then rx_byte (after_loads hw (a + 8) i m₃ (a + 8)) i
              else if ltb i 8
              then rx_byte (after_loads hw (a + 12) (i - 4) m₄ (a + 12)) (i - 4)
              else f.payload i;
          timestamp = bit_and (m₅ (a + 4)) (shl32 0xffff 16) / 2 ^ 16;
        },
        hw.reads (a + 4) m₅,
      )

  unfoldable pub can_read_rx_frame :
      Option ℕ → ℕ → Option CanFrame → Regs → KhalStatus × Option CanFrame × Regs
  can_read_rx_frame p fifo_num none m = (err_null_ptr, none, m)
  can_read_rx_frame none fifo_num (some f) m = (err_null_ptr, some f, m)
  can_read_rx_frame (some p) fifo_num (some f) m =
      let (f', m') = decode_frame (p + can_rx_fifos + 16 * fifo_num) f m in
      let release = if fifo_num == 0 then can_rf0r else can_rf1r in
      if ltb 1 fifo_num
      then (err_invalid_param, some f, m)
      else (khal_ok, some f', set_bits hw (p + release) (2 ^ 5) m')

  unfoldable pub can_receive :
      Option CanHandle → Option CanFrame → Regs → KhalStatus × Option CanFrame × Regs
  can_receive none frame m = (err_null_ptr, frame, m)
  can_receive (some h) none m = (err_null_ptr, none, m)
  can_receive (some h) (some f) m = elim h.canx [
    | none ↦ (err_null_ptr, some f, m)
    | some p ↦
        let m₁ = hw.reads (p + can_rf0r) m in
        let m₂ = hw.reads (p + can_rf1r) m₁ in
        if has (m (p + can_rf0r)) 3
        then can_read_rx_frame (some p) 0 (some f) m₁
        else if has (m₁ (p + can_rf1r)) 3
        then can_read_rx_frame (some p) 1 (some f) m₂
        else (err_rx, some f, m₂)
  ]

  -- The frame that the callback is given, if it is called. `uninit` stands for what the local
  -- variable holds before.
  unfoldable pub can_rx_irq_handler :
      Option CanHandle → ℕ → CanFrame → Regs → Option CanFrame × Regs
  can_rx_irq_handler none fifo_num uninit m = (none, m)
  can_rx_irq_handler (some h) fifo_num uninit m = elim h.canx [
    | none ↦ (none, m)
    | some p ↦
        let (_, frame, m') = can_read_rx_frame (some p) fifo_num (some uninit) m in (frame, m')
  ]
