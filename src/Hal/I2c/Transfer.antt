-- ===== src/Hal/I2c/Transfer.antt =====
-- kortos_hal/STM32F446xx/I2C.c: the transfers that wait, and the start of those by interrupts.
use ko_rtos.Base.{
  ℕ, zero, suc, ◌+◌, ◌%◌, ◌^◌, Option, none, some, true, false, ◌==◌, ◌||◌, if◌then◌else◌, update,
}
use ko_rtos.Types.{◌>>=◌}
use ko_rtos.Hal.{Hardware, Regs, store, set_bits}
use ko_rtos.Hal.Address.{i2c_cr2, i2c_dr}
use ko_rtos.Hal.I2c.{
  I2cHandle, I2cState, i2c_get_flag_status, i2c_generate_start, i2c_generate_stop,
  i2c_execute_addr_phase, i2c_clear_addr_flag, i2c_manage_acking,
}

module _ (hw : Hardware) where
  -- `while (I2C_get_flag_status(p, 1, flag) == 0);`, with a bound on the tests.
  unfoldable pub wait_sr1 : ℕ → ℕ → ℕ → Regs → Option Regs
  wait_sr1 zero p flag m = none
  wait_sr1 (suc fuel) p flag m =
      let (status, m') = i2c_get_flag_status hw p 1 flag m in
      elim (status == 0) [ true ↦ wait_sr1 fuel p flag m' | false ↦ some m' ]

  -- The start condition and the address phase, up to the ADDR flag.
  unfoldable pub address_slave : ℕ → ℕ → ℕ → ℕ → Regs → Option Regs
  address_slave polls p slave_addr read_or_write m =
      wait_sr1 polls p 0 (i2c_generate_start hw p m) >>= λ m'.
      wait_sr1 polls p 1 (i2c_execute_addr_phase hw p slave_addr read_or_write m')

  abbrev pub stop_unless : ℕ → ℕ → Regs → Regs
  stop_unless rs_enable p m = if rs_enable == 0 then i2c_generate_stop hw p m else m

  unfoldable pub send_bytes : ℕ → ℕ → (ℕ → ℕ) → ℕ → ℕ → Regs → Option Regs
  send_bytes polls p mem buf zero m = some m
  send_bytes polls p mem buf (suc len) m = wait_sr1 polls p 7 m >>= λ m'.
      send_bytes polls p mem (buf + 1) len (store hw (p + i2c_dr) (mem buf) m')

  -- `polls` bounds each wait.
  unfoldable pub i2c_master_send : ℕ → I2cHandle → (ℕ → ℕ) → ℕ → ℕ → ℕ → ℕ → Regs → Option Regs
  i2c_master_send polls h mem buf len slave_addr rs_enable m =
      let p = h.p_i2cx in
      address_slave polls p slave_addr 0 m >>= λ m₁.
      send_bytes polls p mem buf len (i2c_clear_addr_flag hw p m₁) >>= λ m₂.
      wait_sr1 polls p 7 m₂ >>= λ m₃.
      wait_sr1 polls p 2 m₃ >>= λ m₄. some (stop_unless rs_enable p m₄)

  -- The reception of one byte.
  unfoldable pub receive_one : ℕ → ℕ → (ℕ → ℕ) → ℕ → ℕ → Regs → Option ((ℕ → ℕ) × Regs)
  receive_one polls p mem buf rs_enable m =
      wait_sr1 polls p 6 (i2c_clear_addr_flag hw p (i2c_manage_acking hw p 0 m)) >>= λ m₁.
      let m₂ = stop_unless rs_enable p m₁ in
      some (update mem buf (m₂ (p + i2c_dr) % 2 ^ 8), hw.reads (p + i2c_dr) m₂)

  -- The loop over the bytes that are left.
  unfoldable pub receive_bytes : ℕ → ℕ → ℕ → (ℕ → ℕ) → ℕ → ℕ → Regs → Option ((ℕ → ℕ) × Regs)
  receive_bytes polls p rs_enable mem buf zero m = some (mem, m)
  receive_bytes polls p rs_enable mem buf (suc len) m = wait_sr1 polls p 6 m >>= λ m₁.
      let m₂ = if suc len == 2 then stop_unless rs_enable p (i2c_manage_acking hw p 0 m₁) else m₁ in
      receive_bytes polls p rs_enable (update mem buf (m₂ (p + i2c_dr) % 2 ^ 8)) (buf + 1) len
        (hw.reads (p + i2c_dr) m₂)

  unfoldable pub i2c_master_receive :
      ℕ → I2cHandle → (ℕ → ℕ) → ℕ → ℕ → ℕ → ℕ → Regs → Option ((ℕ → ℕ) × Regs)
  i2c_master_receive polls h mem buf len slave_addr rs_enable m =
      let p = h.p_i2cx in
      address_slave polls p slave_addr 1 m >>= λ m₁.
      (if len == 1
        then receive_one polls p mem buf rs_enable m₁
        else receive_bytes polls p rs_enable mem buf len (i2c_clear_addr_flag hw p m₁))
      >>= λ (mem', m₂).
          some (mem', if h.i2cx_config.ack_control == 1 then i2c_manage_acking hw p 1 m₂ else m₂)

  -- The value is a byte.
  unfoldable pub i2c_slave_send : ℕ → ℕ → Regs → Regs
  i2c_slave_send p value m = store hw (p + i2c_dr) value m

  unfoldable pub i2c_slave_receive : ℕ → Regs → ℕ × Regs
  i2c_slave_receive p m = (m (p + i2c_dr) % 2 ^ 8, hw.reads (p + i2c_dr) m)

  -- The start condition, and the bits ITBUFEN, ITEVTEN and ITERREN.
  unfoldable pub start_interrupts : ℕ → Regs → Regs
  start_interrupts p m =
      let m₁ = set_bits hw (p + i2c_cr2) (2 ^ 10) (i2c_generate_start hw p m) in
      let m₂ = set_bits hw (p + i2c_cr2) (2 ^ 9) m₁ in set_bits hw (p + i2c_cr2) (2 ^ 8) m₂

  -- The state on entry is returned.
  unfoldable pub i2c_master_send_it : ℕ → ℕ → ℕ → ℕ → I2cState → ℕ × I2cState
  i2c_master_send_it p_tx_buffer len slave_addr rs_enable s =
      let h = s.handle in
      if h.txrxstate == 2 || h.txrxstate == 1 then (h.txrxstate, s) else (
        h.txrxstate,
        record s {
          handle = record h {
            p_tx_buffer = p_tx_buffer;
            tx_len = len;
            txrxstate = 1;
            repeated_start = rs_enable;
            slave_addr = slave_addr;
          };
          regs = start_interrupts h.p_i2cx s.regs;
        },
      )

  unfoldable pub i2c_master_receive_it : ℕ → ℕ → ℕ → ℕ → I2cState → ℕ × I2cState
  i2c_master_receive_it p_rx_buffer len slave_addr rs_enable s =
      let h = s.handle in
      if h.txrxstate == 2 || h.txrxstate == 1 then (h.txrxstate, s) else (
        h.txrxstate,
        record s {
          handle = record h {
            p_rx_buffer = p_rx_buffer;
            rx_len = len;
            rx_size = len;
            txrxstate = 2;
            repeated_start = rs_enable;
            slave_addr = slave_addr;
          };
          regs = start_interrupts h.p_i2cx s.regs;
        },
      )
