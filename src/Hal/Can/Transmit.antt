-- ===== src/Hal/Can/Transmit.antt =====
-- kortos_hal/STM32F446xx/CAN.c: the transmission of frames.
use ko_rtos.Base.{
  ℕ, ◌+◌, ◌*◌, ◌/◌, ◌^◌, Option, none, some, Bool, not, ltb, ◌==◌, ◌&&◌, ◌||◌, if◌then◌else◌, List,
  [], ◌∷◌, ◌++◌,
}
use Prim.Native.Nat.{bit_and, bit_or}
use ko_rtos.Hal.{Hardware, Regs, store, set_bits, shl32}
use ko_rtos.Hal.Address.{can_tsr, can_tx_mailboxes}
use ko_rtos.Hal.Can.{
  KhalStatus, khal_ok, err_busy, err_timeout, err_tx, err_rx, err_invalid_param, err_null_ptr,
  CanHandle, CanFrame, can_init_timeout, has, await,
}

abbrev pub frame_is_valid : CanFrame → Bool
frame_is_valid f = not (
    ltb 8 f.dlc
    || (ltb 1 f.id_type
        || (ltb 1 f.frame_type
            || ((f.id_type == 0 && ltb 0x7ff f.id) || (f.id_type == 1 && ltb 0x1fff_ffff f.id)))))

-- The word of a mailbox's TIR.
unfoldable pub tir_value : CanFrame → ℕ
tir_value f =
    let kind = bit_or (shl32 f.id_type 2) (shl32 f.frame_type 1) in
    if f.id_type == 0 then bit_or kind (shl32 f.id 21) else bit_or kind (shl32 f.id 3)

-- The word of TDLR (from 0) or of TDHR (from 4).
unfoldable pub data_word : (ℕ → ℕ) → ℕ → ℕ
data_word d i =
    bit_or (shl32 (d (i + 3)) 24)
      (bit_or (shl32 (d (i + 2)) 16) (bit_or (shl32 (d (i + 1)) 8) (d i)))

module _ (hw : Hardware) where
  -- What the mailbox at address `a` is loaded with; the last store requests the transmission.
  unfoldable pub load_frame : ℕ → CanFrame → Regs → Regs
  load_frame a f m =
      let m₁ = store hw a (tir_value f) m in
      let m₂ = store hw (a + 4) f.dlc m₁ in
      let m₃ = store hw (a + 8) (data_word f.payload 0) m₂ in
      let m₄ = store hw (a + 12) (data_word f.payload 4) m₃ in set_bits hw a (2 ^ 0) m₄

  -- The status, the number of the mailbox if the call stores one, and the registers.
  unfoldable pub can_load_mailbox :
      Option CanHandle → Option CanFrame → Regs → KhalStatus × Option ℕ × Regs
  can_load_mailbox none frame m = (err_null_ptr, none, m)
  can_load_mailbox (some h) none m = (err_null_ptr, none, m)
  can_load_mailbox (some h) (some f) m = elim h.canx [
    | none ↦ (err_null_ptr, none, m)
    | some p ↦
        let m₁ = hw.reads (p + can_tsr) m in
        let m₂ = hw.reads (p + can_tsr) m₁ in
        let mailbox = bit_and (m₁ (p + can_tsr)) (shl32 3 24) / 2 ^ 24 in
        if frame_is_valid f
        then if has (m (p + can_tsr)) (bit_or (2 ^ 26) (bit_or (2 ^ 27) (2 ^ 28)))
          then (khal_ok, some mailbox, load_frame (p + can_tx_mailboxes + 16 * mailbox) f m₂)
          else (err_busy, none, m₁)
        else (err_invalid_param, none, m)
  ]

  -- One case of the switch of `CAN_transmit`; `tme`, `txok` and `rqcp` are the mailbox's masks.
  unfoldable pub await_mailbox : ℕ → ℕ → ℕ → ℕ → Regs → KhalStatus × Regs
  await_mailbox p tme txok rqcp m =
      await hw (p + can_tsr) (λ v. not (has v tme)) can_init_timeout m
        (λ m₁.
          let m₂ = set_bits hw (p + can_tsr) rqcp (hw.reads (p + can_tsr) m₁) in
          if has (m₁ (p + can_tsr)) txok then (khal_ok, m₂) else (err_tx, m₂))

  unfoldable pub await_transmission : ℕ → ℕ → Regs → KhalStatus × Regs
  await_transmission p mailbox m =
      if mailbox == 0
      then await_mailbox p (2 ^ 26) (2 ^ 1) (2 ^ 0) m
      else if mailbox == 1
      then await_mailbox p (2 ^ 27) (2 ^ 9) (2 ^ 8) m
      else if mailbox == 2
      then await_mailbox p (2 ^ 28) (2 ^ 17) (2 ^ 16) m
      else (err_tx, m)

  -- What `CAN_transmit` does after `CAN_load_mailbox` at the peripheral `p`.
  unfoldable pub after_load : Option ℕ → KhalStatus × Option ℕ × Regs → KhalStatus × Regs
  after_load (some p) (khal_ok, some mailbox, m) = await_transmission p mailbox m
  after_load (some p) (khal_ok, none, m) = (khal_ok, m)
  after_load none (status, mailbox, m) = (status, m)
  after_load (some p) (err_busy, mailbox, m) = (err_busy, m)
  after_load (some p) (err_timeout, mailbox, m) = (err_timeout, m)
  after_load (some p) (err_tx, mailbox, m) = (err_tx, m)
  after_load (some p) (err_rx, mailbox, m) = (err_rx, m)
  after_load (some p) (err_invalid_param, mailbox, m) = (err_invalid_param, m)
  after_load (some p) (err_null_ptr, mailbox, m) = (err_null_ptr, m)

  unfoldable pub can_transmit : Option CanHandle → Option CanFrame → Regs → KhalStatus × Regs
  can_transmit none frame m = (err_null_ptr, m)
  can_transmit (some h) frame m = after_load h.canx (can_load_mailbox (some h) frame m)

  unfoldable pub can_transmit_it : Option CanHandle → Option CanFrame → Regs → KhalStatus × Regs
  can_transmit_it h frame m = let (status, _, m') = can_load_mailbox h frame m in (status, m')

  -- One mailbox of `CAN_TX_IRQHandler`: the callbacks `(mailbox, success)` so far come first.
  unfoldable pub acknowledge : ℕ → ℕ → ℕ → ℕ → List (ℕ × Bool) × Regs → List (ℕ × Bool) × Regs
  acknowledge a mailbox txok rqcp (calls, m) =
      let m₁ = hw.reads a m in
      let m₂ = set_bits hw a rqcp (hw.reads a m₁) in
      if has (m a) rqcp then (calls ++ ((mailbox, has (m₁ a) txok) ∷ []), m₂) else (calls, m₁)

  unfoldable pub can_tx_irq_handler : Option CanHandle → Regs → List (ℕ × Bool) × Regs
  can_tx_irq_handler none m = ([], m)
  can_tx_irq_handler (some h) m = elim h.canx [
    | none ↦ ([], m)
    | some p ↦
        let s₀ = acknowledge (p + can_tsr) 0 (2 ^ 1) (2 ^ 0) ([], m) in
        let s₁ = acknowledge (p + can_tsr) 1 (2 ^ 9) (2 ^ 8) s₀ in
        acknowledge (p + can_tsr) 2 (2 ^ 17) (2 ^ 16) s₁
  ]
