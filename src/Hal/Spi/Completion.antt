-- ===== src/Hal/Spi/Completion.antt =====
-- A transmission by interrupts: what `SPI_TXEIE_Handle` writes to DR, and when it reports the end.
use ko_rtos.Base.{
  ℕ, zero, suc, ◌+◌, ◌*◌, ◌^◌, ◌<◌, ◌≡◌, refl, ap, ◌∙◌, Bool, true, false, if◌then◌else◌, ◌==◌,
  List, [], ◌∷◌, ◌++◌, update, arith,
}
use ko_rtos.Hal.{storage, halfword, len_minus}
use ko_rtos.Hal.Address.{spi_cr1, spi_dr}
use ko_rtos.Hal.Spi.{SpiState}
use ko_rtos.Hal.Spi.Transfer.{is_wide, send_frame}
use ko_rtos.Hal.Spi.Interrupt.{spi_txeie_handle, spi_close_transmission, spi_notify}

-- The bytes of a frame, and its value.
abbrev pub frame_size : Bool → ℕ
frame_size true = 2
frame_size false = 1

abbrev pub frame_at : Bool → (ℕ → ℕ) → ℕ → ℕ
frame_at true mem buf = halfword mem buf
frame_at false mem buf = mem buf

-- The first `n` frames of a buffer.
abbrev pub frames : Bool → (ℕ → ℕ) → ℕ → ℕ → List ℕ
frames wide mem buf zero = []
frames wide mem buf (suc n) = frame_at wide mem buf ∷ frames wide mem (buf + frame_size wide) n

-- `n` interrupts: the values of DR after each, and the state after all.
unfoldable pub interrupts : ℕ → SpiState → List ℕ × SpiState
interrupts zero s = ([], s)
interrupts (suc n) s =
    let s' = spi_txeie_handle storage s in
    let (values, s'') = interrupts n s' in (s'.regs (s.handle.p_spix + spi_dr) ∷ values, s'')

-- The state after one frame is written and before the test of the length.
abbrev written : Bool → SpiState → SpiState
written wide s =
    let h = s.handle in
    record s {
      handle = record h {
        p_tx_buffer = h.p_tx_buffer + frame_size wide;
        tx_len = len_minus h.tx_len (frame_size wide);
      };
      regs = update s.regs (h.p_spix + spi_dr) (frame_at wide s.memory h.p_tx_buffer);
    }

handle-written :
    (wide : Bool) (s : SpiState)
    → is_wide (s.regs (s.handle.p_spix + spi_cr1)) ≡ wide
    → spi_txeie_handle storage s ≡ (
        if len_minus s.handle.tx_len (frame_size wide) == 0
        then spi_notify storage 0 (spi_close_transmission storage (written wide s))
        else written wide s)
unfolding spi_txeie_handle send_frame
handle-written true s e = rw e refl
handle-written false s e = rw e refl

-- The length after a frame.
left :
    (wide : Bool) (n len : ℕ)
    → len ≡ suc n * frame_size wide
    → len < 2 ^ 32
    → len_minus len (frame_size wide) ≡ n * frame_size wide
left true n len e small = omega arith
left false n len e small = omega arith

module _ (wide : Bool) (s : SpiState) (e : is_wide (s.regs (s.handle.p_spix + spi_cr1)) ≡ wide)
    (small : s.handle.tx_len < 2 ^ 32) where
  handle-last :
      s.handle.tx_len ≡ 1 * frame_size wide
      → spi_txeie_handle storage s
        ≡ spi_notify storage 0 (spi_close_transmission storage (written wide s))
  handle-last len =
      let none_left : 0 * frame_size wide ≡ 0 = omega arith in
      let last : (len_minus s.handle.tx_len (frame_size wide) == 0) ≡ true =
        ap (λ x. x == 0) {y = 0} (left wide 0 s.handle.tx_len len small ∙ none_left) in
      handle-written wide s e ∙ rw last refl

  handle-more :
      (n : ℕ)
      → s.handle.tx_len ≡ suc (suc n) * frame_size wide
      → spi_txeie_handle storage s ≡ written wide s
  handle-more n len =
      let more : (len_minus s.handle.tx_len (frame_size wide) == 0) ≡ false =
        ap (λ x. x == 0) (left wide (suc n) s.handle.tx_len len small) ∙ positive wide in
      handle-written wide s e ∙ rw more refl
    where
      positive : (w : Bool) → (suc n * frame_size w == 0) ≡ false
      positive true = ground arith
      positive false = ground arith

-- On registers that keep what is written, for frames of 8 or of 16 bits, as CR1 says: a transmission
-- of a positive number of frames, with their bytes below 2^32, takes as many interrupts. They write
-- the buffer's frames to DR in order, and the last one, and no other, reports the end, and leaves the
-- driver ready.
pub interrupts_complete :
    (wide : Bool) (n : ℕ) (s : SpiState)
    → is_wide (s.regs (s.handle.p_spix + spi_cr1)) ≡ wide
    → s.handle.tx_len ≡ suc n * frame_size wide
    → s.handle.tx_len < 2 ^ 32
    → let (values, t) = interrupts (suc n) s in
      (values ≡ frames wide s.memory s.handle.p_tx_buffer (suc n))
      × (t.events ≡ s.events ++ (0 ∷ []))
      × (t.handle.tx_state ≡ 0)
      × (t.handle.tx_len ≡ 0)
unfolding interrupts spi_close_transmission
interrupts_complete wide zero s e len small =
    rw (handle-last wide s e small len) (ap (λ x. x ∷ []) (ground arith), refl, refl, refl)
interrupts_complete wide (suc n) s e len small =
    let t = written wide s in
    let (values, events, state, done) =
      interrupts_complete wide n t
        (ap is_wide {y = s.regs (s.handle.p_spix + spi_cr1)} (ground arith) ∙ e)
        (left wide (suc n) s.handle.tx_len len small) (omega arith) in
    rw (handle-more wide s e small n len) (
      ap (λ x. x ∷ (interrupts (suc n) t).0) {y = frame_at wide s.memory s.handle.p_tx_buffer}
            (ground arith)
          ∙ ap (λ x. frame_at wide s.memory s.handle.p_tx_buffer ∷ x) values,
      events,
      state,
      done,
    )
