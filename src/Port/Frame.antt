-- ===== src/Port/Frame.antt =====
-- The frame that `port_init_task_stack_frame` builds.
use ko_rtos.Base.{
  ℕ, zero, suc, ◌+◌, ◌-◌, ◌*◌, ◌/◌, ◌%◌, ◌^◌, ◌≤◌, ◌<◌, ◌≡◌, refl, ◌∙◌, update, arith,
}
use ko_rtos.Types.{u32}
use ko_rtos.Port.{
  Stack, zero_words, word_down, push_word, port_init_task_stack_frame, dummy_stack_xpsr,
  exc_return_thread_psp,
}

-- One round of the loop.
abbrev zero_step : Stack → Stack
zero_step s = record { words = update s.words s.sp 0; sp = word_down s.sp }

-- The stack after the three words that come first.
abbrev pushed : ℕ → ℕ → (ℕ → ℕ) → Stack
pushed handler sp words =
    push_word exc_return_thread_psp
      (push_word handler (push_word dummy_stack_xpsr (record { words = words; sp = sp })))

-- The words that the loop has not reached stay, and its pointer comes down by 4 for each round.
zero_words-sp :
    (n : ℕ) (s : Stack) → 4 * n ≤ s.sp → s.sp < 2 ^ 32 → (zero_words n s).sp + 4 * n ≡ s.sp
unfolding zero_words
zero_words-sp zero s h l = omega arith
zero_words-sp (suc n) s h l =
    omega (arith, zero_words-sp n (zero_step s) (omega arith) (omega arith))

zero_words-above :
    (n : ℕ) (s : Stack) (a : ℕ)
    → 4 * n ≤ s.sp
    → s.sp < 2 ^ 32
    → s.sp < a
    → (zero_words n s).words a ≡ s.words a
unfolding zero_words
zero_words-above zero s a h l g = refl
zero_words-above (suc n) s a h l g =
    ground (arith, zero_words-above n (zero_step s) a (omega arith) (omega arith) (omega arith))

zero_words-at :
    (n j : ℕ) (s : Stack)
    → 4 * n ≤ s.sp
    → s.sp < 2 ^ 32
    → j < n
    → (zero_words n s).words (s.sp - 4 * j) ≡ 0
unfolding zero_words
zero_words-at zero j s h l g = absurd (omega arith)
zero_words-at (suc n) zero s h l g =
    ground (arith, zero_words-above n (zero_step s) s.sp (omega arith) (omega arith) (omega arith))
zero_words-at (suc n) (suc j) s h l g =
    let e : (word_down s.sp - 4 * j) ≡ (s.sp - 4 * suc j) = omega arith in
    rw (← e) (zero_words-at n j (zero_step s) (omega arith) (omega arith) (omega arith))

zero_words-below :
    (n : ℕ) (s : Stack) (a : ℕ)
    → 4 * n ≤ s.sp
    → s.sp < 2 ^ 32
    → a + 4 * n ≤ s.sp
    → (zero_words n s).words a ≡ s.words a
unfolding zero_words
zero_words-below zero s a h l g = refl
zero_words-below (suc n) s a h l g =
    ground (arith, zero_words-below n (zero_step s) a (omega arith) (omega arith) (omega arith))

-- The words of a new task's frame, `top` being the end of its stack, and the stack pointer.
pub record FrameAt (handler top : ℕ) (words : ℕ → ℕ) (s : Stack) : Type 0 where
  pub sp_below : s.sp + 64 ≡ top
  pub xpsr : s.words (top - 4) ≡ dummy_stack_xpsr
  pub pc : s.words (top - 8) ≡ handler
  pub zeros : (j : ℕ) → j < 13 → s.words (top - 12 - 4 * j) ≡ 0
  pub untouched : s.words s.sp ≡ words s.sp
  pub below : (a : ℕ) → a < s.sp → s.words a ≡ words a

-- The loop on the stack with the three words; its top is the end of the stack.
zeroed-FrameAt :
    (handler top : ℕ) (words : ℕ → ℕ)
    → 64 ≤ top
    → top < 2 ^ 32
    → FrameAt handler top words (zero_words 13 (pushed handler top words))
zeroed-FrameAt handler top words h l =
    let s = pushed handler top words in
    let sp : s.sp ≡ top - 12 = omega arith in
    let low : 4 * 13 ≤ s.sp = omega arith in
    let high : s.sp < 2 ^ 32 = omega arith in
    let down = zero_words-sp 13 s low high in
    record {
      sp_below = omega (arith, down);
      xpsr = zero_words-above 13 s (top - 4) low high (omega arith) ∙ ground arith;
      pc = zero_words-above 13 s (top - 8) low high (omega arith) ∙ ground arith;
      zeros = λ j g. rw (← sp) (zero_words-at 13 j s low high g);
      untouched =
          zero_words-below 13 s _ low high (omega (arith, down))
          ∙ pushed-below _ (omega (arith, down));
      below = λ a g.
          zero_words-below 13 s a low high (omega (arith, down))
          ∙ pushed-below a (omega (arith, down));
    }
  where
    pushed-below : (a : ℕ) → a + 12 < top → (pushed handler top words).words a ≡ words a
    pushed-below a g = ground arith

-- On a stack of at least 16 words that ends at a 32-bit address, the frame holds the xPSR with the
-- Thumb bit and the task's handler as the PC; the 13 words below them, the LR among them, are 0;
-- the stack pointer is 16 words below the end, and the word that it points to, from which R4 is
-- loaded, and all words below keep what they had.
pub port_init_task_stack_frame-FrameAt :
    (handler base size : ℕ) (words : ℕ → ℕ)
    → size % 4 ≡ 0
    → 64 ≤ size
    → base + size < 2 ^ 32
    → FrameAt handler (base + size) words (port_init_task_stack_frame handler base size words)
unfolding port_init_task_stack_frame
port_init_task_stack_frame-FrameAt handler base size words al room fits =
    let same : u32 (base + size / 4 * 4) ≡ base + size = omega arith in
    rw same (zeroed-FrameAt handler (base + size) words (omega arith) fits)
