-- ===== src/Signal/Delivery/Resume.antt =====
-- A handler returns to where its signal interrupted the program.
use rumicos.Base.{
  ℕ, ◌+◌, ◌*◌, ◌^◌, ◌≤◌, ◌<◌, ◌≡◌, refl, ap, ◌∙◌, List, [], ◌∷◌, none, some, arith, update, length,
  update_ne, update_self,
}
use rumicos.Signal.{
  SignalOutcome, deliver, decide_next_signal, signal_handler_rflags, sigreturn_trampoline_va,
  compute_signal_frame_layout,
}
use rumicos.Signal.Layout.{compute_signal_frame_layout_lem}
use rumicos.Signal.Registers.{SavedUserContext, InterruptFrame, SyscallFrame}
use rumicos.Signal.Delivery.{
  Proc, resumes, returns, check_and_deliver_iret, iret_unless_nested, iret_outcome,
  deliver_on_syscall_return, syscall_unless_nested, sys_sigreturn, interrupted_context,
  write_signal_frame, write_words, words,
}

-- While a handler is in flight no second signal is delivered: both paths leave the process, its
-- pending signals included, and the registers as they are.
pub no_nesting :
    (schedule : List ℕ) (p : Proc) (running : SavedUserContext)
    → p.sig_frame ≡ some running
    → ((f : InterruptFrame) → check_and_deliver_iret schedule p f ≡ resumes p f)
      × ((f : SyscallFrame) (retval : ℕ)
          → deliver_on_syscall_return schedule p f retval ≡ returns p retval)
unfolding check_and_deliver_iret deliver_on_syscall_return
no_nesting schedule p running e = (
  λ f. ap (iret_unless_nested schedule p f) e,
  λ f retval. ap (syscall_unless_nested schedule p f retval) e,
)

-- Writes below `top` leave the memory from `top` on alone.
write_words-above :
    (ws : List ℕ) (mem : ℕ → ℕ) (addr a : ℕ)
    → addr + 8 * length ws ≤ a + 7
    → write_words mem addr ws a ≡ mem a
unfolding write_words
write_words-above [] mem addr a h = refl
write_words-above (w ∷ ws) mem addr a h =
    write_words-above ws (update mem addr w) (addr + 8) a (omega arith)
    ∙ update_ne mem addr w a (λ e. omega (arith, e))

write_signal_frame-returns :
    (mem : ℕ → ℕ) (ctx : SavedUserContext) (user_rsp : ℕ)
    → (write_signal_frame mem ctx user_rsp).0 (write_signal_frame mem ctx user_rsp).1
      ≡ sigreturn_trampoline_va
unfolding write_signal_frame
write_signal_frame-returns mem ctx user_rsp =
    let f = compute_signal_frame_layout user_rsp in
    update_self (write_words mem f.ctx_addr (words ctx)) f.ret_addr_slot sigreturn_trampoline_va

-- The frame leaves the red zone and everything above it alone.
write_signal_frame-above :
    (mem : ℕ → ℕ) (ctx : SavedUserContext) (user_rsp a : ℕ)
    → 295 ≤ user_rsp
    → user_rsp < 2 ^ 64
    → user_rsp ≤ a + 128
    → (write_signal_frame mem ctx user_rsp).0 a ≡ mem a
unfolding write_signal_frame
write_signal_frame-above mem ctx user_rsp a low high h =
    let f = compute_signal_frame_layout user_rsp in
    let place = compute_signal_frame_layout_lem user_rsp low high in
    update_ne (write_words mem f.ctx_addr (words ctx)) f.ret_addr_slot sigreturn_trampoline_va a
      (λ e. omega (arith, e, place.2, place.3))
    ∙ write_words-above (words ctx) mem f.ctx_addr a (omega (arith, place.3))

-- A handler delivered on the way out of an interrupt starts at the registered function with the
-- signal as its argument and the trampoline as its return address, with the red zone and all
-- above it intact; and when it returns by `sigreturn`, every register is as it was interrupted,
-- but for RCX and R11, which hold RIP and RFLAGS.
pub iret_round_trip :
    (schedule : List ℕ) (p : Proc) (f : InterruptFrame) (user_fn signum left : ℕ)
    → p.sig_frame ≡ none
    → decide_next_signal schedule p.pending p.sig_table ≡ (left, deliver user_fn signum)
    → 295 ≤ f.rsp
    → f.rsp < 2 ^ 64
    → (q : Proc) × (sp : ℕ) × (check_and_deliver_iret schedule p f
        ≡ resumes q
            (record f { rip = user_fn; rsp = sp; rflags = signal_handler_rflags; rdi = signum }))
      × (q.pending ≡ left)
      × (q.user_mem sp ≡ sigreturn_trampoline_va)
      × ((a : ℕ) → f.rsp ≤ a + 128 → q.user_mem a ≡ p.user_mem a)
      × (sys_sigreturn q
          ≡ resumes
              (record q { sig_frame = none })
              (record {
                user_rip = f.rip;
                user_rsp = f.rsp;
                user_rflags = f.rflags;
                rax = f.rax;
                rbx = f.rbx;
                rcx = f.rip;
                rdx = f.rdx;
                rsi = f.rsi;
                rdi = f.rdi;
                rbp = f.rbp;
                r8 = f.r8;
                r9 = f.r9;
                r10 = f.r10;
                r11 = f.rflags;
                r12 = f.r12;
                r13 = f.r13;
                r14 = f.r14;
                r15 = f.r15;
              }))
unfolding check_and_deliver_iret sys_sigreturn write_signal_frame
iret_round_trip schedule p f user_fn signum left idle decided low high = (
  record {
    pending = left;
    sig_table = p.sig_table;
    sig_frame = some (interrupted_context f);
    user_mem = (write_signal_frame p.user_mem (interrupted_context f) f.rsp).0;
  },
  (write_signal_frame p.user_mem (interrupted_context f) f.rsp).1,
  ap (iret_unless_nested schedule p f) idle
      ∙ ap (λ (d : ℕ × SignalOutcome). iret_outcome (record p { pending = d.0 }) f d.1) decided,
  refl,
  write_signal_frame-returns p.user_mem (interrupted_context f) f.rsp,
  λ a h. write_signal_frame-above p.user_mem (interrupted_context f) f.rsp a low high h,
  refl,
)
