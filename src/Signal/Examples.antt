-- ===== src/Signal/Examples.antt =====
-- A process with a handler for SIGTERM, at the moments where signals are looked at.
use rumicos.Base.{
  ℕ, ◌+◌, ◌^◌, ◌≤◌, ◌<◌, ◌≡◌, ◌⊎◌, refl, List, [], ◌∷◌, none, some, arith, set, replicate,
}
use rumicos.Base.Bits.{bit, bit-pow_ne}
use rumicos.Signal.{
  SigTable, handler, default, deliver, terminate, decide_next_signal, nsig, sigkill, sigterm,
  take_any, signal_handler_rflags, sigreturn_trampoline_va,
}
use rumicos.Signal.Pending.{Takes, all_raised, take_any-Takes}
use rumicos.Signal.Decide.{Allowed, decide_next_signal-Allowed, drained, sigkill_terminates}
use rumicos.Signal.Registers.{InterruptFrame, SyscallFrame, zeroed}
use rumicos.Signal.Delivery.{Proc, resumes, check_and_deliver_iret, sys_sigreturn}
use rumicos.Signal.Delivery.Resume.{iret_round_trip}

abbrev term_handled : SigTable
term_handled = set (replicate nsig default) sigterm (handler 0x40_1000)

-- SIGTERM is pending, and SIGKILL is raised while the exchange of `take_any` fails.
abbrev term_pending : ℕ
term_pending = 2 ^ 15

abbrev kill_raised : List ℕ
kill_raised = 2 ^ 9 ∷ []

take_any-Takes_example :
    let (left, taken) = take_any kill_raised term_pending in
    ((term_pending ≡ 0) × (left ≡ 0) × (taken ≡ none))
    ⊎ ((s : ℕ) × (taken ≡ some s) × Takes (all_raised kill_raised term_pending) left s)
take_any-Takes_example = take_any-Takes kill_raised term_pending (omega arith, tt) (omega arith)

decide_next_signal-Allowed_example :
    let (left, outcome) = decide_next_signal kill_raised term_pending term_handled in
    (s : ℕ) × Takes (all_raised kill_raised term_pending) left s × Allowed term_handled s outcome
decide_next_signal-Allowed_example =
    decide_next_signal-Allowed kill_raised term_pending term_handled (omega arith, tt) (omega arith)
      (λ e. omega (arith, e))

kill_is_pending : bit (2 ^ 15 + 2 ^ 9) sigkill ≡ 1
unfolding bit
kill_is_pending = refl

-- SIGCHLD is raised before each decision.
abbrev child_raised : ℕ → List ℕ
child_raised k = 2 ^ 17 ∷ []

child_raised-NoneBelow : (i : ℕ) → i < sigkill → bit (2 ^ 17) i ≡ 0
child_raised-NoneBelow i h = bit-pow_ne 17 i (λ e. omega (arith, e, h))

sigkill_terminates_example :
    (k : ℕ) × (k ≤ 9)
    × ((decide_next_signal
          (child_raised k)
          (drained term_handled child_raised k (2 ^ 15 + 2 ^ 9))
          term_handled).1
        ≡ terminate sigkill)
sigkill_terminates_example =
    sigkill_terminates (2 ^ 15 + 2 ^ 9) term_handled child_raised (omega arith) kill_is_pending
      (λ i. ((omega arith, tt), (child_raised-NoneBelow, tt)))

abbrev stack_top : ℕ
stack_top = 0x7fff_0000

abbrev no_memory : ℕ → ℕ
no_memory a = 0

abbrev in_handler : Proc
in_handler = record {
  pending = term_pending;
  sig_table = term_handled;
  sig_frame = some zeroed;
  user_mem = no_memory;
}

abbrev in_program : Proc
in_program = record {
  pending = term_pending;
  sig_table = term_handled;
  sig_frame = none;
  user_mem = no_memory;
}

term_is_delivered : decide_next_signal [] term_pending term_handled ≡ (0, deliver 0x40_1000 sigterm)
unfolding decide_next_signal
term_is_delivered = refl

abbrev at_interrupt : InterruptFrame
at_interrupt = record {
  rdi = 1;
  rsi = 2;
  rbp = 3;
  rax = 4;
  rbx = 5;
  rcx = 6;
  rdx = 7;
  r8 = 8;
  r9 = 9;
  r10 = 10;
  r11 = 11;
  r12 = 12;
  r13 = 13;
  r14 = 14;
  r15 = 15;
  vector_slot = 32;
  error_code = 0;
  rip = 0x40_2000;
  cs = 0x23;
  rflags = 0x202;
  rsp = stack_top;
  ss = 0x1b;
}

iret_round_trip_example :
    (q : Proc) × (sp : ℕ) × (check_and_deliver_iret [] in_program at_interrupt
      ≡ resumes q (record at_interrupt {
        rip = 0x40_1000;
        rsp = sp;
        rflags = signal_handler_rflags;
        rdi = sigterm;
      }))
    × (q.pending ≡ 0)
    × (q.user_mem sp ≡ sigreturn_trampoline_va)
    × ((a : ℕ) → stack_top ≤ a + 128 → q.user_mem a ≡ 0)
    × (sys_sigreturn q
        ≡ resumes
            (record q { sig_frame = none })
            (record {
              user_rip = 0x40_2000;
              user_rsp = stack_top;
              user_rflags = 0x202;
              rax = 4;
              rbx = 5;
              rcx = 0x40_2000;
              rdx = 7;
              rsi = 2;
              rdi = 1;
              rbp = 3;
              r8 = 8;
              r9 = 9;
              r10 = 10;
              r11 = 0x202;
              r12 = 12;
              r13 = 13;
              r14 = 14;
              r15 = 15;
            }))
iret_round_trip_example =
    iret_round_trip [] in_program at_interrupt 0x40_1000 sigterm 0 refl term_is_delivered
      (omega arith) (omega arith)

abbrev at_syscall : SyscallFrame
at_syscall = record {
  user_rip = 0x40_2000;
  user_rsp = stack_top;
  user_rflags = 0x202;
  rbx = 5;
  rbp = 3;
  r12 = 12;
  r13 = 13;
  r14 = 14;
  r15 = 15;
}
