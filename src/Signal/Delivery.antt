-- ===== src/Signal/Delivery.antt =====
-- Delivery of a signal and the return from its handler: `check_and_deliver_iret`,
-- `deliver_on_syscall_return` and `write_signal_frame` of crates/proc/src/signal.rs, with
-- `sys_sigreturn` of crates/proc/src/syscall.rs and the register loads of
-- `enter_user_mode_restoring` of crates/proc/src/process.rs. User memory is a store of 64-bit
-- words by their address; the kernel's own registers and the page tables do not take part.
pub mod Resume
use rumicos.Base.{ℕ, zero, suc, ◌+◌, ◌*◌, List, [], ◌∷◌, Option, none, some, update}
use rumicos.Base.Int.{ℤ, pos, negsuc}
use rumicos.Signal.{
  SigTable, SignalOutcome, nothing, terminate, deliver, decide_next_signal, sigkill,
  signal_handler_rflags, sigreturn_trampoline_va, compute_signal_frame_layout,
}
use rumicos.Signal.Registers.{SavedUserContext, InterruptFrame, SyscallFrame, zeroed}

-- The fields of a process that signals touch, with its user memory.
pub record Proc : Type 0 where
  pub pending : ℕ
  pub sig_table : SigTable
  pub sig_frame : Option SavedUserContext
  pub user_mem : ℕ → ℕ

-- The fields of a context in the order in which they lie in memory.
abbrev pub words : SavedUserContext → List ℕ
words c =
    c.user_rip ∷ c.user_rsp ∷ c.user_rflags ∷ c.rax ∷ c.rbx ∷ c.rcx ∷ c.rdx ∷ c.rsi ∷ c.rdi ∷ c.rbp
    ∷ c.r8 ∷ c.r9 ∷ c.r10 ∷ c.r11 ∷ c.r12 ∷ c.r13 ∷ c.r14 ∷ c.r15 ∷ []

pub write_words : (ℕ → ℕ) → ℕ → List ℕ → ℕ → ℕ
write_words mem addr [] = mem
write_words mem addr (w ∷ ws) = write_words (update mem addr w) (addr + 8) ws

-- The user memory and the stack pointer with which the handler starts.
pub write_signal_frame : (ℕ → ℕ) → SavedUserContext → ℕ → (ℕ → ℕ) × ℕ
unfolding write_words compute_signal_frame_layout
write_signal_frame mem ctx user_rsp =
    let layout = compute_signal_frame_layout user_rsp in
    (
      update (write_words mem layout.ctx_addr (words ctx)) layout.ret_addr_slot
          sigreturn_trampoline_va,
      layout.ret_addr_slot,
    )

-- `-(signum as i32)`.
pub negated : ℕ → ℤ
negated zero = pos 0
negated (suc n) = negsuc n

-- How an interrupt or a `sigreturn` goes on: back to user mode with these registers, or out of
-- the process by `Process::exit`.
pub data Return (Regs : Type 0) : Type 0 where
  resumes : Proc → Regs → Return Regs
  exits : Proc → ℤ → Return Regs

pub interrupted_context : InterruptFrame → SavedUserContext
interrupted_context f = record {
  user_rip = f.rip;
  user_rsp = f.rsp;
  user_rflags = f.rflags;
  rax = f.rax;
  rbx = f.rbx;
  rcx = f.rcx;
  rdx = f.rdx;
  rsi = f.rsi;
  rdi = f.rdi;
  rbp = f.rbp;
  r8 = f.r8;
  r9 = f.r9;
  r10 = f.r10;
  r11 = f.r11;
  r12 = f.r12;
  r13 = f.r13;
  r14 = f.r14;
  r15 = f.r15;
}

iret_outcome : Proc → InterruptFrame → SignalOutcome → Return InterruptFrame
unfolding interrupted_context write_signal_frame negated
iret_outcome p f nothing = resumes p f
iret_outcome p f (terminate signum) = exits p (negated signum)
iret_outcome p f (deliver user_fn signum) =
    let ctx = interrupted_context f in
    let (mem, ret_addr_slot) = write_signal_frame p.user_mem ctx f.rsp in
    resumes (record p { sig_frame = some ctx; user_mem = mem })
      (record f {
        rip = user_fn;
        rsp = ret_addr_slot;
        rflags = signal_handler_rflags;
        rdi = signum;
      })

iret_unless_nested :
    List ℕ → Proc → InterruptFrame → Option SavedUserContext → Return InterruptFrame
unfolding iret_outcome decide_next_signal
iret_unless_nested schedule p f (some running) = resumes p f
iret_unless_nested schedule p f none =
    let (pending, outcome) = decide_next_signal schedule p.pending p.sig_table in
    iret_outcome (record p { pending = pending }) f outcome

pub check_and_deliver_iret : List ℕ → Proc → InterruptFrame → Return InterruptFrame
unfolding iret_unless_nested
check_and_deliver_iret schedule p f = iret_unless_nested schedule p f p.sig_frame

-- How a system call goes on: with its result, by exit, or in a handler entered with these
-- registers (`enter_signal_handler` also sets RAX to 0).
pub record HandlerEntry : Type 0 where
  pub rip : ℕ
  pub rsp : ℕ
  pub rflags : ℕ
  pub rdi : ℕ

pub data SyscallReturn : Type 0 where
  returns : Proc → ℕ → SyscallReturn
  exits : Proc → ℤ → SyscallReturn
  enters : Proc → HandlerEntry → SyscallReturn

pub syscall_context : SyscallFrame → ℕ → SavedUserContext
unfolding zeroed
syscall_context f retval =
    let ctx = zeroed in
    record ctx {
      user_rip = f.user_rip;
      user_rsp = f.user_rsp;
      user_rflags = f.user_rflags;
      rax = retval;
      rbx = f.rbx;
      rbp = f.rbp;
      r12 = f.r12;
      r13 = f.r13;
      r14 = f.r14;
      r15 = f.r15;
    }

-- `setup_and_enter_handler`.
pub setup_and_enter_handler : Proc → SyscallFrame → ℕ → ℕ → ℕ → SyscallReturn
unfolding syscall_context write_signal_frame
setup_and_enter_handler p f user_fn signum retval =
    let ctx = syscall_context f retval in
    let (mem, ret_addr_slot) = write_signal_frame p.user_mem ctx f.user_rsp in
    enters (record p { sig_frame = some ctx; user_mem = mem })
      (record { rip = user_fn; rsp = ret_addr_slot; rflags = signal_handler_rflags; rdi = signum })

syscall_outcome : Proc → SyscallFrame → ℕ → SignalOutcome → SyscallReturn
unfolding setup_and_enter_handler negated
syscall_outcome p f retval nothing = returns p retval
syscall_outcome p f retval (terminate signum) = SyscallReturn.exits p (negated signum)
syscall_outcome p f retval (deliver user_fn signum) =
    setup_and_enter_handler p f user_fn signum retval

syscall_unless_nested : List ℕ → Proc → SyscallFrame → ℕ → Option SavedUserContext → SyscallReturn
unfolding syscall_outcome decide_next_signal
syscall_unless_nested schedule p f retval (some running) = returns p retval
syscall_unless_nested schedule p f retval none =
    let (pending, outcome) = decide_next_signal schedule p.pending p.sig_table in
    syscall_outcome (record p { pending = pending }) f retval outcome

pub deliver_on_syscall_return : List ℕ → Proc → SyscallFrame → ℕ → SyscallReturn
unfolding syscall_unless_nested
deliver_on_syscall_return schedule p f retval =
    syscall_unless_nested schedule p f retval p.sig_frame

-- The registers that `enter_user_mode_restoring` leaves: SYSRET takes RIP from RCX and RFLAGS
-- from R11.
pub restored : SavedUserContext → SavedUserContext
restored ctx = record ctx { rcx = ctx.user_rip; r11 = ctx.user_rflags }

return_to : Proc → Option SavedUserContext → Return SavedUserContext
unfolding restored negated
return_to p none = Return.exits p (negated sigkill)
return_to p (some ctx) = resumes p (restored ctx)

pub sys_sigreturn : Proc → Return SavedUserContext
unfolding return_to
sys_sigreturn p = return_to (record p { sig_frame = none }) p.sig_frame
