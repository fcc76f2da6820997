-- ===== src/Signal/Registers.antt =====
-- The register sets that signal delivery copies: `SavedUserContext` of crates/proc/src/signal.rs,
-- `InterruptFrame` of crates/cpu/src/idt.rs and `SyscallFrame` of crates/cpu/src/syscall.rs.
use rumicos.Base.{ℕ}

pub record SavedUserContext : Type 0 where
  pub user_rip : ℕ
  pub user_rsp : ℕ
  pub user_rflags : ℕ
  pub rax : ℕ
  pub rbx : ℕ
  pub rcx : ℕ
  pub rdx : ℕ
  pub rsi : ℕ
  pub rdi : ℕ
  pub rbp : ℕ
  pub r8 : ℕ
  pub r9 : ℕ
  pub r10 : ℕ
  pub r11 : ℕ
  pub r12 : ℕ
  pub r13 : ℕ
  pub r14 : ℕ
  pub r15 : ℕ

unfoldable pub zeroed : SavedUserContext
zeroed = record {
  user_rip = 0;
  user_rsp = 0;
  user_rflags = 0;
  rax = 0;
  rbx = 0;
  rcx = 0;
  rdx = 0;
  rsi = 0;
  rdi = 0;
  rbp = 0;
  r8 = 0;
  r9 = 0;
  r10 = 0;
  r11 = 0;
  r12 = 0;
  r13 = 0;
  r14 = 0;
  r15 = 0;
}

-- `InterruptFrame` of crates/cpu/src/idt.rs.
pub record InterruptFrame : Type 0 where
  pub rdi : ℕ
  pub rsi : ℕ
  pub rbp : ℕ
  pub rax : ℕ
  pub rbx : ℕ
  pub rcx : ℕ
  pub rdx : ℕ
  pub r8 : ℕ
  pub r9 : ℕ
  pub r10 : ℕ
  pub r11 : ℕ
  pub r12 : ℕ
  pub r13 : ℕ
  pub r14 : ℕ
  pub r15 : ℕ
  pub vector_slot : ℕ
  pub error_code : ℕ
  pub rip : ℕ
  pub cs : ℕ
  pub rflags : ℕ
  pub rsp : ℕ
  pub ss : ℕ

-- `SyscallFrame` of crates/cpu/src/syscall.rs.
pub record SyscallFrame : Type 0 where
  pub user_rip : ℕ
  pub user_rsp : ℕ
  pub user_rflags : ℕ
  pub rbx : ℕ
  pub rbp : ℕ
  pub r12 : ℕ
  pub r13 : ℕ
  pub r14 : ℕ
  pub r15 : ℕ
