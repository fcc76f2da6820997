-- ===== src/Signal.antt =====
-- crates/proc/src/signal.rs: the pending set, the choice of the next signal and the layout of
-- the signal frame. `AtomicU64` words are numbers below 2 ^ 64.
pub mod Pending
pub mod Decide
pub mod Layout
pub mod Registers
pub mod Delivery
pub mod Examples
use rumicos.Base.{
  ℕ, zero, suc, ◌+◌, ◌-◌, ◌*◌, ◌/◌, ◌%◌, ◌^◌, Bool, true, false, ◌&&◌, not, List, [], ◌∷◌, Option,
  none, some, if◌then◌else◌, ltb, leb, ◌==◌, bit_and, bit_or, bit_xor, get_or, replicate,
}

abbrev pub nsig : ℕ
nsig = 32

abbrev pub sigkill : ℕ
sigkill = 9

abbrev pub sigterm : ℕ
sigterm = 15

abbrev pub signal_handler_rflags : ℕ
signal_handler_rflags = 0x202

abbrev pub sigreturn_trampoline_va : ℕ
sigreturn_trampoline_va = 0x1000_0000

pub data SigAction : Type 0 where
  default ignore : SigAction
  handler : ℕ → SigAction

abbrev pub SigTable : Type 0
SigTable = List SigAction

pub new_table : SigTable
new_table = replicate nsig default

-- `1u64 << signum`: the count is reduced to the width, as in a build without overflow checks.
abbrev pub shifted_one : ℕ → ℕ
shifted_one signum = 2 ^ (signum % 64)

-- `!(1u64 << signum)`.
abbrev pub all_but : ℕ → ℕ
all_but signum = bit_xor (2 ^ 64 - 1) (shifted_one signum)

pub raise : ℕ → ℕ → ℕ
raise bits signum = bit_or bits (shifted_one signum)

-- `u64::trailing_zeros`, over the number of digits left.
pub trailing_zeros : ℕ → ℕ → ℕ
trailing_zeros zero n = 0
trailing_zeros (suc w) n =
    let rest = suc (trailing_zeros w (n / 2)) in if n % 2 == 1 then 0 else rest

-- One success of the exchange: the word left behind, and the signal taken.
take_lowest : ℕ → ℕ × Option ℕ
take_lowest cur = let signum = trailing_zeros 64 cur in (bit_and cur (all_but signum), some signum)

-- The loop of `take_any` over the word it last saw. Each entry of the schedule is one exchange
-- that fails: what other CPUs have raised since is or-ed in, or 0 where it fails for no reason.
pub take_any : List ℕ → ℕ → ℕ × Option ℕ
unfolding take_lowest trailing_zeros
take_any [] cur = if cur == 0 then (cur, none) else take_lowest cur
take_any (m ∷ ms) cur =
    let again = take_any ms (bit_or cur m) in if cur == 0 then (cur, none) else again

pub data SignalOutcome : Type 0 where
  nothing : SignalOutcome
  terminate : ℕ → SignalOutcome
  deliver : ℕ → ℕ → SignalOutcome

decide_action : ℕ → SigAction → SignalOutcome
decide_action signum (handler user_fn) = deliver user_fn signum
decide_action signum ignore = nothing
decide_action signum default = if signum == sigterm then terminate signum else nothing

pub decide_signal : SigTable → Option ℕ → SignalOutcome
unfolding decide_action
decide_signal table none = nothing
decide_signal table (some signum) =
    if signum == sigkill
    then terminate signum
    else if leb nsig signum
    then nothing
    else decide_action signum (get_or table signum default)

-- The word of pending signals after the call, and the outcome.
pub decide_next_signal : List ℕ → ℕ → SigTable → ℕ × SignalOutcome
unfolding take_any decide_signal
decide_next_signal schedule pending table =
    let (pending', taken) = take_any schedule pending in (pending', decide_signal table taken)

pub signal_is_catchable : ℕ → Bool
signal_is_catchable signum = not (signum == 0) && (not (signum == sigkill) && ltb signum nsig)

unfoldable pub returning_to_user : ℕ → Bool
returning_to_user cs = bit_and cs 3 == 3

pub record SignalFrameLayout : Type 0 where
  pub ctx_addr : ℕ
  pub ret_addr_slot : ℕ

-- `size_of::<SavedUserContext>()`: eighteen 64-bit fields.
abbrev pub ctx_size : ℕ
ctx_size = 144

abbrev pub sub64 : ℕ → ℕ → ℕ
sub64 a b = (a + 2 ^ 64 - b) % 2 ^ 64

pub compute_signal_frame_layout : ℕ → SignalFrameLayout
compute_signal_frame_layout user_rsp =
    let red_zone_bottom = sub64 user_rsp 128 in
    let ctx_addr = bit_and (sub64 red_zone_bottom ctx_size) (2 ^ 64 - 16) in
    record { ctx_addr = ctx_addr; ret_addr_slot = sub64 ctx_addr 8 }
