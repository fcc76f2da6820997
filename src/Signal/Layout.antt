-- ===== src/Signal/Layout.antt =====
-- Where the signal frame lies on the user stack.
use rumicos.Base.{ℕ, ◌+◌, ◌-◌, ◌*◌, ◌/◌, ◌%◌, ◌^◌, ◌≤◌, ◌<◌, ◌≡◌, ap, ◌∙◌, arith, bit_and}
use rumicos.Base.Masks.{bit_and-high, bit_and-low}
use rumicos.Signal.{compute_signal_frame_layout, ctx_size, sub64}

-- Clearing the low four bits of a word.
align_16 : (x : ℕ) → x < 2 ^ 64 → bit_and x (2 ^ 64 - 16) ≡ x / 16 * 16
align_16 x h =
    bit_and-high 4 x (2 ^ 60 - 1) ∙ ap (λ (t : ℕ). t * 16) (bit_and-low 60 (x / 16) ∙ omega arith)

-- On a stack with room for it, the frame lies whole below the 128-byte red zone and no more than
-- 295 bytes under the stack pointer; the saved context is aligned to 16, and the handler is
-- entered with its stack pointer 8 off that, as after a call.
pub compute_signal_frame_layout_lem :
    (user_rsp : ℕ)
    → 295 ≤ user_rsp
    → user_rsp < 2 ^ 64
    → let f = compute_signal_frame_layout user_rsp in
      (f.ctx_addr % 16 ≡ 0)
      × (f.ret_addr_slot % 16 ≡ 8)
      × (f.ret_addr_slot + 8 ≡ f.ctx_addr)
      × (f.ctx_addr + ctx_size + 128 ≤ user_rsp)
      × (user_rsp ≤ f.ret_addr_slot + 295)
unfolding compute_signal_frame_layout
compute_signal_frame_layout_lem user_rsp low high =
    let e = align_16 (sub64 (sub64 user_rsp 128) ctx_size) (omega arith) in
    (omega (arith, e), omega (arith, e), omega (arith, e), omega (arith, e), omega (arith, e))
