-- ===== src/Paging/Indices.antt =====
-- The four indices and the offset of a virtual address.
use rumicos.Base.{
  ℕ, ◌+◌, ◌*◌, ◌/◌, ◌^◌, ◌<◌, ◌≡◌, inl, inr, Bool, true, ◌||◌, arith, if◌then◌else◌, ◌==◌,
  Bool-cases,
}
use rumicos.Base.Masks.{bit_and-low}
use rumicos.Paging.{
  pml4_index, pdpt_index, pd_index, pt_index, page_offset, is_user_space, is_kernel_space,
}

-- The parts of an address put together, with the sign of a kernel address.
abbrev pub assembled : Bool → ℕ → ℕ → ℕ → ℕ → ℕ → ℕ
assembled kernel i4 i3 i2 i1 offset =
    (if kernel then 0xFFFF * 2 ^ 48 else 0)
    + (i4 * 2 ^ 39 + i3 * 2 ^ 30 + i2 * 2 ^ 21 + i1 * 2 ^ 12 + offset)

-- A canonical address is the sum of its four indices and its offset at their places, with the sign
-- of the kernel half; each index is within a table, and the offset within a page.
pub indices_lem :
    (virt : ℕ)
    → virt < 2 ^ 64
    → (is_user_space virt || is_kernel_space virt) ≡ true
    → (virt
        ≡ assembled
            (is_kernel_space virt)
            (pml4_index virt)
            (pdpt_index virt)
            (pd_index virt)
            (pt_index virt)
            (page_offset virt))
      × (pml4_index virt < 512)
      × (pdpt_index virt < 512)
      × (pd_index virt < 512)
      × (pt_index virt < 512)
      × (page_offset virt < 4096)
unfolding pml4_index pdpt_index pd_index pt_index page_offset is_user_space is_kernel_space
indices_lem virt word canonical =
    let e4 = bit_and-low 9 (virt / 2 ^ 39) in
    let e3 = bit_and-low 9 (virt / 2 ^ 30) in
    let e2 = bit_and-low 9 (virt / 2 ^ 21) in
    let e1 = bit_and-low 9 (virt / 2 ^ 12) in
    let e0 = bit_and-low 12 virt in
    rw (e4, e3, e2, e1, e0)
      (
        (elim (Bool-cases (virt / 2 ^ 47 == 0x1FFFF)) [
          | inl kernel ↦
              let half : virt / 2 ^ 47 ≡ 0x1FFFF = ground arith in
              rw kernel (omega (arith, half, word))
          | inr user ↦
              let half : virt / 2 ^ 47 ≡ 0 = ground (arith, canonical) in
              rw user (omega (arith, half))
        ]),
        omega arith,
        omega arith,
        omega arith,
        omega arith,
        omega arith,
      )
