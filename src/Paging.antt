-- ===== src/Paging.antt =====
-- crates/paging/src/entry.rs and crates/paging/src/address.rs: the words of a page table.
pub mod Fields
pub mod Indices
pub mod Walk
mod Examples
use rumicos.Base.{
  ℕ, ◌+◌, ◌-◌, ◌*◌, ◌/◌, ◌%◌, ◌^◌, Bool, true, false, not, if◌then◌else◌, ◌==◌, leb, bit_and,
  bit_or,
}

abbrev pub present : ℕ
present = 2 ^ 0

abbrev pub writable : ℕ
writable = 2 ^ 1

abbrev pub user_accessible : ℕ
user_accessible = 2 ^ 2

abbrev pub huge_page : ℕ
huge_page = 2 ^ 7

abbrev pub cow : ℕ
cow = 2 ^ 10

abbrev pub no_execute : ℕ
no_execute = 2 ^ 63

-- `PhysAddr::new`, and the address kept in it.
pub phys_new : ℕ → ℕ
phys_new addr = bit_and addr 0x000F_FFFF_FFFF_FFFF

pub frame_bits : ℕ → ℕ
frame_bits phys = bit_and (phys / 2 ^ 12) 0xF_FFFF_FFFF

pub with_present : ℕ → ℕ
with_present flags = bit_or flags present

pub with_writable : ℕ → ℕ
with_writable flags = bit_or flags writable

pub with_cow : ℕ → ℕ
with_cow flags = bit_or flags cow

-- `flags & !WRITABLE` and `flags & !COW`.
pub without_writable : ℕ → ℕ
without_writable flags = bit_and flags (2 ^ 64 - 1 - writable)

pub without_cow : ℕ → ℕ
without_cow flags = bit_and flags (2 ^ 64 - 1 - cow)

pub new_page : ℕ → ℕ → ℕ
new_page phys flags = bit_or (frame_bits phys * 2 ^ 12 % 2 ^ 64) flags

pub new_table : ℕ → ℕ
new_table phys = new_page phys (with_writable (with_present 0))

pub frame : ℕ → ℕ
frame entry = phys_new (bit_and (entry / 2 ^ 12) 0xF_FFFF_FFFF * 2 ^ 12 % 2 ^ 64)

pub flags_of : ℕ → ℕ
flags_of entry = bit_or (bit_and entry 0xFFF) (bit_and entry no_execute)

pub with_flags : ℕ → ℕ → ℕ
with_flags entry flags = new_page (frame entry) flags

pub is_present : ℕ → Bool
is_present entry = not (bit_and entry present == 0)

pub is_writable : ℕ → Bool
is_writable entry = not (bit_and entry writable == 0)

pub is_huge_page : ℕ → Bool
is_huge_page entry = not (bit_and entry huge_page == 0)

pub is_cow : ℕ → Bool
is_cow entry = not (bit_and entry cow == 0)

pub make_cr3 : ℕ → ℕ → Bool → ℕ
make_cr3 pml4_phys pcid noflush =
    let cr3 = bit_or (frame_bits pml4_phys * 2 ^ 12 % 2 ^ 64) (bit_and pcid 0xFFF) in
    if noflush then bit_or cr3 (2 ^ 63) else cr3

pub pml4_index : ℕ → ℕ
pml4_index virt = bit_and (virt / 2 ^ 39) 0x1FF

pub pdpt_index : ℕ → ℕ
pdpt_index virt = bit_and (virt / 2 ^ 30) 0x1FF

pub pd_index : ℕ → ℕ
pd_index virt = bit_and (virt / 2 ^ 21) 0x1FF

pub pt_index : ℕ → ℕ
pt_index virt = bit_and (virt / 2 ^ 12) 0x1FF

pub page_offset : ℕ → ℕ
page_offset virt = bit_and virt 0xFFF

pub is_user_space : ℕ → Bool
is_user_space virt = virt / 2 ^ 47 == 0

pub is_kernel_space : ℕ → Bool
is_kernel_space virt = virt / 2 ^ 47 == 0x1FFFF
