-- ===== src/Paging/Walk.antt =====
-- crates/paging/src/table.rs: the four levels of tables. A table is named by its physical address;
-- `Tables` is what the entries hold. The frames that the allocator hands out are a list.
pub mod Mapped
use rumicos.Base.{
  ℕ, ◌+◌, ◌*◌, ◌/◌, ◌%◌, ◌^◌, Bool, true, false, not, List, [], ◌∷◌, Option, none, some,
  if◌then◌else◌, ◌==◌, bit_and, bit_or, update,
}
use rumicos.Base.Panics.{◌>>=◌}
use rumicos.Paging.{
  phys_new, new_page, frame, is_present, is_huge_page, with_present, with_writable, pml4_index,
  pdpt_index, pd_index, pt_index, page_offset,
}

abbrev pub Tables : Type 0
Tables = ℕ → ℕ → ℕ

unfoldable pub set : Tables → ℕ → ℕ → ℕ → Tables
set tables table index entry = update tables table (update (tables table) index entry)

unfoldable pub zero_table : Tables → ℕ → Tables
zero_table tables table = update tables table (λ index. 0)

-- A new table for an entry that is not present; `none` is a panic of the allocator.
unfoldable pub populated : Tables → ℕ → ℕ → List ℕ → Option (Tables × List ℕ × ℕ)
populated tables table index [] = none
populated tables table index (f ∷ fresh) =
    let entry = new_page (phys_new f) (with_writable (with_present 0)) in
    some (set (zero_table tables (phys_new f)) table index entry, fresh, frame entry)

-- The table below an entry.
unfoldable pub enter : Tables → List ℕ → ℕ → ℕ → Option (Tables × List ℕ × ℕ)
enter tables fresh table index =
    if is_present (tables table index)
    then some (tables, fresh, frame (tables table index))
    else populated tables table index fresh

pub walk_to_pd : Tables → List ℕ → ℕ → ℕ → Option (Tables × List ℕ × ℕ)
walk_to_pd tables fresh pml4 virt = do
  (tables, fresh, pdpt) ← enter tables fresh pml4 (pml4_index virt)
  enter tables fresh pdpt (pdpt_index virt)

pub map_page : Tables → List ℕ → ℕ → ℕ → ℕ → ℕ → Option (Tables × List ℕ)
map_page tables fresh pml4 virt phys flags = do
  (tables, fresh, pd) ← walk_to_pd tables fresh pml4 virt
  (tables, fresh, pt) ← enter tables fresh pd (pd_index virt)
  some (set tables pt (pt_index virt) (new_page phys flags), fresh)

pub translate : Tables → ℕ → ℕ → Option ℕ
translate tables pml4 virt =
    let pml4_entry = tables pml4 (pml4_index virt) in
    let pdpt_entry = tables (frame pml4_entry) (pdpt_index virt) in
    let pd_entry = tables (frame pdpt_entry) (pd_index virt) in
    let pt_entry = tables (frame pd_entry) (pt_index virt) in
    if not (is_present pml4_entry)
    then none
    else if not (is_present pdpt_entry)
    then none
    else if is_huge_page pdpt_entry
    then some (phys_new (frame pdpt_entry + bit_and virt 0x3FFF_FFFF))
    else if not (is_present pd_entry)
    then none
    else if is_huge_page pd_entry
    then some (phys_new (frame pd_entry + bit_and virt 0x1F_FFFF))
    else if not (is_present pt_entry)
    then none
    else some (phys_new (frame pt_entry + page_offset virt))
