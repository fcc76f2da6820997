-- ===== src/Mmap/Examples.antt =====
-- A process that maps a file open at descriptor 0, and one that has it mapped.
use rumicos.Base.{
  ℕ, ◌+◌, ◌≡◌, refl, true, [], ◌∷◌, none, some, arith, if◌then◌else◌, ◌==◌, replicate,
}
use rumicos.Base.Int.{pos}
use rumicos.Fd.{FdTable, o_rdwr}
use rumicos.AddressSpace.{AddressSpace, Vma, file, max_vmas, mmap_base, exact_slot, fork_cow}
use rumicos.AddressSpace.Map.{IsSpace}
use rumicos.Mmap.{Process, unmap}
use rumicos.Mmap.Referenced.{IsReferenced, HasRoom, run, mmaps, munmaps, run-IsReferenced}
use rumicos.Mmap.Forked.{fork_unmaps_twice}

abbrev one_file : FdTable
one_file = record {
  fds =
      some (record { vnode_ptr = 4096; offset = 0; flags = o_rdwr; reserved = 0 })
      ∷ replicate 63 none;
}

abbrev empty_space : AddressSpace
empty_space = record { vmas = replicate max_vmas none; mmap_next = mmap_base }

-- The reference of the descriptor.
abbrev open_once : ℕ → ℕ
open_once v = if v == 4096 then 1 else 0

abbrev nothing_mapped : Process
nothing_mapped = record { fd_table = one_file; refs = open_once; space = empty_space }

empty_space-IsSpace : IsSpace empty_space
empty_space-IsSpace = record {
  size = refl;
  apart = tt;
  cursor_aligned = refl;
  cursor_in_region = omega arith;
}

open_once-HasRoom : HasRoom open_once
open_once-HasRoom v = ground arith

nothing_mapped-IsReferenced : IsReferenced open_once nothing_mapped
nothing_mapped-IsReferenced = record { space = empty_space-IsSpace; counted = λ v. omega arith }

run-IsReferenced_example :
    IsReferenced open_once
      (run nothing_mapped (mmaps 0 5000 3 1 (pos 0) 0 ∷ munmaps mmap_base 8192 ∷ []))
run-IsReferenced_example =
    run-IsReferenced open_once (mmaps 0 5000 3 1 (pos 0) 0 ∷ munmaps mmap_base 8192 ∷ [])
      nothing_mapped open_once-HasRoom nothing_mapped-IsReferenced

abbrev one_page : Vma
one_page = record {
  start = mmap_base;
  end = mmap_base + 4096;
  flags = 7;
  backing = file 4096 0 true;
}

abbrev file_mapped : Process
file_mapped = record {
  fd_table = one_file;
  refs = λ v. if v == 4096 then 2 else 0;
  space = record { vmas = some one_page ∷ replicate 31 none; mmap_next = mmap_base + 4096 };
}

fork_unmaps_twice_example :
    let parent = (unmap file_mapped mmap_base 4096).0 in
    let child =
      (unmap
        (record file_mapped { refs = parent.refs; space = fork_cow file_mapped.space })
        mmap_base
        4096).0 in
    child.refs 4096 + 2 ≡ 2
unfolding exact_slot
fork_unmaps_twice_example =
    fork_unmaps_twice file_mapped mmap_base 4096 0 4096 0 true one_page (omega arith) refl refl refl
      (omega arith) (omega arith)
