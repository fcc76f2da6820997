-- ===== src/Fd/Examples.antt =====
-- A process with the two ends of a pipe open, at descriptors 0 and 1.
use rumicos.Base.{
  ℕ, ◌+◌, ◌≡◌, refl, Bool, ◌||◌, [], ◌∷◌, none, some, arith, ◌==◌, replicate, if◌then◌else◌,
}
use rumicos.Base.Int.{pos}
use rumicos.Fd.{FdEntry, FdTable, Counts, dup2, ebadf, o_rdonly, o_wronly, clone_for_fork}
use rumicos.Fd.Balance.{
  IsBalanced, HasRoom, run, dups, closes, dup2s, run-IsBalanced, clone_for_fork-IsBalanced,
}
use rumicos.Fd.Refs.{holders}

abbrev read_end : FdEntry
read_end = record { vnode_ptr = 4096; offset = 0; flags = o_rdonly; reserved = 0 }

abbrev write_end : FdEntry
write_end = record { vnode_ptr = 8192; offset = 0; flags = o_wronly; reserved = 0 }

abbrev two_ends : FdTable
two_ends = record { fds = some read_end ∷ some write_end ∷ replicate 62 none }

abbrev is_end : ℕ → Bool
is_end p = p == 4096 || p == 8192

abbrev counts : Counts
counts p = if is_end p then 1 else 0

abbrev no_others : ℕ → ℕ
no_others p = 0

no_others-HasRoom : HasRoom no_others
no_others-HasRoom p = omega arith

two_ends-IsBalanced : IsBalanced is_end no_others two_ends counts
two_ends-IsBalanced = (refl, λ p is. ground arith)

run-IsBalanced_example :
    let s =
      run is_end (two_ends, counts) (dups (pos 1) ∷ dup2s (pos 0) (pos 1) ∷ closes (pos 0) ∷ []) in
    IsBalanced is_end no_others s.0 s.1
run-IsBalanced_example =
    run-IsBalanced is_end no_others no_others-HasRoom refl
      (dups (pos 1) ∷ dup2s (pos 0) (pos 1) ∷ closes (pos 0) ∷ []) (two_ends, counts)
      two_ends-IsBalanced

clone_for_fork-IsBalanced_example :
    let (child, refs) = clone_for_fork two_ends counts in
    IsBalanced is_end (λ p. 0 + holders p child.fds) two_ends refs
    × IsBalanced is_end (λ p. 0 + holders p two_ends.fds) child refs
clone_for_fork-IsBalanced_example =
    clone_for_fork-IsBalanced is_end no_others no_others-HasRoom two_ends counts refl
      two_ends-IsBalanced

dup2_is_ebadf : (dup2 two_ends counts (pos 1) (pos 64)).2 ≡ ebadf
unfolding dup2
dup2_is_ebadf = refl
