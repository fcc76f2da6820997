-- ===== src/Fd/Lowest.antt =====
-- Which descriptor `alloc` and `dup` hand out, and what the table answers afterwards.
use rumicos.Base.{
  ℕ, ◌<◌, ◌≡◌, refl, Option, none, some, arith, false, length, get_or, set, if◌then◌else◌, ◌==◌,
  leb, get_or-set, ◌⊎◌,
}
use rumicos.Base.Int.{ℤ, pos, negsuc, ◌==ℤ◌}
use rumicos.Fd.{
  FdEntry, FdTable, Slots, Counts, max_fds, emfile, ebadf, alloc, installed, get, dup, dup_entry,
  dup_into, dup2, dup2_entry,
}
use rumicos.Fd.Slots.{IsOccupied, Scans, full, found, install-Scans}

-- `out` is the table and the answer after placing `e`: EMFILE on a full table, and otherwise the
-- lowest free descriptor, which alone has changed.
pub data TakesLowest (t : FdTable) (e : FdEntry) (out : FdTable × ℤ) : Type 0 where
  no_room : out ≡ (t, emfile) → ((k : ℕ) → k < max_fds → IsOccupied t.fds k) → TakesLowest t e out
  lowest :
      (n : ℕ)
      → out ≡ (record { fds = set t.fds n (some e) }, pos n)
      → n < max_fds
      → get_or t.fds n none ≡ none
      → ((k : ℕ) → k < n → IsOccupied t.fds k)
      → TakesLowest t e out

installed-TakesLowest :
    (t : FdTable) (e : FdEntry) (r : Option (ℕ × Slots))
    → length t.fds ≡ max_fds
    → Scans t.fds e 0 r
    → TakesLowest t e (installed t r)
unfolding installed
installed-TakesLowest t e r size (full none_left taken) =
    no_room (ground arith) (λ k h. taken k (omega arith))
installed-TakesLowest t e r size (found j hit within free below) =
    lowest j (rw (hit, installed) (ground arith)) (omega arith) free below

-- `alloc` opens the lowest free descriptor at offset 0, and fails only on a full table.
pub alloc-TakesLowest :
    (t : FdTable) (vnode_ptr flags : ℕ)
    → length t.fds ≡ max_fds
    → TakesLowest t
        (record { vnode_ptr = vnode_ptr; offset = 0; flags = flags; reserved = 0 })
        (alloc t vnode_ptr flags)
unfolding alloc
alloc-TakesLowest t vnode_ptr flags size =
    installed-TakesLowest t _ _ size (install-Scans t.fds 0 _)

dup_into-TakesLowest :
    (t : FdTable) (refs : Counts) (e : FdEntry) (r : Option (ℕ × Slots))
    → length t.fds ≡ max_fds
    → Scans t.fds e 0 r
    → TakesLowest t e ((dup_into t refs e r).0, (dup_into t refs e r).2)
unfolding dup_into
dup_into-TakesLowest t refs e r size (full none_left taken) =
    no_room (rw (none_left, dup_into) refl) (λ k h. taken k (omega arith))
dup_into-TakesLowest t refs e r size (found j hit within free below) =
    lowest j (rw (hit, dup_into) (ground arith)) (omega arith) free below

-- `dup` of an open descriptor places a copy of its entry at the lowest free descriptor.
pub dup-TakesLowest :
    (t : FdTable) (refs : Counts) (fd : ℤ) (e : FdEntry)
    → length t.fds ≡ max_fds
    → get t fd ≡ some e
    → TakesLowest t e ((dup t refs fd).0, (dup t refs fd).2)
unfolding dup
dup-TakesLowest t refs fd e size open_fd =
    rw (open_fd, dup_entry) (dup_into-TakesLowest t refs e _ size (install-Scans t.fds 0 e))

get-set :
    (t : FdTable) (n m : ℕ) (e : FdEntry)
    → n < length t.fds
    → length t.fds ≡ max_fds
    → get (record { fds = set t.fds n (some e) }) (pos m)
      ≡ (if n == m then some e else get t (pos m))
unfolding get
get-set t n m e h size = ground (arith, get_or-set t.fds n m (some e) none h)

-- `dup2` onto another descriptor in range makes that descriptor, and no other, read as the old one.
pub dup2_aliases :
    (t : FdTable) (refs : Counts) (old_fd : ℤ) (n m : ℕ) (e : FdEntry)
    → length t.fds ≡ max_fds
    → get t old_fd ≡ some e
    → (old_fd ==ℤ pos n) ≡ false
    → n < max_fds
    → ((dup2 t refs old_fd (pos n)).2 ≡ pos n)
      × (get (dup2 t refs old_fd (pos n)).0 (pos m) ≡ (if n == m then some e else get t (pos m)))
unfolding dup2
dup2_aliases t refs old_fd n m e size open_fd differs within =
    let in_range : leb max_fds n ≡ false = ground arith in
    rw (differs, open_fd, dup2_entry, in_range) (refl, get-set t n m e (omega arith) size)

-- A `dup2` that fails leaves the table and the counts alone: the old descriptor is not open, or
-- the new one is another and out of range.
pub dup2_fails :
    (t : FdTable) (refs : Counts) (old_fd new_fd : ℤ)
    → (dup2 t refs old_fd new_fd).2 ≡ ebadf
    → ((dup2 t refs old_fd new_fd) ≡ (t, refs, ebadf))
      × ((get t old_fd ≡ none) ⊎ (get t new_fd ≡ none))
unfolding dup2
dup2_fails t refs (negsuc a) (negsuc b) h = ground arith
dup2_fails t refs (negsuc a) (pos b) h = ground arith
dup2_fails t refs (pos a) (negsuc b) h = ground arith
dup2_fails t refs (pos a) (pos b) h = ground arith
