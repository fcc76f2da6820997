-- ===== src/Frames/Low.antt =====
-- crates/memory/src/buddy.rs: single frames, and frames below 4 GiB.
pub mod Search
use rumicos.Base.{ℕ, zero, suc, ◌+◌, List, [], ◌∷◌, Option, none, some, if◌then◌else◌, ltb}
use rumicos.Base.Panics.{◌>>=◌}
use rumicos.Frames.{Buddy, alloc_order, free_order, low_4g_limit, max_low_frame_tries}

pub alloc_frame : Option Buddy → Option (Option Buddy × Option ℕ)
alloc_frame none = some (none, none)
alloc_frame (some b) = do (b', r) ← alloc_order b 0; some (some b', r)

pub free_frame : Option Buddy → ℕ → Option (Option Buddy)
free_frame none frame = none
free_frame (some b) frame = do b' ← free_order b frame 0; some (some b')

-- One round of the search: the frame found and the frames rejected.
pub low_or_next :
    (Option Buddy → Option (Option Buddy × List ℕ × Option ℕ))
    → Option Buddy × Option ℕ
    → Option (Option Buddy × List ℕ × Option ℕ)
low_or_next next (slot, none) = some (slot, [], none)
low_or_next next (slot, some frame) =
    if ltb frame low_4g_limit
    then some (slot, [], some frame)
    else do (slot', rejected, result) ← next slot; some (slot', frame ∷ rejected, result)

-- At most `n` more tries.
pub try_low : ℕ → Option Buddy → Option (Option Buddy × List ℕ × Option ℕ)
try_low zero slot = some (slot, [], none)
try_low (suc n) slot = do found ← alloc_frame slot; low_or_next (try_low n) found

pub free_rejected : Option Buddy → List ℕ → Option (Option Buddy)
free_rejected slot [] = some slot
free_rejected slot (frame ∷ frames) = do slot' ← free_frame slot frame; free_rejected slot' frames

pub alloc_frame_below_4g : Option Buddy → Option (Option Buddy × Option ℕ)
alloc_frame_below_4g slot = do
  (slot', rejected, result) ← try_low max_low_frame_tries slot
  slot'' ← free_rejected slot' rejected
  some (slot'', result)
