-- ===== src/Block.antt =====
-- Page protection and the validation of ranges of a memory block (source/host/memblock.c).
pub mod Protection
pub mod Ranges
pub mod State
pub mod Tracking
pub mod Refresh
pub mod Space
pub mod Ops
pub mod Epoch
pub mod Plan
pub mod Saved
pub mod Fault
pub mod Refreshed
pub mod Refusals
pub mod Watched
pub mod Consistent
pub mod Core
pub mod Restored
use chimera_common_minibox.Base.{
  ℕ, ◌+◌, ◌-◌, ◌/◌, ◌%◌, Bool, true, false, not, List, ◌&&◌, ◌||◌, Option, none, some, ltb, ◌==◌,
  if◌then◌else◌,
}

-- `mb_prot`, which is also the page's status but for a page that is free.
pub data Prot : Type 0 where
  no_access r rw rx rwx rwstack : Prot

pub data Status : Type 0 where
  free : Status
  mapped : Prot → Status

unfoldable pub status_prot : Status → Prot
status_prot Status.free = Prot.no_access
status_prot (Status.mapped p) = p

unfoldable pub prot_status : Prot → Status
prot_status p = Status.mapped p

-- The sealed bytes of a page: not kept, zeros, or a copy.
pub data Snap : Type 0 where
  snap_none snap_zero : Snap
  snap_data : List ℕ → Snap

-- `mb_page`, but for the fields of Windows' and Apple's hosts. `plan_hold` is 1 or 0: a copy, 2 in the code, is one step.
pub record Page : Type 0 where
  pub status : Status
  pub plan_hold : Bool
  pub hot : Bool
  pub dirty : Bool
  pub held : Bool
  pub invisible : Bool
  pub snap : Snap
  pub heat : ℕ
  pub shadow : Option (List ℕ)
  pub seen : ℕ
  pub epoch_dirty : Bool
  pub plan_slot : ℕ

-- A hold takes away writing and nothing else.
unfoldable pub without_write : Prot → Prot
without_write Prot.rwx = Prot.rx
without_write Prot.rw = Prot.r
without_write Prot.rwstack = Prot.r
without_write p = p

-- A page by its status, whether it is clean or held for an epoch.
unfoldable pub tracked_prot : Bool → Prot → Prot
tracked_prot clean Prot.rw = if clean then Prot.r else Prot.rw
tracked_prot clean Prot.rwx = if clean then Prot.rx else Prot.rwx
tracked_prot clean Prot.rwstack = if clean then Prot.r else Prot.rw
tracked_prot clean p = p

-- `mb_page_native_prot`, but for Windows, of the fields that it reads.
unfoldable pub native_prot : (status : Status) (plan_hold hot dirty held : Bool) → Prot
native_prot Status.free plan_hold hot dirty held = Prot.no_access
native_prot (Status.mapped asked) plan_hold hot dirty held =
    if plan_hold
    then without_write asked
    else if hot
    then asked
    else tracked_prot (not dirty || held) asked

unfoldable pub page_native_prot : Page → Prot
page_native_prot p = native_prot p.status p.plan_hold p.hot p.dirty p.held

abbrev pub page_size : ℕ
page_size = 4096

-- `mb_align_down`.
unfoldable pub align_down : ℕ → ℕ
align_down x = x - x % page_size

-- `validate` of the range of `size` bytes at `start`, in a block of `length` bytes at `base`: the first page and
-- how many.
unfoldable pub validate : (base length start size : ℕ) → Option (ℕ × ℕ)
validate base length start size =
    if size == 0
      || ltb start base
      || ltb length (start - base)
      || ltb (length - (start - base)) size
      || not (start == align_down start)
      || not (size == align_down size)
    then none
    else some ((start - base) / page_size, size / page_size)
