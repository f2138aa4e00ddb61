-- ===== src/Base/Results.antt =====
-- The error numbers that the host's C code returns, and results that carry one.
use Prim.Native.Nat.{ℕ}
use mathlib.Core.Option.{Option, none, some}

-- `other n` is a number of the host's own (an `errno` that the code passes on unread).
pub data Errno : Type 0 where
  eexist enoent eio einval ebusy eacces ebadf efbig enospc espipe enomem eagain etimedout : Errno
  other : ℕ → Errno

-- A call that answers a value, or a negated error number. `fault` stands for a read through an index
-- or a pointer that is not valid, which C leaves undefined.
pub data Result {ℓ} (A : Type ℓ) : Type ℓ where
  ok : A → Result A
  err : Errno → Result A
  fault : Result A

-- A chain of optional steps.
infixl 5 ◌>>=◌
abbrev pub ◌>>=◌ {ℓ κ} : {A : Type ℓ} {B : Type κ} → Option A → (A → Option B) → Option B
none >>= f = none
some a >>= f = f a
