-- ===== src/Threads/Types.antt =====
-- The state of source/host/threading.c.
use chimera_common_minibox.Base.{
  ℕ, zero, suc, ◌+◌, ◌-◌, ◌^◌, Bool, true, false, List, [], ◌∷◌, ltb, leb, ◌&&◌, if◌then◌else◌,
  get_or,
}
use chimera_common_minibox.Stream.{le_bytes, le_word}

-- `tstate`.
pub data State : Type 0 where
  runnable waiting : State

abbrev pub is_runnable : State → Bool
is_runnable State.runnable = true
is_runnable State.waiting = false

-- `mb_range`.
pub record Span : Type 0 where
  pub start : ℕ
  pub size : ℕ

-- `gthread`, with the `deadlines` and `seqs` entry of the same index, which the source keeps in
-- arrays beside it.
pub record Thread : Type 0 where
  pub tid : ℕ
  pub state : State
  pub rax : ℕ
  pub rsp : ℕ
  pub thread_area : ℕ
  pub tid_address : ℕ
  pub stack : Span
  pub pending : Span
  pub deadline : ℕ
  pub seq : ℕ

-- `futex_queue`.
pub record Queue : Type 0 where
  pub addr : ℕ
  pub tids : List ℕ

-- `struct mb_threads`.
pub record Threads : Type 0 where
  pub next_tid : ℕ
  pub active_tid : ℕ
  pub threads : List Thread
  pub futicies : List Queue
  pub spec : ℕ
  pub vclock_ns : ℕ
  pub park_seq : ℕ
  pub kit_revision : ℕ

-- The fields of `mb_context` that the threads use.
pub record Context : Type 0 where
  pub guest_rsp : ℕ
  pub thread_area : ℕ
  pub guest_fcw : ℕ
  pub guest_mxcsr : ℕ

-- The guest's memory, a byte at each address.
abbrev pub Memory : Type 0
Memory = ℕ → ℕ

unfoldable pub bytes_at : Memory → ℕ → ℕ → List ℕ
bytes_at mem addr zero = []
bytes_at mem addr (suc n) = mem addr ∷ bytes_at mem (addr + 1) n

-- Reading and writing a little-endian word of `k` bytes.
unfoldable pub peek : ℕ → Memory → ℕ → ℕ
peek k mem addr = le_word (bytes_at mem addr k)

unfoldable pub poke : ℕ → ℕ → ℕ → Memory → Memory
poke k addr word mem a =
    if leb addr a && ltb a (addr + k) then get_or (le_bytes k word) (a - addr) 0 else mem a

-- What a call acts on.
pub record Machine : Type 0 where
  pub t : Threads
  pub c : Context
  pub mem : Memory

-- How a call ends: it returns to the guest; it ends the machine (`mb_host_guest_death`, which does
-- not return); it follows a null pointer; or a loop has used the rounds the model gives it.
pub data Outcome (A : Type 0) : Type 0 where
  returns : A → Outcome A
  died : Outcome A
  fault : Outcome A
  spent : Outcome A

infixl 5 ◌>>=◌
abbrev pub ◌>>=◌ : {A B : Type 0} → Outcome A → (A → Outcome B) → Outcome B
returns a >>= f = f a
died >>= f = died
fault >>= f = fault
spent >>= f = spent

-- `serr(EAGAIN)` and `serr(ETIMEDOUT)`: the guest's numbers, negated.
abbrev pub minus_eagain : ℕ
minus_eagain = 2 ^ 64 - 11

abbrev pub minus_etimedout : ℕ
minus_etimedout = 2 ^ 64 - 110
