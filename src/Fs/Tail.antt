-- ===== src/Fs/Tail.antt =====
-- The ring of the newest bytes that the guest wrote to stdout and stderr (`sysout_remember` and
-- `mb_fs_sysout_tail` of source/host/fs.c).
pub mod Copies
pub mod History
pub mod Newest
use chimera_common_minibox.Base.{
  ℕ, zero, suc, ◌+◌, ◌-◌, ◌%◌, ◌^◌, Bool, true, false, List, [], ◌∷◌, ◌++◌, ltb, leb, ◌==◌,
  if◌then◌else◌, length, take, drop, get_or, replicate, min,
}
use chimera_common_minibox.Base.Words.{add64, sub64}

-- `sysout_tail` and the three fields after it.
pub record Tail : Type 0 where
  pub ring : List ℕ
  pub sysout_total : ℕ
  pub tail_at : ℕ
  pub tail_wrapped : Bool

-- `memcpy(data + at, bytes, length bytes)` inside the allocation `data`.
unfoldable pub overwrite : List ℕ → ℕ → List ℕ → List ℕ
overwrite ring at bytes = take at ring ++ (bytes ++ drop (at + length bytes) ring)

-- The ring's size is that of its array, `length t.ring`.
unfoldable pub empty_tail : ℕ → Tail
empty_tail size = record {
  ring = replicate size 0;
  sysout_total = 0;
  tail_at = 0;
  tail_wrapped = false;
}

unfoldable pub sysout_remember : Tail → List ℕ → Tail
sysout_remember t buf =
    let n = length buf in
    let cap = length t.ring in
    let total = add64 t.sysout_total n in
    let first = min (cap - t.tail_at) n in
    let copied = overwrite t.ring t.tail_at (take first buf) in
    if leb cap n
    then record {
      ring = overwrite t.ring 0 (drop (n - cap) buf);
      sysout_total = total;
      tail_at = 0;
      tail_wrapped = true;
    }
    else if ltb first n
    then record {
      ring = overwrite copied 0 (drop first buf);
      sysout_total = total;
      tail_at = n - first;
      tail_wrapped = true;
    }
    else if t.tail_at + first == cap
    then record { ring = copied; sysout_total = total; tail_at = 0; tail_wrapped = true }
    else record {
      ring = copied;
      sysout_total = total;
      tail_at = t.tail_at + first;
      tail_wrapped = t.tail_wrapped;
    }

-- `for (i = 0; i < take; i++) out[i] = ring[(from + i) % size]`.
unfoldable pub ring_slice : List ℕ → ℕ → ℕ → List ℕ
ring_slice ring from zero = []
ring_slice ring from (suc n) = get_or ring (from % length ring) 0 ∷ ring_slice ring (from + 1) n

-- The bytes it copies to `out`; their number is its answer.
unfoldable pub sysout_tail : Tail → ℕ → List ℕ
sysout_tail t cap =
    let have = if t.tail_wrapped then length t.ring else t.tail_at in
    let count = if ltb have cap then have else cap in
    let oldest = if t.tail_wrapped then t.tail_at else 0 in
    ring_slice t.ring (oldest + (have - count)) count

unfoldable pub sysout_since : Tail → ℕ → ℕ → List ℕ
sysout_since t mark cap =
    if leb t.sysout_total mark then [] else sysout_tail t (min (t.sysout_total - mark) cap)
