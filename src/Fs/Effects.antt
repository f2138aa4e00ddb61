-- ===== src/Fs/Effects.antt =====
-- What a read, a write and a truncation of a file in memory do to it, refusals included (`mb_fs_read`, `mb_fs_write` and
-- `mb_fs_truncate_name` of source/host/fs.c).
use mathlib.Core.Path.{fun_ext}
use chimera_common_minibox.Fs.Read.{ReadOut, left_of, read_file, read}
use chimera_common_minibox.Fs.Valid.Content.{copied_from-inside}
use chimera_common_minibox.Base.{
  drop, length-take, length-drop, take_all, leb, Bool-cases, map, min, ◌&&◌, if_elim, ℕ, ◌+◌, ◌-◌,
  ◌<◌, ◌≡◌, sym, subst, ap, ap₂, ◌∙◌, true, false, ◌⊎◌, inl, inr, List, ◌++◌, some, none, not, ◌||◌,
  ltb, ◌==◌, if◌then◌else◌, Option-cases, arith, get_elem?, set, length, take, replicate, max,
  Result, ok, err, enospc, enomem,
}
use chimera_common_minibox.Base.Words.{two64, add64, neg64}
use chimera_common_minibox.Fs.Types.{HostIo, Body, MountedFile, OpenHandle, Fs}
use chimera_common_minibox.Fs.Table.{find_handle, set_pos, by_name}
use chimera_common_minibox.Fs.Write.{write_regular, write_file, write}
use chimera_common_minibox.Fs.Seek.{
  clamp_pos, resized, truncate_regular, truncate_at, truncate_name,
}
use chimera_common_minibox.Fs.Content.{patched, store-patched}
use chimera_common_minibox.Fs.Valid.{Holds, IsValid}
use chimera_common_minibox.Fs.Valid.Truncates.{zero_grown}

-- The file system after `buf` is written at the position of `h`: the file's bytes patched and its
-- length following, the position moved past them, and nothing else.
abbrev pub after_write : {F : Type 0} → Fs F → OpenHandle → MountedFile F → List ℕ → List ℕ → Fs F
after_write fs h f bytes buf = record fs {
  files = set fs.files h.file (record f {
    body = Body.regular (patched bytes h.pos buf);
    len = max (length bytes) (h.pos + length buf);
    cap = max (length bytes) (h.pos + length buf);
  });
  hs = set_pos fs.hs h.fd (h.pos + length buf);
}

clamp_pos-min :
    (i size : ℕ) (h : OpenHandle)
    → clamp_pos i size h ≡ record h { pos = if h.file == i then min size h.pos else h.pos }
unfolding clamp_pos
clamp_pos-min i size h =
    let place : (if h.file == i && ltb size h.pos then size else h.pos)
        ≡ (if h.file == i then min size h.pos else h.pos) =
      ground arith in
    if_elim
      (λ (k : OpenHandle).
        k ≡ record h { pos = if h.file == i && ltb size h.pos then size else h.pos })
      (h.file == i && ltb size h.pos) (λ past. rw past) (λ inside. rw inside)
    ∙ ap (λ p. record h { pos = p }) place

-- The file system and the buffer after a read of `n` bytes of a file in memory.
abbrev pub after_read : {F : Type 0} → Fs F → OpenHandle → List ℕ → ℕ → ReadOut F
after_read fs h bytes n =
    let got = take n (drop h.pos bytes) in
    record {
      fs = record fs { hs = set_pos fs.hs h.fd (h.pos + length got) };
      bytes = got;
      answer = ok (length got);
    }

take-min : (n : ℕ) (xs : List ℕ) → take (min n (length xs)) xs ≡ take n xs
take-min n xs = elim (Bool-cases (leb n (length xs))) [
  | inl le ↦ let same : min n (length xs) ≡ n = ground (arith, le) in ap (λ k. take k xs) same
  | inr gt ↦
      let all : min n (length xs) ≡ length xs = ground (arith, gt) in
      ap (λ k. take k xs) all
      ∙ take_all (length xs) xs (omega arith)
      ∙ sym (take_all n xs (ground (arith, gt)))
]

-- What is taken is what is wanted and there.
wanted-taken :
    {F : Type 0} (n : ℕ) (f : MountedFile F) (h : OpenHandle) (bytes : List ℕ)
    → f.len ≡ length bytes
    → min n (left_of f h) ≡ min n (length (drop h.pos bytes))
unfolding left_of
wanted-taken n f h bytes e = ground (arith, length-drop h.pos bytes, e)

module _ (io : HostIo) where
  open io use {File}

  -- The file system after the file at index `i` has `size` bytes, those it had and zeros behind them: a handle on
  -- it stands where it stood or at the new end, whichever comes first, and the others where they stood.
  abbrev pub after_truncate : Fs File → ℕ → MountedFile File → List ℕ → ℕ → Fs File
  after_truncate fs i f bytes size = record fs {
    files = set fs.files i (record f {
      body = Body.regular (take size bytes ++ replicate (size - length bytes) 0);
      len = size;
      cap = size;
    });
    hs =
        map {B = OpenHandle}
          (λ (h : OpenHandle). record h { pos = if h.file == i then min size h.pos else h.pos })
          fs.hs;
  }

  module _ {fs : Fs File} (v : IsValid fs) where
    write_regular-patched :
        (h : OpenHandle) {f : MountedFile File} (bytes buf : List ℕ)
        → get_elem? fs.files h.file ≡ some f
        → f.body ≡ Body.regular bytes
        → add64 h.pos (length buf) ≡ h.pos + length buf
        → ((length bytes < h.pos + length buf)
            × (io.heap (h.pos + length buf) ≡ none)
            × (write_regular io fs h f bytes buf ≡ (fs, err enospc)))
          ⊎ (write_regular io fs h f bytes buf ≡ (after_write fs h f bytes buf, ok (length buf)))
    unfolding write_regular
    write_regular-patched h {f} bytes buf e q m =
        let holds = subst (λ b. Holds b f.len f.cap f.writable) q (v.stored h.file f e).1 in
        let end = add64 h.pos (length buf) in
        let done : Result ℕ = ok (length buf) in
        elim (store-patched io f bytes h.pos end buf holds.0 holds.1 (sym m)) [
          | inl (past, refused, r) ↦
              inl (omega (arith, m, past), ap io.heap (sym m) ∙ refused, rw (r, write_regular))
          | inr r ↦ inr (
              rw (r, write_regular)
                (ap
                  (λ k. (
                    record fs {
                      files = set fs.files h.file (record f {
                        body = Body.regular (patched bytes h.pos buf);
                        len = max (length bytes) k;
                        cap = max (length bytes) k;
                      });
                      hs = set_pos fs.hs h.fd k;
                    },
                    done,
                  ))
                  m))
        ]

    -- A write of `buf` to a writable file in memory, ending below 2 ^ 64: either the file would have to
    -- grow, the heap refuses and nothing changes but the answer, -ENOSPC; or the whole buffer is
    -- written, the file then holding its old bytes with `buf` at the handle's position, zeros in any gap before it, whatever
    -- bytes the heap brought, and the position stands behind `buf`.
    pub write-patched :
        (fd : ℕ) (h : OpenHandle) (f : MountedFile File) (bytes buf : List ℕ)
        → find_handle fs.hs fd ≡ some h
        → get_elem? fs.files h.file ≡ some f
        → f.body ≡ Body.regular bytes
        → f.writable ≡ true
        → h.pos + length buf < two64
        → ((length bytes < h.pos + length buf)
            × (io.heap (h.pos + length buf) ≡ none)
            × (write io fs fd buf ≡ (fs, err enospc)))
          ⊎ (write io fs fd buf ≡ (after_write fs h f bytes buf, ok (length buf)))
    unfolding write write_file
    write-patched fd h f bytes buf eh e q w small =
        let m : add64 h.pos (length buf) ≡ h.pos + length buf = ground arith in
        let fits : ltb (add64 h.pos (length buf)) h.pos ≡ false = ground arith in
        let nw : not f.writable ≡ false = ap not w in
        rw (eh, e, q, nw, fits, write, write_file) (write_regular-patched h bytes buf e q m)

    resized-after_truncate :
        (i : ℕ) (f : MountedFile File) (bytes : List ℕ) (size : ℕ)
        → resized io fs i f
            (Body.regular (take size bytes ++ replicate (size - length bytes) 0))
            size
          ≡ after_truncate fs i f bytes size
    unfolding resized
    resized-after_truncate i f bytes size =
        let files = (after_truncate fs i f bytes size).files in
        ap (λ g. record fs { files = files; hs = map g fs.hs }) (fun_ext (clamp_pos-min i size))

    -- A truncation by name of a writable file in memory to `size`, not negative as a signed word:
    -- either the heap refuses the new size and nothing changes but the answer, -ENOMEM; or the file has exactly `size` bytes, its first ones and zeros
    -- behind them, whatever bytes the heap brought, and no handle on it stands past its end.
    pub truncate_name-cut :
        (name : List ℕ) (i : ℕ) (f : MountedFile File) (bytes : List ℕ) (size : ℕ)
        → by_name fs name ≡ some i
        → get_elem? fs.files i ≡ some f
        → f.body ≡ Body.regular bytes
        → f.writable ≡ true
        → neg64 size ≡ false
        → ((io.heap (if size == 0 then 1 else size) ≡ none)
            × (truncate_name io fs name size ≡ (fs, err enomem)))
          ⊎ (truncate_name io fs name size ≡ (after_truncate fs i f bytes size, ok 0))
    unfolding truncate_name truncate_at truncate_regular
    truncate_name-cut name i f bytes size en e q w small =
        let holds = subst (λ b. Holds b f.len f.cap f.writable) q (v.stored i f e).1 in
        let allowed : (not f.writable || neg64 size) ≡ false = ground arith in
        elim (Option-cases (io.heap (if size == 0 then 1 else size))) [
          | inl r ↦ inl (r, rw (en, e, q, allowed, r, truncate_name, truncate_at, truncate_regular))
          | inr (junk, r) ↦ inr (
              let done : Result ℕ = ok 0 in
              rw
                (
                  en,
                  e,
                  q,
                  allowed,
                  r,
                  zero_grown junk bytes f.len size holds.0,
                  truncate_name,
                  truncate_at,
                  truncate_regular,
                )
                (ap (λ k. (k, done)) (resized-after_truncate i f bytes size)))
        ]

    -- A read from a file in memory delivers the file's bytes from the handle's position on, as many as are asked for and
    -- the file has, says how many, moves the position behind them and changes nothing else.
    pub read-delivers :
        (fd n : ℕ) (h : OpenHandle) (f : MountedFile File) (bytes : List ℕ)
        → find_handle fs.hs fd ≡ some h
        → get_elem? fs.files h.file ≡ some f
        → f.body ≡ Body.regular bytes
        → read io fs fd n ≡ after_read fs h bytes n
    unfolding read read_file
    read-delivers fd n h f bytes eh e q =
        let holds = subst (λ b. Holds b f.len f.cap f.writable) q (v.stored h.file f e).1 in
        let rest = drop h.pos bytes in
        let inside = copied_from-inside h f bytes n holds.0 in
        let count : min n (left_of f h) ≡ min n (length rest) = wanted-taken n f h bytes holds.0 in
        let got : take (min n (left_of f h)) rest ≡ take n rest =
          ap (λ k. take k rest) count ∙ take-min n rest in
        let size : min n (left_of f h) ≡ length (take n rest) = count ∙ sym (length-take n rest) in
        let out : ℕ → List ℕ → ReadOut File = λ k bs. record {
          fs = record fs { hs = set_pos fs.hs h.fd (h.pos + k) };
          bytes = bs;
          answer = ok k;
        } in
        rw (eh, e, q, inside, read, read_file) (ap₂ out size got)
