-- ===== src/Fs/State.antt =====
-- The open files in a savestate: `mb_fs_save_handles` and `mb_fs_load_handles` of source/host/fs.c.
use chimera_common_minibox.Base.{
  ℕ, zero, suc, ◌+◌, ◌-◌, ◌^◌, Bool, true, not, ◌||◌, ◌&&◌, List, [], ◌∷◌, ◌++◌, Option, none, some,
  ltb, leb, ◌==◌, if◌then◌else◌, get_elem?, length,
}
use chimera_common_minibox.Base.Words.{sle32}
use chimera_common_minibox.Stream.{Sink, Source, Reader, then_read, le_bytes, read_all, read_word}
use chimera_common_minibox.Fs.Types.{MountedFile, OpenHandle, Fs}
use chimera_common_minibox.Fs.Table.{by_name}

-- The handle with the lowest descriptor that is `from` or above: C's `fd > last`, `last` being -1 at
-- first and then a descriptor, is `from = last + 1`.
unfoldable pub next_handle : List OpenHandle → ℕ → Option OpenHandle → Option OpenHandle
next_handle [] from best = best
next_handle (h ∷ hs) from best =
    next_handle hs from
      (if leb from h.fd && elim best [ none ↦ true | some b ↦ ltb h.fd b.fd ] then some h else best)

-- The bytes of one handle: descriptor, position, the length of the file's name and the name.
unfoldable pub entry_bytes : OpenHandle → List ℕ → List ℕ
entry_bytes h name = le_bytes 4 h.fd ++ (le_bytes 8 h.pos ++ (le_bytes 4 (length name) ++ name))

module _ {S : Type 0} (w : Sink S) where
  -- The four writes of one handle.
  unfoldable pub save_entry : OpenHandle → List ℕ → S → Option S
  save_entry h name s = elim (w s (le_bytes 4 h.fd)) [
    | none ↦ none
    | some s1 ↦ elim (w s1 (le_bytes 8 h.pos)) [
      | none ↦ none
      | some s2 ↦ elim (w s2 (le_bytes 4 (length name))) [ none ↦ none | some s3 ↦ w s3 name ]
    ]
  ]

module _ {F S : Type 0} (w : Sink S) where
  unfoldable pub save_loop : ℕ → List (MountedFile F) → List OpenHandle → ℕ → S → Option S
  save_loop zero files hs from s = some s
  save_loop (suc k) files hs from s = elim (next_handle hs from none) [
    | none ↦ none
    | some h ↦ elim (get_elem? files h.file) [
      | none ↦ none
      | some f ↦ elim (save_entry w h f.name s) [
        | none ↦ none
        | some s' ↦ save_loop k files hs (h.fd + 1) s'
      ]
    ]
  ]

  -- `none` is the answer -1. (A handle on a file that is not there would be a fault: it is
  -- counted with it.)
  unfoldable pub save_handles : Fs F → S → Option S
  save_handles fs s = elim (w s (le_bytes 4 (length fs.hs))) [
    | none ↦ none
    | some s' ↦ save_loop (length fs.hs) fs.files fs.hs 0 s'
  ]

-- What `mb_fs_load_handles` finds: the new table, or a name that is not mounted.
pub data Table : Type 0 where
  table : List OpenHandle → Table
  unmounted : Table

abbrev pub name_size : ℕ
name_size = 4096

-- A descriptor, a position and a name, as one entry of the record.
abbrev pub Entry : Type 0
Entry = ℕ × ℕ × List ℕ

module _ {S : Type 0} (r : Source S) where
  -- One entry, refused where its name is too long, or where `in_order` refuses its descriptor.
  unfoldable pub load_entry : (ℕ → Bool) → Reader S Entry
  load_entry in_order = then_read (read_word r 4) (λ fd. then_read (read_word r 8) (λ pos.
      then_read (read_word r 4) (λ len s.
        if not (in_order fd) || leb name_size len
        then none
        else then_read (read_all r len) (λ name s'. some ((fd, pos, name), s')) s)))

  -- Reading past the rest of the record.
  unfoldable pub skip_loop : ℕ → Reader S Table
  skip_loop zero s = some (unmounted, s)
  skip_loop (suc k) s = elim (load_entry (λ fd. true) s) [
    | none ↦ none
    | some (e, s') ↦ skip_loop k s'
  ]

-- The string that `name[len] = 0` ends: the bytes before the first zero.
unfoldable pub c_string : List ℕ → List ℕ
c_string [] = []
c_string (b ∷ bs) = if b == 0 then [] else b ∷ c_string bs

-- A position past the end of a file that became shorter is kept where the guest may put one there.
unfoldable pub kept_pos : {F : Type 0} → Fs F → MountedFile F → ℕ → ℕ
kept_pos fs f pos = if ltb pos f.len || fs.linux_answers then pos else f.len

module _ {F S : Type 0} (r : Source S) where
  -- `last` is an `int32_t`: a descriptor that is not above it is refused.
  unfoldable pub load_loop : ℕ → Fs F → ℕ → List OpenHandle → Reader S Table
  load_loop zero fs last hs s = some (table hs, s)
  load_loop (suc k) fs last hs s = elim (load_entry r (λ fd. not (sle32 fd last)) s) [
    | none ↦ none
    | some ((fd, pos, name), s') ↦ elim (by_name fs (c_string name)) [
      | none ↦ skip_loop r k s'
      | some i ↦ elim (get_elem? fs.files i) [
        | none ↦ none
        | some f ↦
            let h : OpenHandle = record { fd = fd; file = i; pos = kept_pos fs f pos } in
            load_loop k fs fd (hs ++ (h ∷ [])) s'
      ]
    ]
  ]

  -- The answer 0 or 1 with the file system, or `none` for -1, which leaves it as it is.
  unfoldable pub load_handles : Fs F → Reader S (ℕ × Fs F)
  load_handles fs s = elim (read_word r 4 s) [
    | none ↦ none
    | some (n, s') ↦ if ltb 65536 n then none else elim (load_loop n fs (2 ^ 32 - 1) [] s') [
      | none ↦ none
      | some (t, s'') ↦ elim t [
        | table hs ↦ some ((0, record fs { hs = hs }), s'')
        | unmounted ↦ some ((1, fs), s'')
      ]
    ]
  ]
