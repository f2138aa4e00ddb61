-- ===== src/Tests/FsTests.antt =====
-- Runs of source/host/fs.c's model, on a host whose files are lists of bytes.
use chimera_common_minibox.Base.{
  Option-cases, inl, inr, ℕ, ◌+◌, ◌≤◌, ◌<◌, ◌≡◌, ◌≢◌, refl, true, false, ◌⊎◌, List, [], ◌∷◌, ◌++◌,
  none, some, ◌==◌, if◌then◌else◌, ltb, str_eq, arith, length, take, drop, length-take, min,
  get_elem?, ok, err, enospc, enomem,
}
use chimera_common_minibox.Base.Slices.{last}
use chimera_common_minibox.Fs.Types.{HostIo, Body, MountedFile, OpenHandle, Fs}
use chimera_common_minibox.Fs.Tail.{Tail, empty_tail, sysout_tail, sysout_since}
use chimera_common_minibox.Fs.Tail.Newest.{
  remember_all, joined, sysout_tail-newest, sysout_since-newest,
}
use chimera_common_minibox.Fs.Table.{
  host_file, has_bytes, is_sysout, index_of, by_name, find_handle, is_open, free_fd, fd_bound,
  lowest_fd, handle_add,
}
use chimera_common_minibox.Fs.Mount.{new, mount}
use chimera_common_minibox.Fs.Open.{access, open_at, open_file}
use chimera_common_minibox.Fs.Read.{read}
use chimera_common_minibox.Fs.Write.{write}
use chimera_common_minibox.Fs.Seek.{truncate_name}
use chimera_common_minibox.Fs.Descriptors.{lowest_fd-Least}
use chimera_common_minibox.Fs.Effects.{
  after_write, after_truncate, after_read, read-delivers, write-patched, truncate_name-cut,
}
use chimera_common_minibox.Fs.Valid.Handles.{open_file-Sound}
use chimera_common_minibox.Fs.Valid.Mounts.{mount-Sound, new-IsValid}
use chimera_common_minibox.Fs.Valid.Content.{seek_fits}
use chimera_common_minibox.Fs.Calls.{AllFit, Call, calls, Fine, calls-IsValid}

-- A host file: its bytes and its own position. One path can be read, none can be appended to.
abbrev HostFile : Type 0
HostFile = List ℕ × ℕ

abbrev small_host : HostIo
small_host = record {
  File = HostFile;
  open_read = λ path. if str_eq path (b'd' ∷ []) then some (5 ∷ 6 ∷ 7 ∷ [], 0) else none;
  open_write = λ path. some ([], 0);
  open_append = λ path. (13, none);
  seek_set = λ f at. (true, (f.0, at));
  seek_end = λ f. (true, (f.0, length f.0));
  tell = λ f. f.1;
  fread = λ f n. (take n (drop f.1 f.0), (f.0, f.1 + length (take n (drop f.1 f.0))));
  ferror = λ f. false;
  clearerr = λ f. f;
  fwrite = λ f bytes. (length bytes, (take f.1 f.0 ++ bytes, f.1 + length bytes));
  fflush = λ f. (true, f);
  ftruncate = λ f n. (true, (take n f.0, f.1));
  fclose = λ f. true;
  heap = λ n. if ltb 4096 n then none else some (λ i. 170);
}

small_host-short : (f : HostFile) (n : ℕ) → length (small_host.fread f n).0 ≤ n
small_host-short f n = omega (arith, length-take n (drop f.1 f.0))

abbrev blank : Fs HostFile
blank = new ([], 0) ([], 0) none

abbrev card : List ℕ
card = b'c' ∷ []

-- A writable file of three bytes, and it open under descriptor 3.
abbrev mounted : Fs HostFile
mounted = (mount small_host blank card (1 ∷ 2 ∷ 3 ∷ []) true).0

abbrev opened : Fs HostFile
opened = (open_file mounted card 2).0

abbrev card_file : MountedFile HostFile
card_file = record {
  name = card;
  body = Body.regular (1 ∷ 2 ∷ 3 ∷ []);
  len = 3;
  cap = 3;
  writable = true;
}

opened-IsValid : chimera_common_minibox.Fs.Valid.IsValid opened
opened-IsValid =
    (open_file-Sound
      (mount-Sound small_host (new-IsValid ([], 0) ([], 0) none) card (1 ∷ 2 ∷ 3 ∷ []) true
        (omega arith) refl).0
      card 2).0

abbrev some_calls : List Call
some_calls =
    Call.mounts card (1 ∷ 2 ∷ 3 ∷ []) true
    ∷ Call.opens card 2
    ∷ Call.seeks 3 5 0
    ∷ Call.writes 3 (9 ∷ [])
    ∷ Call.mounts_path (b'e' ∷ []) (b'd' ∷ [])
    ∷ Call.opens (b'e' ∷ []) 0
    ∷ Call.reads 4 100
    ∷ Call.truncates 3 2
    ∷ Call.closes 3
    ∷ Call.unmounts card
    ∷ Call.reads 4 100
    ∷ []

seek_set-fits : {F : Type 0} (fs : Fs F) (fd offset : ℕ) → seek_fits fs fd offset 0 ≡ true
seek_set-fits fs fd offset = elim (Option-cases (find_handle fs.hs fd)) [
  | inl e ↦ rw (e, seek_fits)
  | inr (h, e) ↦ elim (Option-cases (get_elem? fs.files h.file)) [
    | inl e' ↦ rw (e, e', seek_fits)
    | inr (f, e') ↦ rw (e, e', seek_fits)
  ]
]

some_calls-fit : AllFit small_host some_calls blank
some_calls-fit = (
  (omega arith, refl),
  λ a _. (
    tt,
    λ b _. (
      (omega arith, seek_set-fits b 3 5),
      λ c _. (
        omega arith,
        λ d _. (
          tt,
          λ e _. (
            tt,
            λ f _. (tt, λ g _. (omega arith, λ h _. (tt, λ i _. (tt, λ j _. (tt, λ k _. tt))))),
          ),
        ),
      ),
    ),
  ),
)

calls-IsValid_example : Fine (calls small_host blank some_calls)
calls-IsValid_example =
    calls-IsValid small_host small_host-short some_calls blank (new-IsValid ([], 0) ([], 0) none)
      some_calls-fit

abbrev card_handle : OpenHandle
card_handle = record { fd = 3; file = 3; pos = 0 }

opened-card :
    (find_handle opened.hs 3 ≡ some card_handle)
    × (get_elem? opened.files 3 ≡ some card_file)
    × (by_name opened card ≡ some 3)
unfolding host_file has_bytes is_sysout index_of by_name find_handle is_open free_fd fd_bound
    lowest_fd handle_add new mount access open_at open_file
opened-card = (refl, refl, refl)

write-patched_example :
    ((3 < 0 + 5)
      × (small_host.heap (0 + 5) ≡ none)
      × (write small_host opened 3 (7 ∷ 8 ∷ 9 ∷ 10 ∷ 11 ∷ []) ≡ (opened, err enospc)))
    ⊎ (write small_host opened 3 (7 ∷ 8 ∷ 9 ∷ 10 ∷ 11 ∷ []) ≡ (
      after_write opened card_handle card_file (1 ∷ 2 ∷ 3 ∷ []) (7 ∷ 8 ∷ 9 ∷ 10 ∷ 11 ∷ []),
      ok 5,
    ))
write-patched_example =
    write-patched small_host opened-IsValid 3 card_handle card_file (1 ∷ 2 ∷ 3 ∷ [])
      (7 ∷ 8 ∷ 9 ∷ 10 ∷ 11 ∷ []) opened-card.0 opened-card.1 refl refl (omega arith)

truncate_name-cut_example :
    ((small_host.heap (if 5 == 0 then 1 else 5) ≡ none)
      × (truncate_name small_host opened card 5 ≡ (opened, err enomem)))
    ⊎ (truncate_name small_host opened card 5
        ≡ (after_truncate small_host opened 3 card_file (1 ∷ 2 ∷ 3 ∷ []) 5, ok 0))
truncate_name-cut_example =
    truncate_name-cut small_host opened-IsValid card 3 card_file (1 ∷ 2 ∷ 3 ∷ []) 5 opened-card.2
      opened-card.1 refl refl refl

-- Two bytes of the three.
read-delivers_example :
    read small_host opened 3 2 ≡ after_read opened card_handle (1 ∷ 2 ∷ 3 ∷ []) 2
read-delivers_example =
    read-delivers small_host opened-IsValid 3 2 card_handle card_file (1 ∷ 2 ∷ 3 ∷ []) opened-card.0
      opened-card.1 refl

lowest_fd-Least_example :
    (find_handle opened.hs (lowest_fd opened.hs) ≡ none)
    × ((k : ℕ) → k < lowest_fd opened.hs → find_handle opened.hs k ≢ none)
lowest_fd-Least_example = lowest_fd-Least opened.hs

sysout_tail-newest_example :
    sysout_tail (remember_all (empty_tail 4) ((1 ∷ 2 ∷ 3 ∷ []) ∷ (4 ∷ 5 ∷ []) ∷ [])) 3
    ≡ last (min 3 4) (joined ((1 ∷ 2 ∷ 3 ∷ []) ∷ (4 ∷ 5 ∷ []) ∷ []))
sysout_tail-newest_example =
    sysout_tail-newest 4 3 ((1 ∷ 2 ∷ 3 ∷ []) ∷ (4 ∷ 5 ∷ []) ∷ []) (omega arith)

abbrev told : Tail
told = record { ring = 3 ∷ 4 ∷ 1 ∷ 2 ∷ []; sysout_total = 6; tail_at = 2; tail_wrapped = true }

sysout_since-newest_example :
    sysout_since (remember_all told ((7 ∷ 8 ∷ []) ∷ (9 ∷ []) ∷ [])) 6 2
    ≡ last (min 2 4) (joined ((7 ∷ 8 ∷ []) ∷ (9 ∷ []) ∷ []))
unfolding joined
sysout_since-newest_example =
    sysout_since-newest told 2 ((7 ∷ 8 ∷ []) ∷ (9 ∷ []) ∷ []) (record { in_ring = omega arith })
      (omega arith)
