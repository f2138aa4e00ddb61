-- ===== src/Fs/Count.antt =====
-- How many open handles pass a test, and what the operations on the table do to that number.
use chimera_common_minibox.Base.{
  ℕ, suc, ◌+◌, ◌≤◌, ◌≡◌, refl, Bool, true, false, ◌||◌, List, [], ◌∷◌, ◌++◌, map, none, some, ◌==◌,
  if◌then◌else◌, arith, Bool-cases, inl, inr,
}
use chimera_common_minibox.Fs.Types.{OpenHandle}
use chimera_common_minibox.Fs.Table.{find_handle, set_pos, is_open}
use chimera_common_minibox.Fs.Open.{last_handle, drop_last, swap_remove}

abbrev pub Test : Type 0
Test = OpenHandle → Bool

unfoldable pub count : Test → List OpenHandle → ℕ
count p [] = 0
count p (h ∷ hs) = if p h then suc (count p hs) else count p hs

pub count-append :
    (p : Test) (hs gs : List OpenHandle) → count p (hs ++ gs) ≡ count p hs + count p gs
unfolding count
count-append p [] gs = omega arith
count-append p (h ∷ hs) gs = ground (arith, count-append p hs gs)

-- A position is none of a test's business that says so.
pub count-set_pos :
    (p : Test) (hs : List OpenHandle) (fd pos : ℕ)
    → ((h : OpenHandle) → p (record h { pos = pos }) ≡ p h)
    → count p (set_pos hs fd pos) ≡ count p hs
unfolding count set_pos
count-set_pos p [] fd pos same = refl
count-set_pos p (h ∷ hs) fd pos same = ground (arith, same h, count-set_pos p hs fd pos same)

pub count-map :
    (p q : Test) (g : OpenHandle → OpenHandle) (hs : List OpenHandle)
    → ((h : OpenHandle) → p (g h) ≡ q h)
    → count p (map g hs) ≡ count q hs
unfolding count
count-map p q g [] same = refl
count-map p q g (h ∷ hs) same = ground (arith, same h, count-map p q g hs same)

-- Closing takes one handle away.
count-drop_last :
    (p : Test) (h : OpenHandle) (hs : List OpenHandle)
    → count p (last_handle h hs ∷ drop_last h hs) ≡ count p (h ∷ hs)
unfolding count last_handle drop_last
count-drop_last p h [] = refl
count-drop_last p h (g ∷ hs) = ground (arith, count-drop_last p g hs)

pub count-swap_remove :
    (p : Test) (hs : List OpenHandle) (fd : ℕ) {h : OpenHandle}
    → find_handle hs fd ≡ some h
    → count p hs ≡ count p (swap_remove hs fd) + (if p h then 1 else 0)
unfolding count swap_remove find_handle
count-swap_remove p [] fd e = cc
count-swap_remove p (g ∷ []) fd e = ground arith
count-swap_remove p (g ∷ k ∷ hs) fd {h} e = elim (Bool-cases (g.fd == fd)) [
  | inl hit ↦ rw hit (ground (arith, hit, count-drop_last p k hs))
  | inr miss ↦ ground (arith, miss, count-swap_remove p (k ∷ hs) fd {h = h})
]

-- What no handle passes, a handle that is found does not pass.
pub test_of_find :
    (p : Test) (hs : List OpenHandle) (fd : ℕ) {h : OpenHandle}
    → count p hs ≡ 0
    → find_handle hs fd ≡ some h
    → p h ≡ false
unfolding count find_handle
test_of_find p [] fd z e = cc
test_of_find p (g ∷ hs) fd {h} z e = ground (arith, test_of_find p hs fd {h = h})

pub fd_of_find :
    (hs : List OpenHandle) (fd : ℕ) {h : OpenHandle} → find_handle hs fd ≡ some h → h.fd ≡ fd
unfolding find_handle
fd_of_find [] fd e = cc
fd_of_find (g ∷ hs) fd {h} e = ground (arith, fd_of_find hs fd {h = h})

pub count_of_find_none :
    (hs : List OpenHandle) (fd : ℕ) → find_handle hs fd ≡ none → count (λ h. h.fd == fd) hs ≡ 0
unfolding count find_handle
count_of_find_none [] fd e = refl
count_of_find_none (g ∷ hs) fd e = ground (arith, count_of_find_none hs fd)

pub count_of_not_open :
    (hs : List OpenHandle) (i : ℕ) → is_open hs i ≡ false → count (λ h. h.file == i) hs ≡ 0
unfolding count is_open
count_of_not_open [] i e = refl
count_of_not_open (g ∷ hs) i e = ground (arith, count_of_not_open hs i)

-- A test that implies one of two others counts no more than both.
pub count-le-add :
    (p q r : Test) (hs : List OpenHandle)
    → ((h : OpenHandle) → p h ≡ true → (q h || r h) ≡ true)
    → count p hs ≤ count q hs + count r hs
unfolding count
count-le-add p q r [] imp = omega arith
count-le-add p q r (h ∷ hs) imp = ground (arith, imp h, count-le-add p q r hs imp)

pub count-never : (hs : List OpenHandle) → count (λ h. false) hs ≡ 0
unfolding count
count-never [] = refl
count-never (h ∷ hs) = count-never hs

-- A position that fails the test adds nothing.
pub count-set_pos-le :
    (p : Test) (hs : List OpenHandle) (fd pos : ℕ)
    → ((h : OpenHandle) → p (record h { pos = pos }) ≡ false)
    → count p (set_pos hs fd pos) ≤ count p hs
unfolding count set_pos
count-set_pos-le p [] fd pos no_more = omega arith
count-set_pos-le p (h ∷ hs) fd pos no_more =
    ground (arith, no_more h, count-set_pos-le p hs fd pos no_more)
