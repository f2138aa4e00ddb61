-- ===== src/Elf/Bounds.antt =====
-- What `mb_elf_check` of source/host/elf.c has made sure of.
use chimera_common_minibox.Base.{
  ℕ, zero, suc, ◌+◌, ◌*◌, ◌≤◌, ◌<◌, ◌≡◌, refl, sym, ap, ◌∙◌, Bool, true, false, not, ◌&&◌, ◌||◌,
  ◌⊎◌, inl, inr, Option, none, some, ltb, leb, ◌==◌, ==_iff, if◌then◌else◌, Bool-cases, arith,
  length,
}
use chimera_common_minibox.Base.Words.{add64}
use chimera_common_minibox.Elf.{
  Image, e_shoff, e_phoff, e_phentsize, e_shentsize, e_phnum, e_shnum, e_shstrndx, Section, Segment,
  section, segment, sht_nobits, pt_load, within, strings_end, Refusal, ◌then_check◌, refuse,
  check_each, check_section, check_segment, check_names, is_elf64, elf_check,
}

passed : (r s : Option Refusal) → (r then_check s) ≡ none → (r ≡ none) × (s ≡ none)
passed none s e = (refl, e)
passed (some why) s e = cc

refuse-none : (bad : Bool) (why : Refusal) → refuse bad why ≡ none → bad ≡ false
refuse-none false why e = refl
refuse-none true why e = cc

check_each-passed :
    (check : ℕ → Option Refusal) (i count : ℕ)
    → check_each check i count ≡ none
    → (k : ℕ) → i ≤ k
    → k < i + count
    → check k ≡ none
unfolding check_each
check_each-passed check i zero e k a b = absurd (omega arith)
check_each-passed check i (suc count) e k a b =
    let (first, rest) = passed (check i) (check_each check (i + 1) count) e in
    elim (Bool-cases (i == k)) [
      | inl q ↦ let same : i ≡ k = ground arith in ap check (sym same) ∙ first
      | inr q ↦ check_each-passed check (i + 1) count rest k (ground arith) (omega arith)
    ]

else_branch : {A : Type 0} {b : Bool} (x y : A) → b ≡ false → (if b then x else y) ≡ y
else_branch x y e = rw e refl

-- What lies inside the image: a section that has bytes, and a loaded segment, which takes no fewer bytes of memory
-- than of the image and does not wrap around the address space.
abbrev pub SectionInside : Image → Section → Type 0
SectionInside image s = s.sh_type ≡ sht_nobits ⊎ (s.sh_offset + s.sh_size ≤ length image)

abbrev pub SegmentInside : Image → Segment → Type 0
SegmentInside image p =
    (p.p_offset + p.p_filesz ≤ length image)
    × (p.p_filesz ≤ p.p_memsz)
    × (p.p_vaddr ≤ add64 p.p_vaddr p.p_memsz)

section_inside :
    (image : Image) (i : ℕ) → check_section image i ≡ none → SectionInside image (section image i)
unfolding check_section within
section_inside image i e =
    let s = section image i in
    let bad = not (s.sh_type == sht_nobits) && not (within s.sh_offset s.sh_size (length image)) in
    let ok =
      refuse-none bad (Refusal.section_outside i)
        (passed (refuse bad (Refusal.section_outside i)) _ e).0 in
    elim (Bool-cases (s.sh_type == sht_nobits)) [
      | inl q ↦ inl ((==_iff s.sh_type sht_nobits).0 q)
      | inr q ↦ inr (ground (arith, ok, q))
    ]

segment_inside :
    (image : Image) (i : ℕ)
    → check_segment image i ≡ none
    → (segment image i).p_type ≡ pt_load
    → SegmentInside image (segment image i)
unfolding check_segment within
segment_inside image i e load =
    let p = segment image i in
    let loaded : not (p.p_type == pt_load) ≡ false = ground (arith, load) in
    let outside = not (within p.p_offset p.p_filesz (length image)) || ltb p.p_memsz p.p_filesz in
    let wraps = ltb (add64 p.p_vaddr p.p_memsz) p.p_vaddr in
    let (first, second) =
      passed (refuse outside (Refusal.segment_outside i)) (refuse wraps (Refusal.segment_wraps i))
        (sym (else_branch none _ loaded) ∙ e) in
    let a = refuse-none outside (Refusal.segment_outside i) first in
    let b = refuse-none wraps (Refusal.segment_wraps i) second in
    (ground (arith, a), ground (arith, a), ground (arith, b))

-- An image that the check accepts has its section headers inside it, each of its sections that has bytes inside it, and each of its loaded
-- segments inside it, taking no fewer bytes of memory than of the image and not wrapping around the address
-- space.
pub elf_check-Inside :
    (image : Image)
    → elf_check image ≡ none
    → (e_shoff image + e_shnum image * 64 ≤ length image)
      × ((i : ℕ) → i < e_shnum image → SectionInside image (section image i))
      × ((i : ℕ)
          → i < e_phnum image
          → (segment image i).p_type ≡ pt_load
          → SegmentInside image (segment image i))
unfolding elf_check within
elf_check-Inside image e0 =
    let names = section image (e_shstrndx image) in
    let outside =
      not (e_shentsize image == 64)
      || not (within (e_shoff image) (e_shnum image * 64) (length image)) in
    let e1 = (passed (refuse (not (is_elf64 image)) Refusal.not_elf64) _ e0).1 in
    let e2 =
      (passed
        (refuse
          (not (e_phnum image == 0)
            && (ltb (e_phentsize image) 56
                || not (within (e_phoff image) (e_phnum image * e_phentsize image) (length image))))
          Refusal.headers_outside)
        _ e1).1 in
    let e3 = (passed (refuse (e_shnum image == 0) Refusal.no_sections) _ e2).1 in
    let (headers, e4) = passed (refuse outside Refusal.sections_outside) _ e3 in
    let e5 =
      (passed (refuse (leb (e_shnum image) (e_shstrndx image)) Refusal.no_name_table) _ e4).1 in
    let (sections, e6) = passed (check_each (check_section image) 0 (e_shnum image)) _ e5 in
    let e7 = (passed (refuse (not (strings_end image names)) Refusal.names_open) _ e6).1 in
    let segments = (passed (check_each (check_names image names) 0 (e_shnum image)) _ e7).1 in
    let h = refuse-none outside Refusal.sections_outside headers in
    (
      ground (arith, h),
      λ i lt. section_inside image i (
          check_each-passed (check_section image) 0 (e_shnum image) sections i (omega arith)
            (omega arith)),
      λ i lt load.
          segment_inside image i
            (check_each-passed (check_segment image) 0 (e_phnum image) segments i (omega arith)
              (omega arith))
            load,
    )
