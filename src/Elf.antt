-- ===== src/Elf.antt =====
-- The check of an image before it is loaded, and the span of its segments (source/host/elf.c).
pub mod Bounds
use chimera_common_minibox.Base.{
  ℕ, zero, suc, ◌+◌, ◌-◌, ◌*◌, ◌/◌, Bool, true, false, not, ◌&&◌, ◌||◌, List, [], ◌∷◌, Option, none,
  some, ltb, leb, ◌==◌, str_eq, if◌then◌else◌, length, take, drop, get_or,
}
use chimera_common_minibox.Base.Words.{add64, sub64, two64}
use chimera_common_minibox.Stream.{word_at}

abbrev pub Image : Type 0
Image = List ℕ

-- The fields of `Elf64_Ehdr` that are read.
abbrev pub e_phoff : Image → ℕ
e_phoff image = word_at 8 32 image

abbrev pub e_shoff : Image → ℕ
e_shoff image = word_at 8 40 image

abbrev pub e_phentsize : Image → ℕ
e_phentsize image = word_at 2 54 image

abbrev pub e_phnum : Image → ℕ
e_phnum image = word_at 2 56 image

abbrev pub e_shentsize : Image → ℕ
e_shentsize image = word_at 2 58 image

abbrev pub e_shnum : Image → ℕ
e_shnum image = word_at 2 60 image

abbrev pub e_shstrndx : Image → ℕ
e_shstrndx image = word_at 2 62 image

-- `Elf64_Shdr` and `Elf64_Phdr`, less what is not read.
pub record Section : Type 0 where
  pub sh_name : ℕ
  pub sh_type : ℕ
  pub sh_offset : ℕ
  pub sh_size : ℕ
  pub sh_link : ℕ

pub record Segment : Type 0 where
  pub p_type : ℕ
  pub p_offset : ℕ
  pub p_vaddr : ℕ
  pub p_filesz : ℕ
  pub p_memsz : ℕ

unfoldable pub section : Image → ℕ → Section
section image i =
    let at = e_shoff image + i * 64 in
    record {
      sh_name = word_at 4 at image;
      sh_type = word_at 4 (at + 4) image;
      sh_offset = word_at 8 (at + 24) image;
      sh_size = word_at 8 (at + 32) image;
      sh_link = word_at 4 (at + 40) image;
    }

unfoldable pub segment : Image → ℕ → Segment
segment image i =
    let at = e_phoff image + i * e_phentsize image in
    record {
      p_type = word_at 4 at image;
      p_offset = word_at 8 (at + 8) image;
      p_vaddr = word_at 8 (at + 16) image;
      p_filesz = word_at 8 (at + 32) image;
      p_memsz = word_at 8 (at + 40) image;
    }

-- `SHT_SYMTAB`, `SHT_NOBITS` and `PT_LOAD`.
abbrev pub sht_symtab : ℕ
sht_symtab = 2

abbrev pub sht_nobits : ℕ
sht_nobits = 8

abbrev pub pt_load : ℕ
pt_load = 1

unfoldable pub within : ℕ → ℕ → ℕ → Bool
within off size len = leb off len && leb size (len - off)

unfoldable pub strings_end : Image → Section → Bool
strings_end image s =
    not (s.sh_type == sht_nobits)
    && not (s.sh_size == 0)
    && get_or image (s.sh_offset + s.sh_size - 1) 0 == 0

-- Why an image is refused, with the number of the section, the symbol or the segment.
pub data Refusal : Type 0 where
  not_elf64 headers_outside no_sections sections_outside no_name_table : Refusal
  section_outside : ℕ → Refusal
  no_string_table names_open strings_open : Refusal
  section_name symbol_name segment_outside segment_wraps : ℕ → Refusal

-- The first refusal of a chain of checks, each looked at only when those before it pass.
infixr 3 ◌then_check◌
abbrev pub ◌then_check◌ : Option Refusal → Option Refusal → Option Refusal
none then_check r = r
some why then_check r = some why

abbrev pub refuse : Bool → Refusal → Option Refusal
refuse bad why = if bad then some why else none

-- A check for each index below a bound, in order: `count` of them from `i`.
unfoldable pub check_each : (ℕ → Option Refusal) → ℕ → ℕ → Option Refusal
check_each check i zero = none
check_each check i (suc count) = check i then_check check_each check (i + 1) count

unfoldable pub check_section : Image → ℕ → Option Refusal
check_section image i =
    let s = section image i in
    refuse (not (s.sh_type == sht_nobits) && not (within s.sh_offset s.sh_size (length image)))
      (Refusal.section_outside i)
    then_check refuse (s.sh_type == sht_symtab && leb (e_shnum image) s.sh_link)
        Refusal.no_string_table

-- `syms[k].st_name`, each `Elf64_Sym` having 24 bytes.
unfoldable pub check_symbol : Image → Section → Section → ℕ → Option Refusal
check_symbol image s strings k =
    refuse (leb strings.sh_size (word_at 4 (s.sh_offset + k * 24) image)) (Refusal.symbol_name k)

unfoldable pub check_symbols : Image → Section → Option Refusal
check_symbols image s =
    let strings = section image s.sh_link in
    refuse (not (strings_end image strings)) Refusal.strings_open
    then_check check_each (check_symbol image s strings) 0 (s.sh_size / 24)

unfoldable pub check_names : Image → Section → ℕ → Option Refusal
check_names image names i =
    let s = section image i in
    refuse (leb names.sh_size s.sh_name) (Refusal.section_name i)
    then_check (if s.sh_type == sht_symtab then check_symbols image s else none)

unfoldable pub check_segment : Image → ℕ → Option Refusal
check_segment image i =
    let p = segment image i in
    if not (p.p_type == pt_load)
    then none
    else refuse (not (within p.p_offset p.p_filesz (length image)) || ltb p.p_memsz p.p_filesz)
        (Refusal.segment_outside i)
      then_check refuse (ltb (add64 p.p_vaddr p.p_memsz) p.p_vaddr) (Refusal.segment_wraps i)

-- The magic number and the class.
unfoldable pub is_elf64 : Image → Bool
is_elf64 image =
    leb 64 (length image)
    && str_eq (take 4 image) (0x7f ∷ b'E' ∷ b'L' ∷ b'F' ∷ [])
    && get_or image 4 0 == 2

-- `mb_elf_check` on x86-64: nothing, or why not.
unfoldable pub elf_check : Image → Option Refusal
elf_check image =
    let len = length image in
    let names = section image (e_shstrndx image) in
    refuse (not (is_elf64 image)) Refusal.not_elf64
    then_check refuse
        (not (e_phnum image == 0)
          && (ltb (e_phentsize image) 56
              || not (within (e_phoff image) (e_phnum image * e_phentsize image) len)))
        Refusal.headers_outside
    then_check refuse (e_shnum image == 0) Refusal.no_sections
    then_check refuse
        (not (e_shentsize image == 64) || not (within (e_shoff image) (e_shnum image * 64) len))
        Refusal.sections_outside
    then_check refuse (leb (e_shnum image) (e_shstrndx image)) Refusal.no_name_table
    then_check check_each (check_section image) 0 (e_shnum image)
    then_check refuse (not (strings_end image names)) Refusal.names_open
    then_check check_each (check_names image names) 0 (e_shnum image)
    then_check check_each (check_segment image) 0 (e_phnum image)

-- The loop of `mb_elf_span`: the lowest address and the highest end so far.
unfoldable pub span_loop : Image → ℕ → ℕ → ℕ → ℕ → ℕ × ℕ
span_loop image i zero lo hi = (lo, hi)
span_loop image i (suc count) lo hi =
    let p = segment image i in
    let end = add64 p.p_vaddr p.p_memsz in
    if p.p_vaddr == 0
    then span_loop image (i + 1) count lo hi
    else span_loop image (i + 1) count (if ltb p.p_vaddr lo then p.p_vaddr else lo)
        (if ltb hi end then end else hi)

-- The start and the size.
unfoldable pub elf_span : Image → ℕ × ℕ
elf_span image = let (lo, hi) = span_loop image 0 (e_phnum image) (two64 - 1) 0 in (lo, sub64 hi lo)
