-- ===== src/Tests/ElfTests.antt =====
-- Runs of source/host/elf.c's model.
use chimera_common_minibox.Base.{
  ℕ, ◌+◌, ◌*◌, ◌≤◌, ◌<◌, ◌≡◌, refl, none, List, [], ◌∷◌, ◌++◌, replicate, length,
}
use chimera_common_minibox.Stream.{le_word, word_at}
use chimera_common_minibox.Elf.{
  Image, e_shoff, e_shnum, e_phnum, section, segment, pt_load, within, strings_end, check_each,
  check_section, check_symbol, check_symbols, check_names, check_segment, is_elf64, elf_check,
  span_loop, elf_span,
}
use chimera_common_minibox.Elf.Bounds.{SectionInside, SegmentInside, elf_check-Inside}

abbrev zeros : ℕ → List ℕ
zeros n = replicate n 0

-- A header, one loaded segment of two bytes in eight of memory, one section, which is the table of names.
abbrev tiny : Image
tiny =
    (0x7f ∷ 0x45 ∷ 0x4c ∷ 0x46 ∷ 2 ∷ zeros 27)
    ++ ((64 ∷ zeros 7)
        ++ ((120 ∷ zeros 7)
            ++ (zeros 6
                ++ (56 ∷ 0 ∷ 1 ∷ 0 ∷ 64 ∷ 0 ∷ 1 ∷ 0 ∷ 0 ∷ 0 ∷ [])
                ++ ((1 ∷ zeros 7)
                    ++ ((184 ∷ zeros 7)
                        ++ ((0 ∷ 16 ∷ zeros 6)
                            ++ (zeros 8 ++ ((2 ∷ zeros 7) ++ ((8 ∷ zeros 7) ++ zeros 8)))))
                    ++ (zeros 4
                        ++ ((3 ∷ zeros 3)
                            ++ (zeros 16 ++ ((184 ∷ zeros 7) ++ ((2 ∷ zeros 7) ++ zeros 24)))))
                    ++ (0 ∷ 0 ∷ [])))))

tiny-elf_check : elf_check tiny ≡ none
unfolding le_word word_at section segment within strings_end check_each check_section check_symbol
    check_symbols check_names check_segment is_elf64 elf_check
tiny-elf_check = refl

tiny-span : elf_span tiny ≡ (0x1000, 8)
unfolding le_word word_at segment span_loop elf_span
tiny-span = refl

elf_check-Inside_example :
    (e_shoff tiny + e_shnum tiny * 64 ≤ length tiny)
    × ((i : ℕ) → i < e_shnum tiny → SectionInside tiny (section tiny i))
    × ((i : ℕ)
        → i < e_phnum tiny
        → (segment tiny i).p_type ≡ pt_load
        → SegmentInside tiny (segment tiny i))
elf_check-Inside_example = elf_check-Inside tiny tiny-elf_check
