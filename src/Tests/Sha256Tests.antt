-- ===== src/Tests/Sha256Tests.antt =====
-- Runs of source/host/sha256.c's model.
use chimera_common_minibox.Base.{◌≡◌, refl, [], ◌∷◌, arith}
use chimera_common_minibox.Sha256.{
  ror, init, block_words, schedule, round, rounds, block, filled, update_loop, update, pad_loop,
  big_endian, words_out, final,
}
use chimera_common_minibox.Sha256.Chunks.{update-append}

-- The hash of nothing, as FIPS 180-4 has it.
hash_of_nothing :
    final init
    ≡ 0xe3 ∷ 0xb0 ∷ 0xc4 ∷ 0x42 ∷ 0x98 ∷ 0xfc ∷ 0x1c ∷ 0x14 ∷ 0x9a ∷ 0xfb ∷ 0xf4 ∷ 0xc8 ∷ 0x99
      ∷ 0x6f ∷ 0xb9 ∷ 0x24 ∷ 0x27 ∷ 0xae ∷ 0x41 ∷ 0xe4 ∷ 0x64 ∷ 0x9b ∷ 0x93 ∷ 0x4c ∷ 0xa4 ∷ 0x95
      ∷ 0x99 ∷ 0x1b ∷ 0x78 ∷ 0x52 ∷ 0xb8 ∷ 0x55 ∷ []
unfolding ror init block_words schedule round rounds block filled update_loop update pad_loop
    big_endian words_out final
hash_of_nothing = refl

update-append_example : update (update init (1 ∷ 2 ∷ [])) (3 ∷ []) ≡ update init (1 ∷ 2 ∷ 3 ∷ [])
unfolding init
update-append_example = update-append init (1 ∷ 2 ∷ []) (3 ∷ []) (omega arith)
