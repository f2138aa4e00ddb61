-- ===== src/Sha256.antt =====
-- The hash of source/host/sha256.c.
pub mod Chunks
use Prim.Native.Nat.{bit_and, bit_xor}
use chimera_common_minibox.Base.{
  ℕ, zero, suc, ◌+◌, ◌-◌, ◌*◌, ◌/◌, ◌%◌, ◌^◌, List, [], ◌∷◌, ◌++◌, ◌==◌, if◌then◌else◌, length,
  take, drop, get_or, min,
}
use chimera_common_minibox.Base.Words.{two32, two64}

-- Rotation and shift of a 32-bit word to the right, and its complement.
unfoldable pub ror : ℕ → ℕ → ℕ
ror v s = v / 2 ^ s + (v * 2 ^ (32 - s)) % two32

abbrev shr : ℕ → ℕ → ℕ
shr v s = v / 2 ^ s

abbrev complement : ℕ → ℕ
complement v = two32 - 1 - v

abbrev xor3 : ℕ → ℕ → ℕ → ℕ
xor3 a b c = bit_xor (bit_xor a b) c

-- `K`.
abbrev round_constants : List ℕ
round_constants =
    0x428a2f98 ∷ 0x71374491 ∷ 0xb5c0fbcf ∷ 0xe9b5dba5 ∷ 0x3956c25b ∷ 0x59f111f1 ∷ 0x923f82a4
    ∷ 0xab1c5ed5 ∷ 0xd807aa98 ∷ 0x12835b01 ∷ 0x243185be ∷ 0x550c7dc3 ∷ 0x72be5d74 ∷ 0x80deb1fe
    ∷ 0x9bdc06a7 ∷ 0xc19bf174 ∷ 0xe49b69c1 ∷ 0xefbe4786 ∷ 0x0fc19dc6 ∷ 0x240ca1cc ∷ 0x2de92c6f
    ∷ 0x4a7484aa ∷ 0x5cb0a9dc ∷ 0x76f988da ∷ 0x983e5152 ∷ 0xa831c66d ∷ 0xb00327c8 ∷ 0xbf597fc7
    ∷ 0xc6e00bf3 ∷ 0xd5a79147 ∷ 0x06ca6351 ∷ 0x14292967 ∷ 0x27b70a85 ∷ 0x2e1b2138 ∷ 0x4d2c6dfc
    ∷ 0x53380d13 ∷ 0x650a7354 ∷ 0x766a0abb ∷ 0x81c2c92e ∷ 0x92722c85 ∷ 0xa2bfe8a1 ∷ 0xa81a664b
    ∷ 0xc24b8b70 ∷ 0xc76c51a3 ∷ 0xd192e819 ∷ 0xd6990624 ∷ 0xf40e3585 ∷ 0x106aa070 ∷ 0x19a4c116
    ∷ 0x1e376c08 ∷ 0x2748774c ∷ 0x34b0bcb5 ∷ 0x391c0cb3 ∷ 0x4ed8aa4a ∷ 0x5b9cca4f ∷ 0x682e6ff3
    ∷ 0x748f82ee ∷ 0x78a5636f ∷ 0x84c87814 ∷ 0x8cc70208 ∷ 0x90befffa ∷ 0xa4506ceb ∷ 0xbef9a3f7
    ∷ 0xc67178f2 ∷ []

-- `mb_sha256`. `buf` is the bytes that are filled, `fill` of them.
pub record Sha256 : Type 0 where
  pub h : List ℕ
  pub len : ℕ
  pub buf : List ℕ

unfoldable pub init : Sha256
init = record {
  h =
      0x6a09e667 ∷ 0xbb67ae85 ∷ 0x3c6ef372 ∷ 0xa54ff53a ∷ 0x510e527f ∷ 0x9b05688c ∷ 0x1f83d9ab
      ∷ 0x5be0cd19 ∷ [];
  len = 0;
  buf = [];
}

-- The first sixteen words, from the block's bytes.
unfoldable pub block_words : ℕ → List ℕ → List ℕ
block_words zero p = []
block_words (suc n) p =
    (((get_or p 0 0 * 256 + get_or p 1 0) * 256 + get_or p 2 0) * 256 + get_or p 3 0)
    ∷ block_words n (drop 4 p)

-- The words after them, each from those before it.
unfoldable pub schedule : ℕ → ℕ → List ℕ → List ℕ
schedule zero i w = w
schedule (suc n) i w =
    let a = get_or w (i - 15) 0 in
    let b = get_or w (i - 2) 0 in
    let s0 = xor3 (ror a 7) (ror a 18) (shr a 3) in
    let s1 = xor3 (ror b 17) (ror b 19) (shr b 10) in
    schedule n (i + 1) (w ++ ((get_or w (i - 16) 0 + s0 + get_or w (i - 7) 0 + s1) % two32 ∷ []))

-- The eight working variables, `a` to `h`.
abbrev pub Working : Type 0
Working = ℕ × ℕ × ℕ × ℕ × ℕ × ℕ × ℕ × ℕ

unfoldable pub round : ℕ → ℕ → Working → Working
round k w (a, b, c, d, e, f, g, h) =
    let s1 = xor3 (ror e 6) (ror e 11) (ror e 25) in
    let ch = bit_xor (bit_and e f) (bit_and (complement e) g) in
    let t1 = (h + s1 + ch + k + w) % two32 in
    let s0 = xor3 (ror a 2) (ror a 13) (ror a 22) in
    let maj = xor3 (bit_and a b) (bit_and a c) (bit_and b c) in
    let t2 = (s0 + maj) % two32 in ((t1 + t2) % two32, a, b, c, (d + t1) % two32, e, f, g)

unfoldable pub rounds : List ℕ → List ℕ → Working → Working
rounds [] ws v = v
rounds (k ∷ ks) [] v = v
rounds (k ∷ ks) (w ∷ ws) v = rounds ks ws (round k w v)

abbrev plus32 : ℕ → ℕ → ℕ
plus32 a b = (a + b) % two32

unfoldable pub block : List ℕ → List ℕ → List ℕ
block hs p =
    let at = λ (i : ℕ). get_or hs i 0 in
    let w = schedule 48 16 (block_words 16 p) in
    let (a, b, c, d, e, f, g, h) =
      rounds round_constants w (at 0, at 1, at 2, at 3, at 4, at 5, at 6, at 7) in
    plus32 (at 0) a
    ∷ plus32 (at 1) b
    ∷ plus32 (at 2) c
    ∷ plus32 (at 3) d
    ∷ plus32 (at 4) e
    ∷ plus32 (at 5) f
    ∷ plus32 (at 6) g
    ∷ plus32 (at 7) h
    ∷ []

-- More bytes in the buffer; a full one is hashed and emptied.
unfoldable pub filled : Sha256 → List ℕ → Sha256
filled c buf =
    if length buf == 64 then record c { h = block c.h buf; buf = [] } else record c { buf = buf }

-- `while (n)`: each round takes a byte or more, so one round for each byte is enough.
unfoldable pub update_loop : ℕ → Sha256 → List ℕ → Sha256
update_loop zero c p = c
update_loop (suc fuel) c p =
    let count = min (64 - length c.buf) (length p) in
    if length p == 0 then c else update_loop fuel (filled c (c.buf ++ take count p)) (drop count p)

unfoldable pub update : Sha256 → List ℕ → Sha256
update c p = update_loop (length p) (record c { len = (c.len + length p) % two64 }) p

-- `while (c->fill != 56)`: the buffer comes round to 56 bytes within 64 rounds.
unfoldable pub pad_loop : ℕ → Sha256 → Sha256
pad_loop zero c = c
pad_loop (suc fuel) c =
    let c' = update c (0 ∷ []) in
    if length c.buf == 56
    then c
    else pad_loop fuel (record c' { len = (c'.len + two64 - 1) % two64 })

-- The bytes of a word, the highest first.
unfoldable pub big_endian : ℕ → ℕ → List ℕ
big_endian zero x = []
big_endian (suc k) x = x / 256 ^ k % 256 ∷ big_endian k x

unfoldable pub words_out : List ℕ → List ℕ
words_out [] = []
words_out (h ∷ hs) = big_endian 4 h ++ words_out hs

unfoldable pub final : Sha256 → List ℕ
final c =
    let bits = (c.len * 8) % two64 in
    let padded = pad_loop 64 (update c (0x80 ∷ [])) in
    let last =
      update (record padded { len = (padded.len + two64 - 8) % two64 }) (big_endian 8 bits) in
    words_out last.h
