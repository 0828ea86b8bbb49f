-- ===== src/Mp4/Words.antt =====
-- Words put in big-endian order are read back by `AV_RB32` of Mp4Muxer.c.
use pluto_project.Base.{ℕ, ◌*◌, ◌/◌, ◌%◌, ◌^◌, ◌<◌, ◌≡◌, ap, ◌∙◌, arith, bit_and, bit_or, u32}
use pluto_project.Base.Bytes.{
  word, bit_and-word, bit_or-word, bit_and-zero, bit_or-zero, zero-bit_or, bit_and_mask,
}
use pluto_project.Mp4.Put.{bswap32, word_bytes, be32}
use pluto_project.Mp4.Avc.{av_rb32}

module _ (a b c d : ℕ) (ha : a < 2 ^ 8) (hb : b < 2 ^ 8) (hc : c < 2 ^ 8) (hd : d < 2 ^ 8) where
  odd_bytes : bit_and (word b c d 0) 0xFF00_FF00 ≡ word b 0 d 0
  odd_bytes = omega (
    arith,
    bit_and-word b c d 0 255 0 255 0 hc hd (omega arith) (omega arith) (omega arith) (omega arith),
    bit_and_mask 8 b hb,
    bit_and_mask 8 d hd,
    bit_and-zero c,
    bit_and-zero 0,
  )

  even_bytes : bit_and (word 0 a b c) 0x00FF_00FF ≡ word 0 a 0 c
  even_bytes = omega (
    arith,
    bit_and-word 0 a b c 0 255 0 255 ha hb hc (omega arith) (omega arith) (omega arith),
    bit_and_mask 8 a ha,
    bit_and_mask 8 c hc,
    bit_and-zero b,
    bit_and-zero 0,
  )

  pairs_swapped : bit_or (word b 0 d 0) (word 0 a 0 c) ≡ word b a d c
  pairs_swapped = omega (
    arith,
    bit_or-word b 0 d 0 0 a 0 c (omega arith) hd (omega arith) ha (omega arith) hc,
    bit_or-zero b,
    zero-bit_or a,
    bit_or-zero d,
    zero-bit_or c,
  )

  halves_swapped : bit_or (word 0 0 b a) (word d c 0 0) ≡ word d c b a
  halves_swapped = omega (
    arith,
    bit_or-word 0 0 b a d c 0 0 (omega arith) hb ha hc (omega arith) (omega arith),
    zero-bit_or d,
    zero-bit_or c,
    bit_or-zero b,
    bit_or-zero a,
  )

  -- `BSWAP32` turns the bytes of a word around.
  pub bswap32-word : bswap32 (word a b c d) ≡ word d c b a
  unfolding bswap32
  bswap32-word =
      let up : u32 (word a b c d * 2 ^ 8) ≡ word b c d 0 = omega arith in
      let down : word a b c d / 2 ^ 8 ≡ word 0 a b c = omega arith in
      let high : word b a d c / 2 ^ 16 ≡ word 0 0 b a = omega arith in
      let low : u32 (word b a d c * 2 ^ 16) ≡ word d c 0 0 = omega arith in
      let masked : bit_or (bit_and (u32 (word a b c d * 2 ^ 8)) 0xFF00_FF00)
            (bit_and (word a b c d / 2 ^ 8) 0x00FF_00FF)
          ≡ word b a d c =
        rw (up, down, odd_bytes, even_bytes) pairs_swapped in
      let turned : bit_or (word b a d c / 2 ^ 16) (u32 (word b a d c * 2 ^ 16)) ≡ word d c b a =
        rw (high, low) halves_swapped in
      ap (λ (x : ℕ). bit_or (x / 2 ^ 16) (u32 (x * 2 ^ 16))) masked ∙ turned

-- A word is made of its bytes.
word_split :
    (v : ℕ) → v < 2 ^ 32 → word (v / 2 ^ 24) (v / 2 ^ 16 % 256) (v / 2 ^ 8 % 256) (v % 256) ≡ v
word_split v h = omega arith

-- A 32-bit number written by `put_be32` is the number that `AV_RB32` reads there.
pub av_rb32-be32 : (v : ℕ) → v < 2 ^ 32 → av_rb32 (be32 v) 0 ≡ v
unfolding av_rb32 be32 word_bytes
av_rb32-be32 v h =
    let a = v / 2 ^ 24 in
    let b = v / 2 ^ 16 % 256 in
    let c = v / 2 ^ 8 % 256 in
    let d = v % 256 in
    let e : bswap32 (u32 v) ≡ word d c b a =
      ap bswap32 (omega (arith, word_split v h))
      ∙ bswap32-word a b c d (omega arith) (omega arith) (omega arith) (omega arith) in
    rw e (omega arith)
