-- ===== src/Ts/Unit/Pts.antt =====
-- The time of a frame in its PES header.
use pluto_project.Base.{
  ℕ, ◌+◌, ◌*◌, ◌/◌, ◌%◌, ◌^◌, ◌<◌, ◌≡◌, ap, ◌∙◌, List, arith, bit_and, bit_or, u32, get_or, drop,
}
use pluto_project.Base.Bytes.{bit_and_low, bit_or_disjoint}
use pluto_project.Ts.{AvFormatContext, AvPacket}
use pluto_project.Ts.Unit.{pts_bytes, pts_of, pes_header}

-- The word of the five bytes, the first the highest, and the three fields of the time in it.
unfoldable pub read_pts : List ℕ → ℕ
read_pts bytes =
    let word =
      (((get_or bytes 0 0 * 2 ^ 8 + get_or bytes 1 0) * 2 ^ 8 + get_or bytes 2 0) * 2 ^ 8
          + get_or bytes 3 0)
        * 2 ^ 8
      + get_or bytes 4 0 in
    word / 2 % 2 ^ 7
    + word / 2 ^ 8 % 2 ^ 8 * 2 ^ 7
    + word / 2 ^ 17 % 2 ^ 7 * 2 ^ 15
    + word / 2 ^ 24 % 2 ^ 8 * 2 ^ 22
    + word / 2 ^ 33 % 2 ^ 3 * 2 ^ 30

marked : (a : ℕ) → bit_or (a * 2) 1 ≡ a * 2 + 1
marked a = bit_or_disjoint 1 a 1 (omega arith)

first_byte : (t : ℕ) → t < 8 → bit_or (bit_or 0x20 (t * 2)) 1 ≡ 0x21 + t * 2
first_byte t h =
    let e = bit_or_disjoint 4 2 (t * 2) (omega arith) in
    ap (λ x. bit_or x 1) (e ∙ omega arith) ∙ marked (16 + t) ∙ omega arith

pub read_pts-pts_bytes : (pts : ℕ) → pts < 2 ^ 33 → read_pts (pts_bytes pts) ≡ pts
unfolding read_pts pts_bytes
read_pts-pts_bytes pts h =
    let a : bit_or (bit_or 0x20 (bit_and (pts / 2 ^ 30) 7 * 2)) 1 ≡ 0x21 + pts / 2 ^ 30 * 2 =
      ap (λ x. bit_or (bit_or 0x20 (x * 2)) 1) (bit_and_low 3 (pts / 2 ^ 30) ∙ omega arith)
      ∙ first_byte (pts / 2 ^ 30) (omega arith) in
    let b : bit_and (pts / 2 ^ 22) 0xff ≡ pts / 2 ^ 22 % 2 ^ 8 = bit_and_low 8 (pts / 2 ^ 22) in
    let c : bit_or (bit_and (pts / 2 ^ 15) 0x7f * 2) 1 ≡ pts / 2 ^ 15 % 2 ^ 7 * 2 + 1 =
      marked (bit_and (pts / 2 ^ 15) 0x7f)
      ∙ ap (λ (x : ℕ). x * 2 + 1) (bit_and_low 7 (pts / 2 ^ 15)) in
    let d : bit_and (pts / 2 ^ 7) 0xff ≡ pts / 2 ^ 7 % 2 ^ 8 = bit_and_low 8 (pts / 2 ^ 7) in
    let e : bit_or (bit_and pts 0x7f * 2) 1 ≡ pts % 2 ^ 7 * 2 + 1 =
      marked (bit_and pts 0x7f) ∙ ap (λ (x : ℕ). x * 2 + 1) (bit_and_low 7 pts) in
    rw (a, b, c, d, e) (omega arith)

-- From the PES header of a frame, a receiver reads its time on the clock of 90 kHz, modulo 2 ^ 32.
pub read_pts-pes_header :
    (ctx : AvFormatContext) (pkt : AvPacket)
    → read_pts (drop 9 (pes_header ctx pkt)) ≡ pkt.pts * 90 % 2 ^ 32
unfolding pes_header pts_of
read_pts-pes_header ctx pkt =
    read_pts-pts_bytes (u32 (pkt.pts * 1000 * 9 / 100)) (omega arith) ∙ omega arith
