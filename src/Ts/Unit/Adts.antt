-- ===== src/Ts/Unit/Adts.antt =====
-- The ADTS header of an audio frame, read back with the layout of ISO 14496-3.
use pluto_project.Base.{
  ℕ, ◌+◌, ◌-◌, ◌*◌, ◌/◌, ◌%◌, ◌^◌, ◌≤◌, ◌<◌, ◌≡◌, ap, ◌∙◌, List, ◌∷◌, arith, bit_and, bit_or, u32,
  get_or,
}
use pluto_project.Base.Bytes.{bit_and_low, bit_or_disjoint}
use pluto_project.Ts.Unit.{adts_header}

-- The fields of a header: two bits, four bits, three bits and thirteen.
pub record Adts : Type 0 where
  pub profile : ℕ
  pub sampling_frequency_index : ℕ
  pub channel_configuration : ℕ
  pub aac_frame_length : ℕ

unfoldable pub read_adts : List ℕ → Adts
read_adts bytes = record {
  profile = get_or bytes 2 0 / 2 ^ 6;
  sampling_frequency_index = get_or bytes 2 0 / 2 ^ 2 % 2 ^ 4;
  channel_configuration = get_or bytes 2 0 % 2 * 2 ^ 2 + get_or bytes 3 0 / 2 ^ 6;
  aac_frame_length =
      get_or bytes 3 0 % 2 ^ 2 * 2 ^ 11 + get_or bytes 4 0 * 2 ^ 3 + get_or bytes 5 0 / 2 ^ 5;
}

third_byte :
    (p f c : ℕ)
    → p < 2 ^ 2
    → f < 2 ^ 4
    → c < 2
    → bit_or (bit_or (u32 (p * 2 ^ 6)) (f * 2 ^ 2)) c % 256 ≡ p * 2 ^ 6 + f * 2 ^ 2 + c
third_byte p f c hp hf hc =
    let small : u32 (p * 2 ^ 6) ≡ p * 2 ^ 6 = omega arith in
    let e = bit_or_disjoint 6 p (f * 2 ^ 2) (omega arith) in
    let e2 = bit_or_disjoint 1 (p * 2 ^ 5 + f * 2) c (omega arith) in
    ap (λ x. bit_or (bit_or x (f * 2 ^ 2)) c % 256) small
    ∙ ap (λ x. bit_or x c % 256) (e ∙ omega arith)
    ∙ ap (λ (x : ℕ). x % 256) e2
    ∙ omega arith

fourth_byte : (c h : ℕ) → h < 2 ^ 2 → bit_or (bit_and c 3 * 2 ^ 6) h % 256 ≡ c % 2 ^ 2 * 2 ^ 6 + h
fourth_byte c h small =
    ap (λ x. bit_or (x * 2 ^ 6) h % 256) (bit_and_low 2 c)
    ∙ ap (λ (x : ℕ). x % 256) (bit_or_disjoint 6 (c % 2 ^ 2) h (omega arith))
    ∙ omega arith

-- The codec data of an audio track, an AudioSpecificConfig: five bits, four, four and three more.
abbrev pub config : ℕ → ℕ → ℕ → ℕ → List ℕ → List ℕ
config object_type freq channels low rest =
    (object_type * 2 ^ 3 + freq / 2) ∷ (freq % 2 * 2 ^ 7 + channels * 2 ^ 3 + low) ∷ rest

-- For codec data with an object type from 1 to 4, four bits of frequency and less than eight
-- channels, and a frame of less than 2 ^ 13 bytes, its header included, the header of the frame reads
-- back as the object type less 1, the frequency, the channels and the length.
pub read_adts-adts_header :
    (object_type freq channels low size : ℕ) (rest : List ℕ)
    → 1 ≤ object_type
    → object_type ≤ 4
    → freq < 2 ^ 4
    → channels < 2 ^ 3
    → low < 2 ^ 3
    → size < 2 ^ 13
    → read_adts (adts_header (config object_type freq channels low rest) size) ≡ record {
      profile = object_type - 1;
      sampling_frequency_index = freq;
      channel_configuration = channels;
      aac_frame_length = size;
    }
unfolding read_adts adts_header
read_adts-adts_header object_type freq channels low size rest some_type four hf hc hl hs =
    let csd0 : ℕ = object_type * 2 ^ 3 + freq / 2 in
    let csd1 : ℕ = freq % 2 * 2 ^ 7 + channels * 2 ^ 3 + low in
    let p : u32 (csd0 / 2 ^ 3 + (2 ^ 32 - 1)) ≡ object_type - 1 = omega arith in
    let f : bit_or (bit_and csd0 7 * 2) (csd1 / 2 ^ 7) ≡ freq =
      ap (λ x. bit_or (x * 2) (csd1 / 2 ^ 7)) (bit_and_low 3 csd0)
      ∙ bit_or_disjoint 1 (csd0 % 2 ^ 3) (csd1 / 2 ^ 7) (omega arith)
      ∙ omega arith in
    let c : bit_and (csd1 / 2 ^ 3) 0x0f ≡ channels = bit_and_low 4 (csd1 / 2 ^ 3) ∙ omega arith in
    let high : bit_and (channels / 2 ^ 2) 1 ≡ channels / 2 ^ 2 =
      bit_and_low 1 (channels / 2 ^ 2) ∙ omega arith in
    let b2 = third_byte (object_type - 1) freq (channels / 2 ^ 2) (omega arith) hf (omega arith) in
    let b3 = fourth_byte channels (size / 2 ^ 11) (omega arith) in
    let b4 : bit_and (size / 2 ^ 3) 0xff ≡ size / 2 ^ 3 % 2 ^ 8 = bit_and_low 8 (size / 2 ^ 3) in
    let b5 : bit_and size 7 ≡ size % 2 ^ 3 = bit_and_low 3 size in
    rw (p, f, c, high, b2, b3, b4, b5)
      (fields (omega arith) (omega arith) (omega arith) (omega arith))
  where
    fields :
        {a a' b b' c c' d d' : ℕ}
        → a ≡ a'
        → b ≡ b'
        → c ≡ c'
        → d ≡ d'
        → ◌≡◌ {A = Adts}
            (record {
              profile = a;
              sampling_frequency_index = b;
              channel_configuration = c;
              aac_frame_length = d;
            })
            (record {
              profile = a';
              sampling_frequency_index = b';
              channel_configuration = c';
              aac_frame_length = d';
            })
    fields p q r s = cc (p, q, r, s)
