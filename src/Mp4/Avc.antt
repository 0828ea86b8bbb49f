-- ===== src/Mp4/Avc.antt =====
-- The H.264 parameter sets of Mp4Muxer.c: the search for start codes, the split into NAL units and
-- the `avcC` record. Bytes are read by index from a list; an address outside of it reads as 0. The
-- memory that `malloc` gives is not modelled to fail.
use pluto_project.Base.{
  ℕ, zero, suc, ◌+◌, ◌-◌, ◌*◌, ◌%◌, ◌^◌, Bool, Option, none, some, List, [], ◌++◌, bit_and, u32,
  ltb, ◌==◌, not, ◌&&◌, if◌then◌else◌, length, get_or, take, drop,
}
use pluto_project.Mp4.{MovTrack}
use pluto_project.Mp4.Put.{
  Calls, ◌⨾◌, codes, bswap32, word_bytes, put_buffer, put_byte, put_be16, put_be32, put_tag,
}

-- How a scanning loop ends: by a return, or by its test at a position.
pub data Scan : Type 0 where
  found : ℕ → Scan
  ended : ℕ → Scan

abbrev pub byte_at : List ℕ → ℕ → ℕ
byte_at bytes p = get_or bytes p 0

-- `p[0] == 0 && p[1] == 0 && p[2] == 1`
abbrev pub start_code_at : List ℕ → ℕ → Bool
start_code_at bytes p =
    byte_at bytes p == 0 && (byte_at bytes (p + 1) == 0 && byte_at bytes (p + 2) == 1)

-- The loops that go byte by byte, up to `limit`, on fuel.
scan_bytes : List ℕ → ℕ → ℕ → ℕ → Scan
scan_bytes bytes limit zero p = ended p
scan_bytes bytes limit (suc fuel) p =
    let rest = scan_bytes bytes limit fuel (p + 1) in
    if ltb p limit then (if start_code_at bytes p then found p else rest) else ended p

-- The word at `p` has a zero byte: `(x - 0x01010101) & (~x) & 0x80808080`.
has_zero_byte : List ℕ → ℕ → Bool
has_zero_byte bytes p =
    let x =
      byte_at bytes p
      + byte_at bytes (p + 1) * 2 ^ 8
      + byte_at bytes (p + 2) * 2 ^ 16
      + byte_at bytes (p + 3) * 2 ^ 24 in
    not (bit_and (bit_and (u32 (x + 2 ^ 32 - 0x0101_0101)) (2 ^ 32 - 1 - x)) 0x8080_8080 == 0)

-- The four tests of the loop over words, in order, with the position that each returns.
word_hit : List ℕ → ℕ → Option ℕ
word_hit bytes p =
    let b0 = byte_at bytes p in
    let b1 = byte_at bytes (p + 1) in
    let b2 = byte_at bytes (p + 2) in
    let b3 = byte_at bytes (p + 3) in
    let b4 = byte_at bytes (p + 4) in
    let b5 = byte_at bytes (p + 5) in
    if not (has_zero_byte bytes p)
    then none
    else if b1 == 0 && (b0 == 0 && b2 == 1)
    then some (p - 1)
    else if b1 == 0 && (b2 == 0 && b3 == 1)
    then some p
    else if b3 == 0 && (b2 == 0 && b4 == 1)
    then some (p + 1)
    else if b3 == 0 && (b4 == 0 && b5 == 1)
    then some (p + 2)
    else none

scan_words : List ℕ → ℕ → ℕ → ℕ → Scan
scan_words bytes limit zero p = ended p
scan_words bytes limit (suc fuel) p =
    let rest = scan_words bytes limit fuel (p + 4) in
    if ltb p limit then elim (word_hit bytes p) [ some q ↦ found q | none ↦ rest ] else ended p

-- `ff_avc_find_startcode` on `bytes`, which lie at `address`, from `p` up to `end`. The fuel is
-- `end`, and each round moves `p` on.
unfoldable pub ff_avc_find_startcode : ℕ → List ℕ → ℕ → ℕ → ℕ
unfolding scan_bytes scan_words word_hit has_zero_byte
ff_avc_find_startcode address bytes p end =
    let a = p + 4 - (address + p) % 4 in
    let aligned = if ltb a (end - 3) then a else end - 3 in
    elim (scan_bytes bytes aligned end p) [
      | found q ↦ q
      | ended p1 ↦ elim (scan_words bytes (end - 6) end p1) [
        | found q ↦ q
        | ended p2 ↦ elim (scan_bytes bytes (end - 3) end p2) [ found q ↦ q | ended _ ↦ end ]
      ]
    ]

-- `while(!*(nal_start++));` ends behind the first byte that is not 0.
skip_zeros : List ℕ → ℕ → ℕ → ℕ
skip_zeros bytes zero p = p
skip_zeros bytes (suc fuel) p =
    let rest = skip_zeros bytes fuel (p + 1) in if byte_at bytes p == 0 then rest else p + 1

-- The loop of `ff_avc_parse_nal_units`: the units, each behind its size. `none` is a unit that
-- would end before it starts, whose size wraps and whose copy leaves the buffer.
nal_loop : ℕ → List ℕ → ℕ → ℕ → ℕ → Option (List ℕ)
nal_loop address bytes end zero nal_start = some []
nal_loop address bytes end (suc fuel) nal_start =
    let start = skip_zeros bytes end nal_start in
    let nal_end = ff_avc_find_startcode address bytes start end in
    let rest = nal_loop address bytes end fuel nal_end in
    if ltb nal_start end
    then (if ltb nal_end start then none else elim rest [
      | none ↦ none
      | some units ↦ some (
          word_bytes (bswap32 (nal_end - start))
          ++ (take (nal_end - start) (drop start bytes) ++ units))
    ])
    else some []

unfoldable pub ff_avc_parse_nal_units : ℕ → List ℕ → Option (List ℕ)
unfolding nal_loop skip_zeros ff_avc_find_startcode
ff_avc_parse_nal_units address bytes =
    nal_loop address bytes (length bytes) (length bytes)
      (ff_avc_find_startcode address bytes 0 (length bytes))

-- `AV_RB32`
unfoldable pub av_rb32 : List ℕ → ℕ → ℕ
av_rb32 bytes p =
    byte_at bytes p * 2 ^ 24
    + byte_at bytes (p + 1) * 2 ^ 16
    + byte_at bytes (p + 2) * 2 ^ 8
    + byte_at bytes (p + 3)

-- The bytes of the last SPS and of the last PPS of a buffer of units; `none` is the null pointer.
pub record ParameterSets : Type 0 where
  pub sps : Option (List ℕ)
  pub pps : Option (List ℕ)

parameter_sets_loop : List ℕ → ℕ → ℕ → ParameterSets → ParameterSets
parameter_sets_loop buf zero p sets = sets
parameter_sets_loop buf (suc fuel) p sets =
    let size = av_rb32 buf p in
    let nal_type = byte_at buf (p + 4) % 32 in
    let unit = take size (drop (p + 4) buf) in
    let sets' =
      if nal_type == 7
      then record sets { sps = some unit }
      else if nal_type == 8
      then record sets { pps = some unit }
      else sets in
    let rest = parameter_sets_loop buf fuel (p + size + 4) sets' in
    if ltb p (length buf) then rest else sets

unfoldable pub parameter_sets : List ℕ → ParameterSets
unfolding parameter_sets_loop av_rb32
parameter_sets buf = parameter_sets_loop buf (length buf) 0 (record { sps = none; pps = none })

-- The size of a set, 0 for the null pointer.
abbrev pub set_size : Option (List ℕ) → ℕ
set_size none = 0
set_size (some bytes) = length bytes

-- `FFIsomGetAvccSize`. A parse that leaves its buffer has no defined result: 0 stands for it.
unfoldable pub ff_isom_get_avcc_size : ℕ → List ℕ → ℕ
ff_isom_get_avcc_size address bytes =
    if ltb 6 (length bytes)
    then (if av_rb32 bytes 0 == 1
        then elim (ff_avc_parse_nal_units address bytes) [
          | none ↦ 0
          | some buf ↦
              let sets = parameter_sets buf in 6 + 2 + set_size sets.sps + 1 + 2 + set_size sets.pps
        ]
        else length bytes)
    else 0

-- The bytes of the record when both parameter sets are there.
abbrev pub avcc_record : List ℕ → List ℕ → Calls
avcc_record sps pps =
    put_byte 1
    ⨾ put_byte (byte_at sps 1)
    ⨾ put_byte (byte_at sps 2)
    ⨾ put_byte (byte_at sps 3)
    ⨾ put_byte 0xff
    ⨾ put_byte 0xe1
    ⨾ put_be16 (length sps)
    ⨾ put_buffer sps
    ⨾ put_byte 1
    ⨾ put_be16 (length pps)
    ⨾ put_buffer pps

-- `ff_isom_write_avcc`. Without an SPS it reads through a null pointer, which has no defined
-- result: no output stands for it. Without a PPS the put of no bytes does nothing.
unfoldable pub ff_isom_write_avcc : ℕ → List ℕ → Calls
ff_isom_write_avcc address bytes =
    if ltb 6 (length bytes)
    then (if av_rb32 bytes 0 == 1
        then elim (ff_avc_parse_nal_units address bytes) [
          | none ↦ []
          | some buf ↦
              let sets = parameter_sets buf in
              elim sets.sps [
                | none ↦ []
                | some sps ↦ elim sets.pps [
                  | none ↦ avcc_record sps []
                  | some pps ↦ avcc_record sps pps
                ]
              ]
        ]
        else put_buffer bytes)
    else []

unfoldable pub mov_get_avcc_tag_size : MovTrack → ℕ
mov_get_avcc_tag_size track = u32 (8 + ff_isom_get_avcc_size track.csd_address track.csd)

unfoldable pub mov_write_avcc_tag : MovTrack → Calls
mov_write_avcc_tag track =
    put_be32 (mov_get_avcc_tag_size track)
    ⨾ put_tag (codes "avcC")
    ⨾ ff_isom_write_avcc track.csd_address track.csd
