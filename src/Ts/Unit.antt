-- ===== src/Ts/Unit.antt =====
-- A frame as TS packets: `write_av_ts_packet`, `write_access_unit` and `mpeg2ts_write_packet` of
-- Mpeg2tsMuxer.c. `none` stands for a failed `assert`, for a read through a NULL pointer, and for a
-- size that is negative: what the code does after these, and what it has written before, is not
-- followed.
pub mod Fragments
pub mod Access
pub mod Pts
pub mod Adts
pub mod Counters
use pluto_project.Base.{
  ℕ, zero, suc, ◌+◌, ◌-◌, ◌*◌, ◌/◌, ◌%◌, ◌^◌, Bool, true, false, Option, none, some, List, [], ◌∷◌,
  ◌++◌, bit_and, bit_or, u32, ltb, leb, ◌==◌, ◌&&◌, if◌then◌else◌, ◌>>=◌, length, get_or, take,
  replicate, update,
}
use pluto_project.Base.Calls.{Calls, size_of}
use pluto_project.Ts.{
  AvFormatContext, AvPacket, Memory, read, ts_package_sz, video_stream_idx, audio_stream_idx,
  count_up,
}
use pluto_project.Ts.Psi.{write_program_association_table, write_program_map_table}

-- `*pStreamLeftSize` and `*pStreamPtr`.
pub record Cursor : Type 0 where
  pub left : ℕ
  pub ptr : ℕ

unfoldable pub write_av_ts_packet : Memory → AvPacket → ℕ → Cursor → Option (Calls × Cursor)
write_av_ts_packet mem pkt size at =
    let in_data0 = leb pkt.data0 at.ptr && ltb at.ptr (pkt.data0 + pkt.size0) in
    let block_end = if in_data0 then pkt.data0 + pkt.size0 else pkt.data1 + pkt.size1 in
    let block_left = block_end - at.ptr in
    if leb size at.left
    then (if leb (at.ptr + size) block_end
        then some (read mem at.ptr size ∷ [], record { left = at.left - size; ptr = at.ptr + size })
        else if in_data0
        then some (
          read mem at.ptr block_left ∷ read mem pkt.data1 (size - block_left) ∷ [],
          record { left = at.left - size; ptr = pkt.data1 + (size - block_left) },
        )
        else none)
    else none

abbrev pub nal_aud : List ℕ
nal_aud = 0 ∷ 0 ∷ 0 ∷ 1 ∷ 0x09 ∷ 0xf0 ∷ []

unfoldable pub stream_size : AvFormatContext → AvPacket → ℕ
stream_size ctx pkt =
    if pkt.stream_idx == video_stream_idx
    then (if pkt.flags == 0
        then u32 (pkt.size0 + pkt.size1 + length nal_aud)
        else u32 (pkt.size0 + pkt.size1 + length nal_aud + length (ctx.track_csd video_stream_idx)))
    else u32 (pkt.size0 + pkt.size1 + 7)

-- `PTS`, an `unsigned int`.
unfoldable pub pts_of : AvPacket → ℕ
pts_of pkt = u32 (pkt.pts * 1000 * 9 / 100)

-- The last five bytes of the PES header.
unfoldable pub pts_bytes : ℕ → List ℕ
pts_bytes pts =
    bit_or (bit_or 0x20 (bit_and (pts / 2 ^ 30) 7 * 2)) 1
    ∷ bit_and (pts / 2 ^ 22) 0xff
    ∷ bit_or (bit_and (pts / 2 ^ 15) 0x7f * 2) 1
    ∷ bit_and (pts / 2 ^ 7) 0xff
    ∷ bit_or (bit_and pts 0x7f * 2) 1
    ∷ []

unfoldable pub pes_header : AvFormatContext → AvPacket → List ℕ
pes_header ctx pkt =
    let stream_id = if pkt.stream_idx == video_stream_idx then 0xe0 else 0xc0 in
    let size = u32 (stream_size ctx pkt + 8) in
    let pes_packet_length = if leb 65535 size then 0 else size in
    0x00
    ∷ 0x00
    ∷ 0x01
    ∷ stream_id
    ∷ pes_packet_length / 2 ^ 8 % 256
    ∷ bit_and pes_packet_length 0xff
    ∷ 0x84
    ∷ 0x80
    ∷ 0x05
    ∷ pts_bytes (pts_of pkt)

unfoldable pub padding_size : AvFormatContext → AvPacket → ℕ
padding_size ctx pkt =
    if ltb (stream_size ctx pkt) (ts_package_sz - 18 - 8) then ts_package_sz - 18 - 8 else 0

-- The four bytes of the common header and the eight of the adaptation field.
unfoldable pub adaptation_header : ℕ → ℕ → ℕ → ℕ → List ℕ
adaptation_header pcr pid counter padding =
    let pcr_low = pcr % 300 in
    let pcr_high = pcr / 300 in
    0x47
    ∷ bit_or 0x40 (pid / 2 ^ 8) % 256
    ∷ bit_and pid 0xff
    ∷ bit_or 0x30 counter % 256
    ∷ (padding + 7) % 256
    ∷ 0x10
    ∷ pcr_high / 2 ^ 25 % 256
    ∷ pcr_high / 2 ^ 17 % 256
    ∷ pcr_high / 2 ^ 9 % 256
    ∷ pcr_high / 2 % 256
    ∷ bit_or (bit_or (pcr_high * 2 ^ 7) (pcr_low / 2 ^ 8)) 0x7e % 256
    ∷ pcr_low % 256
    ∷ []

-- The ADTS header of an audio frame of `size` bytes, from the two bytes of its configuration. It is
-- written only where there are two: see `lacks_config`.
unfoldable pub adts_header : List ℕ → ℕ → List ℕ
adts_header csd size =
    let profile = u32 (get_or csd 0 0 / 2 ^ 3 + (2 ^ 32 - 1)) in
    let sampling_freq_index = bit_or (bit_and (get_or csd 0 0) 7 * 2) (get_or csd 1 0 / 2 ^ 7) in
    let channel_configuration = bit_and (get_or csd 1 0 / 2 ^ 3) 0x0f in
    0xff
    ∷ 0xf1
    ∷ bit_or (bit_or (u32 (profile * 2 ^ 6)) (sampling_freq_index * 2 ^ 2))
        (bit_and (channel_configuration / 2 ^ 2) 1)
      % 256
    ∷ bit_or (bit_and channel_configuration 3 * 2 ^ 6) (size / 2 ^ 11) % 256
    ∷ bit_and (size / 2 ^ 3) 0xff
    ∷ bit_and size 7 * 2 ^ 5
    ∷ 0
    ∷ []

-- An audio frame without the two bytes of configuration, which the code reads through a NULL pointer
-- or behind the end of the block.
unfoldable pub lacks_config : AvFormatContext → AvPacket → Bool
lacks_config ctx pkt =
    if pkt.stream_idx == video_stream_idx
    then false
    else ltb (length (ctx.track_csd audio_stream_idx)) 2

-- What comes before the data of the frame.
unfoldable pub stream_head : AvFormatContext → AvPacket → Calls
stream_head ctx pkt =
    if pkt.stream_idx == video_stream_idx
    then nal_aud ∷ (if pkt.flags == 0 then [] else ctx.track_csd video_stream_idx ∷ [])
    else adts_header (ctx.track_csd audio_stream_idx) (stream_size ctx pkt) ∷ []

-- The header of a packet after the first, which an adaptation field pads if it is the last one.
unfoldable pub fragment_header : ℕ → ℕ → ℕ → List ℕ
fragment_header pid counter left =
    let last = ltb left (ts_package_sz - 4) in
    let head =
      0x47
      ∷ pid / 2 ^ 8 % 256
      ∷ bit_and pid 0xff
      ∷ bit_or (if last then 0x30 else 0x10) counter % 256
      ∷ [] in
    let padding = ts_package_sz - 4 - left in
    if last
    then take (padding + 4)
        (head ++ (padding - 1) ∷ (if leb 2 padding then 0 else 0xff) ∷ replicate 182 0xff)
    else head

-- The `while` loop, on fuel: its calls and the counter that it leaves.
unfoldable pub write_fragments : ℕ → Memory → AvPacket → ℕ → ℕ → Cursor → Option (Calls × ℕ)
write_fragments zero mem pkt pid counter at = none
write_fragments (suc fuel) mem pkt pid counter at =
    let size = if ltb at.left (ts_package_sz - 4) then at.left else ts_package_sz - 4 in
    let next = (do
      (out, at') ← write_av_ts_packet mem pkt size at
      (more, counter') ←
          write_fragments fuel mem pkt pid (if leb 0x0f counter then 0 else counter + 1) at'
      some (fragment_header pid counter at.left ∷ out ++ more, counter')) in
    if at.left == 0 then some ([], counter) else next

-- `pcr_of` gives the clock reference of a time: the product of `float` numbers that the code takes.
module _ (pcr_of : ℕ → ℕ) where
  unfoldable pub write_access_unit :
      Memory → AvPacket → AvFormatContext → Option (Calls × AvFormatContext)
  write_access_unit mem pkt ctx =
      let pid = ctx.track_pid pkt.stream_idx in
      let counter = ctx.ts_continuity_counter pkt.stream_idx in
      let padding = padding_size ctx pkt in
      let header =
        adaptation_header (pcr_of pkt.pts) pid counter padding
        ++ replicate padding 0xff
        ++ pes_header ctx pkt in
      let head = stream_head ctx pkt in
      let used = length header + size_of head in
      let left = pkt.size0 + pkt.size1 in
      let unit = (do
        (out, at) ←
            write_av_ts_packet mem pkt (ts_package_sz - used)
              (record { left = left; ptr = pkt.data0 })
        (more, counter') ← write_fragments (suc left) mem pkt pid (count_up counter) at
        some (
          header ∷ head ++ out ++ more,
          record ctx {
            ts_continuity_counter = update ctx.ts_continuity_counter pkt.stream_idx counter';
          },
        )) in
      if ltb audio_stream_idx pkt.stream_idx
      then none
      else if lacks_config ctx pkt
      then none
      else if ltb ts_package_sz used
      then none
      else unit

  unfoldable pub mpeg2ts_write_packet :
      Memory → AvPacket → AvFormatContext → Option (Calls × AvFormatContext)
  mpeg2ts_write_packet mem pkt ctx =
      if pkt.stream_idx == video_stream_idx
      then (let (pat, ctx1) = write_program_association_table ctx in
          let (pmt, ctx2) = write_program_map_table ctx1 in
          (do (out, ctx3) ← write_access_unit mem pkt ctx2; some (pat ++ pmt ++ out, ctx3)))
      else if pkt.stream_idx == audio_stream_idx
      then write_access_unit mem pkt ctx
      else some ([], ctx)
