-- ===== src/Mp4/Packet.antt =====
-- Packets in Mp4Muxer.c: `mov_write_packet`, which puts the data into `mdat` and keeps the sample
-- tables, and `mov_write_trailer`.
use pluto_project.Base.{
  ℕ, ◌+◌, ◌-◌, ◌%◌, ◌^◌, Bool, true, false, Option, none, some, List, [], ◌∷◌, ◌++◌, u32, ltb, leb,
  ◌==◌, if◌then◌else◌, length, get_or, drop,
}
use pluto_project.Stream.{seek_set, seek_end}
use pluto_project.Mp4.{
  MovTrack, MovContext, update, update₂, stco_id, stsz_id, stsc_id, stts_id, codec_id_h264,
}
use pluto_project.Mp4.Put.{Calls, ◌⨾◌, bswap32, word_bytes, put_buffer, put_be32}
use pluto_project.Mp4.Movie.{Op, write, seek, flush, FormatContext, mov_write_moov_tag}

-- `AVPacket`: two pieces of data, the stream (`none` for -1) and the duration.
pub record Packet : Type 0 where
  pub data0 : List ℕ
  pub data1 : List ℕ
  pub stream_idx : Option ℕ
  pub duration : ℕ

-- `*mov->cache_write_ptr[id][k]++ = v`
unfoldable pub store : ℕ → ℕ → ℕ → MovContext → MovContext
store id k v mov = record mov {
  words = update mov.words (mov.write_ptr id k) v;
  write_ptr = update₂ mov.write_ptr id k (mov.write_ptr id k + 1);
}

-- A write pointer behind its end goes back to the start.
unfoldable pub wrap : ℕ → ℕ → MovContext → MovContext
wrap id k mov =
    if ltb (mov.end_ptr id k) (mov.write_ptr id k)
    then record mov { write_ptr = update₂ mov.write_ptr id k (mov.start_ptr id k) }
    else mov

-- One more entry in `stco_cache_size[k]` and its kin.
unfoldable pub count_cached : ℕ → ℕ → MovContext → MovContext
count_cached id k mov = record mov { cached = update₂ mov.cached id k (mov.cached id k + 1) }

unfoldable pub with_track : ℕ → (MovTrack → MovTrack) → MovContext → MovContext
with_track k f mov = record mov { tracks = update mov.tracks k (f (mov.tracks k)) }

abbrev pub one_more_stco : MovTrack → MovTrack
one_more_stco t = record t { stco_size = u32 (t.stco_size + 1) }

abbrev pub one_more_stsc : MovTrack → MovTrack
one_more_stsc t = record t { stsc_size = u32 (t.stsc_size + 1) }

abbrev pub one_more_stsz : MovTrack → MovTrack
one_more_stsz t = record t { stsz_size = u32 (t.stsz_size + 1) }

abbrev pub one_more_stts : MovTrack → MovTrack
one_more_stts t = record t { stts_size = u32 (t.stts_size + 1) }

abbrev pub one_more_keyframe : MovTrack → MovTrack
one_more_keyframe t = record t { key_frame_num = u32 (t.key_frame_num + 1) }

-- The chunk of stream `j` ends with `stsc_cnt` samples in it.
unfoldable pub close_chunk : ℕ → MovContext → MovContext
close_chunk j mov = with_track j one_more_stsc (store stsc_id j mov.stsc_cnt mov)

-- A packet of stream `k` follows one of another stream, or is the first: a new chunk begins at the
-- end of the data, and the chunk before it ends.
unfoldable pub new_chunk : ℕ → MovContext → MovContext
new_chunk k mov =
    let mov1 = count_cached stco_id k (
      with_track k one_more_stco
        (store stco_id k (u32 (mov.mdat_size + mov.mdat_start_pos)) mov)) in
    let mov2 : MovContext = elim mov.last_stream_idx [
      | some j ↦ wrap stsc_id j (count_cached stsc_id j (close_chunk j mov1))
      | none ↦ mov1
    ] in
    wrap stco_id k (record mov2 { stsc_cnt = 0 })

-- The size of the sample goes into `stsz`.
unfoldable pub add_sample : ℕ → ℕ → MovContext → MovContext
add_sample k size mov =
    let mov1 = store stsz_id k size (record mov { last_stream_idx = some k }) in
    let mov2 = count_cached stsz_id k (with_track k one_more_stsz mov1) in
    wrap stsz_id k (record mov2 { stsc_cnt = mov2.stsc_cnt + 1 })

-- The duration of a video sample goes into `stts`.
unfoldable pub add_duration : ℕ → MovContext → MovContext
add_duration duration mov =
    wrap stts_id 0
      (count_cached stts_id 0 (with_track 0 one_more_stts (store stts_id 0 duration mov)))

-- The byte behind the start code: the head of the NAL unit.
unfoldable pub nal_head : Packet → ℕ
nal_head pkt =
    if leb 5 (length pkt.data0)
    then get_or pkt.data0 4 0
    else if ltb 0 (length pkt.data0)
    then get_or pkt.data1 (4 - length pkt.data0) 0
    else 0

-- A sample of an IDR slice is entered as a key frame, under its number from 1.
unfoldable pub note_keyframe : ℕ → MovContext → MovContext
note_keyframe head mov =
    if head % 32 == 5
    then with_track 0 one_more_keyframe (record mov {
      keyframes = update mov.keyframes (mov.tracks 0).key_frame_num (mov.tracks 0).stts_size;
    })
    else mov

-- The data of a packet as it stands.
unfoldable pub plain_data : Packet → Calls
plain_data pkt =
    (if length pkt.data0 == 0 then [] else put_buffer pkt.data0)
    ⨾ (if length pkt.data1 == 0 then [] else put_buffer pkt.data1)

-- The data of a packet whose start code of four bytes gives way to the size of what follows. With
-- four bytes or less in `data0` the rest of the start code is skipped in `data1`; a `data1` that is
-- shorter than that has no defined result.
unfoldable pub sized_data : Packet → Calls
sized_data pkt =
    let size = length pkt.data0 + length pkt.data1 in
    if length pkt.data0 == 0
    then plain_data pkt
    else if leb (length pkt.data0) 4
    then (put_buffer (word_bytes (bswap32 (u32 (size + 2 ^ 32 - 4))))
        ⨾ (if length pkt.data1 == 0
            then []
            else put_buffer (drop (4 - length pkt.data0) pkt.data1)))
    else (put_buffer (word_bytes (bswap32 (u32 (size + 2 ^ 32 - 4))))
        ⨾ put_buffer (drop 4 pkt.data0)
        ⨾ (if length pkt.data1 == 0 then [] else put_buffer pkt.data1))

-- `mov->mdat_size += size` and the data.
unfoldable pub add_data : ℕ → Calls → MovContext → Bool × Calls × MovContext
add_data size calls mov = (true, calls, record mov { mdat_size = mov.mdat_size + size })

-- A packet of another stream than the one before it begins a chunk.
unfoldable pub enter_chunk : ℕ → MovContext → MovContext
enter_chunk k mov = elim mov.last_stream_idx [
  | some j ↦ if k == j then mov else new_chunk k mov
  | none ↦ new_chunk k mov
]

-- A frame of stream 0, which has to be H.264: its duration, its key frame and its data.
unfoldable pub add_frame : FormatContext → Packet → ℕ → MovContext → Bool × Calls × MovContext
add_frame s pkt size mov =
    let mov1 = add_duration pkt.duration mov in
    if (s.streams 0).codec_id == codec_id_h264
    then add_data size (if size == 0 then plain_data pkt else sized_data pkt)
        (note_keyframe (nal_head pkt) mov1)
    else (false, [], mov1)

-- A packet of stream `k`.
unfoldable pub add_packet : FormatContext → Packet → ℕ → Bool × Calls × MovContext
add_packet s pkt k =
    let size = length pkt.data0 + length pkt.data1 in
    let mov = add_sample k size (enter_chunk k s.mov) in
    if k == 0 then add_frame s pkt size mov else add_data size (plain_data pkt) mov

-- The packet of stream -1 at the end. Without a packet before it the source uses the index -1 of
-- an array, which has no defined result: nothing done stands for it.
unfoldable pub end_packets : MovContext → Bool × Calls × MovContext
end_packets mov = elim mov.last_stream_idx [
  | none ↦ (true, [], mov)
  | some j ↦ (true, [], close_chunk j mov)
]

-- `mov_write_packet`: whether it returns 0, its output and the context. The test for a cache writer at
-- its begin is in `mp4_muxer_write_packet`, where it is known whether there is one.
unfoldable pub mov_write_packet : FormatContext → Packet → Bool × Calls × MovContext
mov_write_packet s pkt = elim pkt.stream_idx [
  | none ↦ end_packets s.mov
  | some k ↦ add_packet s pkt k
]

abbrev pub last_packet : Packet
last_packet = record { data0 = []; data1 = []; stream_idx = none; duration = 0 }

-- `mov_write_trailer` up to the query of the position, which is the size of the file.
unfoldable pub mov_write_trailer : List ℕ → FormatContext → List Op × MovContext
mov_write_trailer date s =
    let (done, calls, mov1) = mov_write_packet s last_packet in
    let (moov_size, moov, mov2) = mov_write_moov_tag date mov1 in
    (
      moov
          ++ (seek mov2.mdat_pos seek_set
              ∷ write (put_be32 (mov2.mdat_size + 8))
              ∷ flush
              ∷ seek 0 seek_end
              ∷ []),
      mov2,
    )
