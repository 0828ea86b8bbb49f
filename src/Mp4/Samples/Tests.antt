-- ===== src/Mp4/Samples/Tests.antt =====
-- Packets of Mp4Muxer.c at concrete inputs, and the theorems on them applied there.
use pluto_project.Base.{
  ◌+◌, ◌^◌, ◌<◌, ◌≡◌, refl, true, none, some, inr, [], ◌∷◌, ◌++◌, arith, length, drop, u32,
}
use pluto_project.Cache.Transparent.{flatten}
use pluto_project.Mp4.Put.{Calls, ◌⨾◌, size_of, codes, be32, put_be32, put_tag}
use pluto_project.Mp4.Avc.{av_rb32}
use pluto_project.Base.{List}
use pluto_project.Stream.{seek_set, seek_end}
use pluto_project.Mp4.Movie.{FormatContext, Op, write, seek, flush}
use pluto_project.Mp4.Samples.Trailer.{mov_write_trailer-mdat_size}
use pluto_project.Mp4.Packet.{
  add_packet, add_frame, add_data, add_sample, enter_chunk, new_chunk, close_chunk, count_cached,
  with_track, store, wrap, add_duration, note_keyframe, nal_head, Packet, mov_write_packet,
  mov_write_trailer, sized_data, last_packet,
}
use pluto_project.Mp4.Samples.Data.{write_packets, mov_write_packet-mdat_size, sized_data_lem}
use pluto_project.Mp4.Samples.Chunks.{HasChunks, mov_write_packet-HasChunks, stsc_size-stco_size}
use pluto_project.Mp4.Tests.{h264, sound, movie}

-- A file of two packets: a frame behind a start code, and sound.
abbrev session : FormatContext
session = record { streams = λ i. h264; track_cnt = 2; mov = movie }

abbrev frame : Packet
frame = record {
  data0 = 0 ∷ 0 ∷ 0 ∷ 1 ∷ 0x65 ∷ [];
  data1 = 9 ∷ 8 ∷ [];
  stream_idx = some 0;
  duration = 40;
}

abbrev tone : Packet
tone = record { data0 = 5 ∷ 6 ∷ 7 ∷ 8 ∷ []; data1 = []; stream_idx = some 1; duration = 0 }

both_taken : (write_packets session (frame ∷ tone ∷ [])).0 ≡ true
unfolding write_packets mov_write_packet add_packet add_frame add_data
both_taken = refl

both_small : (write_packets session (frame ∷ tone ∷ [])).2.mdat_size + 8 < 2 ^ 32
unfolding write_packets mov_write_packet add_packet add_frame add_data add_sample enter_chunk
    new_chunk close_chunk count_cached with_track store wrap add_duration note_keyframe nal_head
both_small = omega arith

-- The movie after both packets.
abbrev sent : FormatContext
sent = record session { mov = (write_packets session (frame ∷ tone ∷ [])).2 }

mov_write_trailer-mdat_size_example :
    (moov : List Op) × (size : Calls) × ((mov_write_trailer (codes "1-2-2026") sent).0
      ≡ moov ++ (seek sent.mov.mdat_pos seek_set ∷ write size ∷ flush ∷ seek 0 seek_end ∷ []))
    × (av_rb32 (flatten size) 0
        ≡ size_of
            (put_be32 0 ⨾ put_tag (codes "mdat") ⨾ (write_packets session (frame ∷ tone ∷ [])).1))
mov_write_trailer-mdat_size_example =
    mov_write_trailer-mdat_size (codes "1-2-2026") session (frame ∷ tone ∷ []) refl
      (λ e. inr (omega arith), (λ e. inr (omega arith), tt)) both_taken both_small

frame_taken : (mov_write_packet session frame).0 ≡ true
unfolding mov_write_packet add_packet add_frame add_data
frame_taken = refl

mov_write_packet-mdat_size_example :
    (mov_write_packet session frame).2.mdat_size
    ≡ movie.mdat_size + size_of (mov_write_packet session frame).1
mov_write_packet-mdat_size_example =
    mov_write_packet-mdat_size session frame (λ e. inr (omega arith)) frame_taken

sized_data_lem_example :
    (flatten (sized_data frame) ≡ be32 3 ++ drop 4 (frame.data0 ++ frame.data1))
    × (av_rb32 (be32 3) 0 ≡ length (drop 4 (frame.data0 ++ frame.data1)))
sized_data_lem_example = sized_data_lem frame (omega arith) (omega arith) (omega arith)

movie-HasChunks : HasChunks none movie.tracks
movie-HasChunks i = refl

mov_write_packet-HasChunks_example :
    ((mov_write_packet session frame).2.last_stream_idx ≡ some 0)
    × HasChunks (some 0) (mov_write_packet session frame).2.tracks
mov_write_packet-HasChunks_example = mov_write_packet-HasChunks session frame 0 refl movie-HasChunks

stsc_size-stco_size_example :
    let ended =
      (mov_write_packet
        (record session { mov = (write_packets session (frame ∷ tone ∷ [])).2 })
        last_packet).2 in
    (ended.tracks 1).stco_size ≡ u32 (ended.tracks 1).stsc_size
stsc_size-stco_size_example =
    stsc_size-stco_size session (frame ∷ tone ∷ []) 1 ((0, refl), ((1, refl), tt)) movie-HasChunks

-- Before the first packet there is neither a sample nor a duration.
abbrev empty_session : FormatContext
empty_session = record session {
  mov = record movie { tracks = λ i. record sound { stsz_size = 0; stco_size = 0; stsc_size = 0 } };
}
