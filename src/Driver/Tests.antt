-- ===== src/Driver/Tests.antt =====
-- The theorems on the drivers at concrete calls.
use pluto_project.Base.{ℕ, ◌+◌, ◌≡◌, ◌<◌, refl, some, none, [], ◌∷◌, arith, ◌==◌, if◌then◌else◌}
use pluto_project.Mp4.{video, audio}
use pluto_project.Mp4.Packet.{Packet}
use pluto_project.Driver.{
  Files, MediaTrackInfo, set_track_info, set_cache_mode, set_cache_size, set_stream_fd, no_files,
  file_ioctrl, take_stream,
}
use pluto_project.Driver.Mp4.{
  Mp4Context, zero_codec, open_context, tiny_page_start, tiny_page_size, total_cache_size,
  mp4_muxer_write_header, mp4_make_writer, begin_movie, mp4_file_cmd, count_track, set_audio,
  on_codec, on_track, set_video_codec, set_video, mp4_muxer_ioctrl, mp4_set_track_info,
}
use pluto_project.Driver.Layout.{AreDisjoint, open_context_lem}
use pluto_project.Driver.Reached.{Reached}

-- Streams and writers that are only numbered.
abbrev pub numbered : Files
numbered = record {
  Stream = ℕ;
  Writer = ℕ;
  open_fd = λ fd. some fd;
  open_path = λ path. none;
  fallocate = λ n st. st;
  set_callback = λ cb st. st;
  cache_handle_create = λ mode st size. some size;
}

abbrev pub camera : MediaTrackInfo
camera = record {
  width = 1280;
  height = 720;
  frame_rate = 30;
  rotate_degree = 0;
  max_key_interval = 30;
  video_enc_type = 0;
  channel_cnt = 1;
  bit_width = 16;
  sample_rate = 8000;
  frame_size = 1024;
}

open_context_lem_example :
    ((open_context 0 (λ i. 0) (λ i. 0)).write_ptr 1 0
      ≡ (open_context 0 (λ i. 0) (λ i. 0)).start_ptr 1 0)
    × ((open_context 0 (λ i. 0) (λ i. 0)).start_ptr 1 0
        < (open_context 0 (λ i. 0) (λ i. 0)).end_ptr 1 0)
    × ((open_context 0 (λ i. 0) (λ i. 0)).end_ptr 1 0 < tiny_page_start)
    × (tiny_page_start + tiny_page_size ≡ total_cache_size)
    × AreDisjoint
        ((open_context 0 (λ i. 0) (λ i. 0)).start_ptr 1 0)
        ((open_context 0 (λ i. 0) (λ i. 0)).end_ptr 1 0)
        ((open_context 0 (λ i. 0) (λ i. 0)).start_ptr 1 1)
        ((open_context 0 (λ i. 0) (λ i. 0)).end_ptr 1 1)
open_context_lem_example =
    open_context_lem 0 (λ i. 0) (λ i. 0) 1 0 1 1 (omega arith, omega arith, omega arith)
      (omega arith, omega arith, omega arith) (λ same e. absurd (omega arith))

abbrev frame : Packet
frame = record { data0 = 0 ∷ 0 ∷ 0 ∷ 1 ∷ 0x65 ∷ []; data1 = []; stream_idx = some 0; duration = 33 }

abbrev new_mp4 : Mp4Context numbered
new_mp4 = record {
  fmt = record {
    streams = λ i. zero_codec (if i == 0 then video else audio);
    track_cnt = 0;
    mov = open_context 0 (λ i. 0) (λ i. 0);
  };
  keyframe_interval = 0;
  files = no_files numbered;
}

abbrev described : Mp4Context numbered
described = (mp4_muxer_ioctrl numbered (set_track_info (some camera)) new_mp4).1

abbrev moded : Mp4Context numbered
moded = (mp4_muxer_ioctrl numbered (set_cache_mode 1) described).1

abbrev sized : Mp4Context numbered
sized = (mp4_muxer_ioctrl numbered (set_cache_size 4096) moded).1

abbrev with_stream : Mp4Context numbered
with_stream = (mp4_muxer_ioctrl numbered (set_stream_fd 7) sized).1

-- The header has made the cache writer.
abbrev begun : Mp4Context numbered
begun = (mp4_muxer_write_header numbered with_stream).2

has_writer : begun.files.cache_writer ≡ some 4096
unfolding mp4_muxer_ioctrl mp4_set_track_info mp4_file_cmd file_ioctrl take_stream
    mp4_muxer_write_header mp4_make_writer begin_movie count_track set_audio on_codec on_track
    set_video_codec set_video
has_writer = refl

-- A movie that was just opened, with three packets: video, audio and video again.
abbrev sound : Packet
sound = record { data0 = 1 ∷ 2 ∷ []; data1 = 3 ∷ []; stream_idx = some 1; duration = 0 }
