-- ===== src/Driver/Mp4.antt =====
-- Mp4MuxerDrv.c: the driver of the MP4 muxer, from its opening to its packets.
use pluto_project.Base.{
  ℕ, ◌+◌, ◌-◌, ◌*◌, ◌/◌, Bool, true, false, Option, none, some, List, [], ◌==◌, ◌&&◌, not,
  if◌then◌else◌, update,
}
use pluto_project.Mp4.{
  CodecType, video, audio, Codec, MovTrack, MovContext, stco_id, stsz_id, stsc_id, stts_id,
  codec_id_h264, codec_id_mjpeg, codec_id_aac,
}
use pluto_project.Mp4.Put.{Calls}
use pluto_project.Mp4.Movie.{Op, FormatContext, mov_write_header}
use pluto_project.Mp4.Packet.{Packet, mov_write_packet}
use pluto_project.Driver.{
  Files, FileState, no_files, file_ioctrl, IoctrlCmd, MediaTrackInfo, set_track_info,
  set_total_time, set_fallocate_len, set_tfcard_state, set_cache_mode, set_cache_size,
  set_stream_callback, set_stream_fd, set_stream_filepath, unknown_cmd, cachemode_thread,
  cachemode_simple, venc_codec_h264, venc_codec_jpeg,
}

-- The sizes of the tables in memory, in words.
abbrev pub stco_cache_size : ℕ
stco_cache_size = 8 * 1024

abbrev pub stsz_cache_size : ℕ
stsz_cache_size = 8 * 1024 * 4

abbrev pub stts_cache_size : ℕ
stts_cache_size = stsz_cache_size

abbrev pub stsc_cache_size : ℕ
stsc_cache_size = stco_cache_size

abbrev pub tiny_page_size : ℕ
tiny_page_size = 1024 * 2

abbrev pub total_cache_size : ℕ
total_cache_size =
    stco_cache_size * 2
    + stsz_cache_size * 2
    + stsc_cache_size * 2
    + stts_cache_size
    + tiny_page_size

-- Where the table `id` of stream `k` starts, by its index in the memory. There is no table of durations
-- for audio: its pointers stay NULL, for which 0 stands.
unfoldable pub table_start : ℕ → ℕ → ℕ
table_start id k =
    if id == stco_id
    then (if k == 0 then 0 else stco_cache_size)
    else if id == stsz_id
    then stco_cache_size + stco_cache_size + (if k == 0 then 0 else stsz_cache_size)
    else if id == stsc_id
    then stco_cache_size
      + stco_cache_size
      + stsz_cache_size
      + stsz_cache_size
      + (if k == 0 then 0 else stsc_cache_size)
    else if id == stts_id && k == 0
    then stco_cache_size + stco_cache_size + stsz_cache_size + stsz_cache_size + stsc_cache_size
      + stsc_cache_size
    else 0

unfoldable pub table_size : ℕ → ℕ
table_size id =
    if id == stco_id
    then stco_cache_size
    else if id == stsz_id
    then stsz_cache_size
    else if id == stsc_id
    then stsc_cache_size
    else stts_cache_size

-- `cache_end_ptr`: the last word of each table.
unfoldable pub table_end : ℕ → ℕ → ℕ
table_end id k = if id == stts_id && not (k == 0) then 0 else table_start id k + (table_size id - 1)

-- `cache_tiny_page_ptr`
unfoldable pub tiny_page_start : ℕ
tiny_page_start = table_start stts_id 0 + stts_cache_size

abbrev pub zero_codec : CodecType → Codec
zero_codec t = record {
  width = 0;
  height = 0;
  codec_type = t;
  rotate_degree = 0;
  codec_tag = 0;
  codec_id = 0;
  channels = 0;
  frame_size = 0;
  frame_rate = 0;
  bits_per_sample = 0;
  sample_rate = 0;
}

abbrev zero_track : MovTrack
zero_track = record {
  timescale = 0;
  time = 0;
  track_duration = 0;
  track_id = 0;
  stream_type = 0;
  tag = 0;
  enc = zero_codec video;
  csd = [];
  csd_address = 0;
  stsz_size = 0;
  stco_size = 0;
  stsc_size = 0;
  stts_size = 0;
  stsz_tiny_pages = 0;
  stco_tiny_pages = 0;
  stsc_tiny_pages = 0;
  stts_tiny_pages = 0;
  key_frame_num = 0;
}

-- The context of `Mp4MuxerOpen` at a time of the clock, with what the memory held before.
unfoldable pub open_context : ℕ → (ℕ → ℕ) → (ℕ → ℕ) → MovContext
open_context raw_time words keyframes = record {
  create_time = raw_time + 0x7c25_b080;
  nb_streams = 0;
  mdat_pos = 0;
  mdat_start_pos = 0;
  mdat_size = 0;
  timescale = 0;
  geo_available = false;
  latitude = record { negative = false; magnitude = 0 };
  longitude = record { negative = false; magnitude = 0 };
  tracks = λ i. zero_track;
  words = words;
  start_ptr = table_start;
  end_ptr = table_end;
  write_ptr = table_start;
  read_ptr = table_start;
  cached = λ id k. 0;
  keyframes = keyframes;
  stsc_cnt = 0;
  last_stream_idx = none;
  free_pos = 0;
  title_info = [];
}

-- `AVFormatContext` of Mp4Muxer.h with the context at its `priv_data`.
pub record Mp4Context (f : Files) : Type 0 where
  pub fmt : FormatContext
  pub keyframe_interval : ℕ
  pub files : FileState f

module _ (f : Files) where
  -- `Mp4MuxerOpen`: the first three arguments say whether the context, the movie and the tables could be
  -- allocated. The memory of the streams is not modelled to fail.
  unfoldable pub mp4_muxer_open : Bool → Bool → Bool → ℕ → (ℕ → ℕ) → (ℕ → ℕ) → Option (Mp4Context f)
  mp4_muxer_open context_ok movie_ok tables_ok raw_time words keyframes =
      if context_ok && (movie_ok && tables_ok)
      then some (record {
        fmt = record {
          streams = λ i. zero_codec (if i == 0 then video else audio);
          track_cnt = 0;
          mov = open_context raw_time words keyframes;
        };
        keyframe_interval = 0;
        files = no_files f;
      })
      else none

  -- One track of the movie changes.
  unfoldable pub on_track : ℕ → (MovTrack → MovTrack) → Mp4Context f → Mp4Context f
  on_track k change s = record s {
    fmt = record (s.fmt) {
      mov = record (s.fmt.mov) { tracks = update s.fmt.mov.tracks k (change (s.fmt.mov.tracks k)) };
    };
  }

  unfoldable pub on_codec : ℕ → (Codec → Codec) → Mp4Context f → Mp4Context f
  on_codec k change s = record s {
    fmt = record (s.fmt) { streams = update s.fmt.streams k (change (s.fmt.streams k)) };
  }

  -- The parameter sets of stream `idx`, copied to memory that `malloc` gave at `address`.
  unfoldable pub mp4_muxer_write_csd : ℕ → List ℕ → ℕ → Mp4Context f → Mp4Context f
  mp4_muxer_write_csd address csd idx =
      on_track idx (λ t. record t { csd = csd; csd_address = address })

  unfoldable pub count_track : Mp4Context f → Mp4Context f
  count_track s = record s { fmt = record (s.fmt) { track_cnt = s.fmt.track_cnt + 1 } }

  unfoldable pub set_video : MediaTrackInfo → Mp4Context f → Mp4Context f
  set_video info s =
      on_track 0 (λ t. record t { timescale = 1000 })
        (on_codec 0
          (λ c. record c {
            width = info.width;
            height = info.height;
            frame_rate = info.frame_rate;
            rotate_degree = info.rotate_degree;
          })
          (record s { keyframe_interval = info.max_key_interval }))

  unfoldable pub set_video_codec : ℕ → Mp4Context f → Mp4Context f
  set_video_codec id = on_codec 0 (λ c. record c { codec_id = id })

  unfoldable pub set_audio : MediaTrackInfo → Mp4Context f → Mp4Context f
  set_audio info s =
      on_codec 1 (λ c. record c { codec_id = codec_id_aac })
        (on_track 1 (λ t. record t { timescale = info.sample_rate })
          (on_codec 1
            (λ c. record c {
              channels = info.channel_cnt;
              bits_per_sample = info.bit_width;
              sample_rate = info.sample_rate;
              frame_size = info.frame_size;
            })
            s))

  -- `SET_TRACK_INFO`: the video track, which has to be H.264 or JPEG, then the audio track.
  unfoldable pub mp4_set_track_info : Option MediaTrackInfo → Mp4Context f → Bool × Mp4Context f
  mp4_set_track_info none s = (false, s)
  mp4_set_track_info (some info) s =
      let s1 = set_video info s in
      if info.video_enc_type == venc_codec_h264
      then (true, count_track (set_audio info (count_track (set_video_codec codec_id_h264 s1))))
      else if info.video_enc_type == venc_codec_jpeg
      then (true, count_track (set_audio info (count_track (set_video_codec codec_id_mjpeg s1))))
      else (false, s1)

  -- `SET_TOTAL_TIME`, in milliseconds.
  unfoldable pub mp4_set_total_time : ℕ → Mp4Context f → Mp4Context f
  mp4_set_total_time ms s =
      on_track 1 (λ t. record t { track_duration = ms * t.timescale / 1000 })
        (on_track 0 (λ t. record t { track_duration = ms * t.timescale / 1000 }) s)

  unfoldable pub mp4_file_cmd : IoctrlCmd → Mp4Context f → Bool × Mp4Context f
  mp4_file_cmd cmd s =
      let (done, files) = file_ioctrl f cmd s.files in (done, record s { files = files })

  unfoldable pub mp4_muxer_ioctrl : IoctrlCmd → Mp4Context f → Bool × Mp4Context f
  mp4_muxer_ioctrl (set_track_info info) s = mp4_set_track_info info s
  mp4_muxer_ioctrl (set_total_time t) s = (true, mp4_set_total_time t s)
  mp4_muxer_ioctrl (set_fallocate_len n) s = mp4_file_cmd (set_fallocate_len n) s
  mp4_muxer_ioctrl (set_tfcard_state n) s = mp4_file_cmd (set_tfcard_state n) s
  mp4_muxer_ioctrl (set_cache_mode n) s = mp4_file_cmd (set_cache_mode n) s
  mp4_muxer_ioctrl (set_cache_size n) s = mp4_file_cmd (set_cache_size n) s
  mp4_muxer_ioctrl (set_stream_callback cb) s = mp4_file_cmd (set_stream_callback cb) s
  mp4_muxer_ioctrl (set_stream_fd fd) s = mp4_file_cmd (set_stream_fd fd) s
  mp4_muxer_ioctrl (set_stream_filepath path) s = mp4_file_cmd (set_stream_filepath path) s
  mp4_muxer_ioctrl unknown_cmd s = (true, s)

  -- `mov_write_header`, once the cache writer is there.
  unfoldable pub begin_movie : Mp4Context f → Bool × List Op × Mp4Context f
  begin_movie s =
      let (ops, mov) = mov_write_header s.fmt in
      (true, ops, record s { fmt = record (s.fmt) { mov = mov } })

  -- The writer that `Mp4MuxerWriteHeader` makes for a stream: none in the thread mode, which is not
  -- supported, nor in an unknown one.
  unfoldable pub mp4_make_writer : f.Stream → Mp4Context f → Option f.Writer
  mp4_make_writer st s =
      if s.files.cache_mode == cachemode_thread
      then none
      else if s.files.cache_mode == cachemode_simple
      then f.cache_handle_create s.files.cache_mode st s.files.cache_simple_size
      else none

  -- `Mp4MuxerWriteHeader`
  unfoldable pub mp4_muxer_write_header : Mp4Context f → Bool × List Op × Mp4Context f
  mp4_muxer_write_header s = elim s.files.cache_writer [
    | some w ↦ (false, [], s)
    | none ↦ elim s.files.stream [
      | none ↦ begin_movie s
      | some st ↦ elim (mp4_make_writer st s) [
        | none ↦ (false, [], s)
        | some w ↦ begin_movie (record s { files = record (s.files) { cache_writer = some w } })
      ]
    ]
  ]

  -- `Mp4MuxerWritePacket`, with the test for a cache writer that `mov_write_packet` begins with.
  unfoldable pub mp4_muxer_write_packet : Packet → Mp4Context f → Bool × Calls × Mp4Context f
  mp4_muxer_write_packet pkt s =
      let (done, calls, mov) = mov_write_packet s.fmt pkt in
      elim s.files.cache_writer [
        | none ↦ (false, [], s)
        | some w ↦ (done, calls, record s { fmt = record (s.fmt) { mov = mov } })
      ]
