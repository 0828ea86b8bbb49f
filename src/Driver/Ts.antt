-- ===== src/Driver/Ts.antt =====
-- Mpeg2tsMuxerDrv.c: the driver of the MPEG-2 TS muxer.
pub mod Sound
pub mod Reached
pub mod Header
pub mod File
mod Tests
use pluto_project.Base.{
  ℕ, ◌+◌, ◌^◌, ◌≤◌, ◌<◌, ◌≡◌, ◌≢◌, refl, inl, inr, sym, Bool, true, false, Option, none, some, List,
  [], ◌∷◌, arith, ◌==◌, not, ◌||◌, ◌&&◌, if◌then◌else◌, update, Bool-cases, Ends,
}
use pluto_project.Base.Calls.{Calls}
use pluto_project.Base.Int.{ℤ, negsuc, int_of}
use pluto_project.Stream.{seek_end}
use pluto_project.Writer.{FsCacheWriter}
use pluto_project.Ts.{AvFormatContext, AvPacket, Memory}
use pluto_project.Ts.Crc.{init_crc_table}
use pluto_project.Ts.Unit.{mpeg2ts_write_packet}
use pluto_project.Driver.{
  Files, FileState, no_files, file_ioctrl, IoctrlCmd, MediaTrackInfo, set_track_info,
  set_total_time, set_fallocate_len, set_tfcard_state, set_cache_mode, set_cache_size,
  set_stream_callback, set_stream_fd, set_stream_filepath, unknown_cmd, cachemode_thread,
  cachemode_simple, venc_codec_h264,
}

-- `AVFormatContext` of Mpeg2tsMuxer.h: the parameters, the files, and what the packets are made of.
pub record TsContext (f : Files) : Type 0 where
  pub info : MediaTrackInfo
  pub track_duration : ℕ
  pub files : FileState f
  pub mux : AvFormatContext

-- `memset(context, 0, sizeof(AVFormatContext))`
abbrev pub no_info : MediaTrackInfo
no_info = record {
  width = 0;
  height = 0;
  frame_rate = 0;
  rotate_degree = 0;
  max_key_interval = 0;
  video_enc_type = 0;
  channel_cnt = 0;
  bit_width = 0;
  sample_rate = 0;
  frame_size = 0;
}

abbrev pub zero_context : AvFormatContext
zero_context = record {
  pat_continuity_counter = 0;
  pmt_continuity_counter = 0;
  ts_continuity_counter = λ i. 0;
  crc_table = [];
  track_pid = λ i. 0;
  track_csd = λ i. [];
  track_cnt = 0;
}

-- The PIDs of the streams: 0x1E1 for video, and 0x1E2 for audio or none.
unfoldable pub header_pids : Bool → ℕ → ℕ
header_pids audio i = if i == 0 then 0x1E1 else if audio then 0x1E2 else 0

module _ (f : Files) where
  unfoldable pub mpeg2ts_muxer_open : Bool → Option (TsContext f)
  mpeg2ts_muxer_open allocated =
      if allocated
      then some
          (record { info = no_info; track_duration = 0; files = no_files f; mux = zero_context })
      else none

  -- The parameter sets of stream `idx`. The memory that `malloc` gives is not modelled to fail.
  unfoldable pub mpeg2ts_muxer_write_csd : List ℕ → ℕ → TsContext f → TsContext f
  mpeg2ts_muxer_write_csd csd idx s = record s {
    mux = record (s.mux) { track_csd = update s.mux.track_csd idx csd };
  }

  -- `SET_TRACK_INFO`: on another codec than H.264 the video parameters are set all the same. The codec
  -- number and the audio codec, which are constant, and the rotation are not kept.
  unfoldable pub ts_set_track_info : Option MediaTrackInfo → TsContext f → Bool × TsContext f
  ts_set_track_info none s = (false, s)
  ts_set_track_info (some info) s =
      let video = record (s.info) {
        width = info.width;
        height = info.height;
        frame_rate = info.frame_rate;
        max_key_interval = info.max_key_interval;
      } in
      if info.video_enc_type == venc_codec_h264
      then (
        true,
        record s {
          info = record video {
            channel_cnt = info.channel_cnt;
            bit_width = info.bit_width;
            sample_rate = info.sample_rate;
            frame_size = info.frame_size;
          };
        },
      )
      else (false, record s { info = video })

  unfoldable pub ts_file_cmd : IoctrlCmd → TsContext f → Bool × TsContext f
  ts_file_cmd cmd s =
      let (done, files) = file_ioctrl f cmd s.files in (done, record s { files = files })

  unfoldable pub mpeg2ts_muxer_ioctrl : IoctrlCmd → TsContext f → Bool × TsContext f
  mpeg2ts_muxer_ioctrl (set_track_info info) s = ts_set_track_info info s
  mpeg2ts_muxer_ioctrl (set_total_time t) s = (true, record s { track_duration = t })
  mpeg2ts_muxer_ioctrl (set_fallocate_len n) s = ts_file_cmd (set_fallocate_len n) s
  mpeg2ts_muxer_ioctrl (set_tfcard_state n) s = ts_file_cmd (set_tfcard_state n) s
  mpeg2ts_muxer_ioctrl (set_cache_mode n) s = ts_file_cmd (set_cache_mode n) s
  mpeg2ts_muxer_ioctrl (set_cache_size n) s = ts_file_cmd (set_cache_size n) s
  mpeg2ts_muxer_ioctrl (set_stream_callback cb) s = ts_file_cmd (set_stream_callback cb) s
  mpeg2ts_muxer_ioctrl (set_stream_fd fd) s = ts_file_cmd (set_stream_fd fd) s
  mpeg2ts_muxer_ioctrl (set_stream_filepath path) s = ts_file_cmd (set_stream_filepath path) s
  mpeg2ts_muxer_ioctrl unknown_cmd s = (true, s)

  -- The tracks and the table of checksums, at the end of `Mpeg2tsMuxerWriteHeader`.
  unfoldable pub ts_set_tracks : TsContext f → TsContext f
  ts_set_tracks s =
      let audio = not (s.info.sample_rate == 0) && not (s.info.channel_cnt == 0) in
      record s {
        mux = record (s.mux) {
          track_cnt = if audio then 2 else 1;
          track_pid = header_pids audio;
          crc_table = init_crc_table;
        };
      }

  -- The writer for the stream, by the cache mode.
  unfoldable pub ts_open_cache : f.Stream → TsContext f → Bool × TsContext f
  ts_open_cache st s =
      if s.files.cache_mode == cachemode_simple
      then elim (f.cache_handle_create s.files.cache_mode st s.files.cache_simple_size) [
        | none ↦ (false, s)
        | some w ↦
            (true, ts_set_tracks (record s { files = record (s.files) { cache_writer = some w } }))
      ]
      else (false, s)

  unfoldable pub mpeg2ts_muxer_write_header : TsContext f → Bool × TsContext f
  mpeg2ts_muxer_write_header s = elim s.files.cache_writer [
    | some w ↦ (false, s)
    | none ↦ elim s.files.stream [ none ↦ (true, ts_set_tracks s) | some st ↦ ts_open_cache st s ]
  ]

  -- `Mpeg2tsMuxerWritePacket`: the packet goes to the cache writer, which has to be there.
  unfoldable pub mpeg2ts_muxer_write_packet :
      (ℕ → ℕ) → Memory → AvPacket → TsContext f → Option (Calls × TsContext f)
  mpeg2ts_muxer_write_packet pcr_of mem pkt s = elim s.files.cache_writer [
    | none ↦ none
    | some w ↦ elim (mpeg2ts_write_packet pcr_of mem pkt s.mux) [
      | none ↦ none
      | some r ↦ some (r.0, record s { mux = r.1 })
    ]
  ]

-- `int filesize`, from a position or -1.
unfoldable pub filesize_of : Option ℕ → ℤ
filesize_of none = negsuc 0
filesize_of (some n) = int_of n

-- `mpeg2ts_write_trailer`: the size of the file as an `int`, which the driver returns.
unfoldable pub mpeg2ts_write_trailer : (pb : FsCacheWriter) → pb.State → ℤ × pb.State
mpeg2ts_write_trailer pb s =
    let (at, s') = pb.cache_tell ((pb.cache_seek 0 seek_end (pb.cache_flush s)).1) in
    (filesize_of at, s')
