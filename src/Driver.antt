-- ===== src/Driver.antt =====
-- mm_media/muxer/include/muxer_writer.h and muxer_writer.c: what the drivers of the two muxers share.
-- The children model the drivers, Mp4MuxerDrv.c and Mpeg2tsMuxerDrv.c.
pub mod Mp4
pub mod Layout
pub mod Consistent
pub mod Reached
pub mod Ts
mod Tests
use pluto_project.Base.{ℕ, Bool, true, false, Option, none, some, List, ◌==◌, if◌then◌else◌, ltb}

-- The muxers that there are.
pub data MuxerKind : Type 0 where
  mp4_muxer mpeg2ts_muxer : MuxerKind

abbrev pub muxer_mode_mp4 : ℕ
muxer_mode_mp4 = 0

abbrev pub muxer_mode_ts : ℕ
muxer_mode_ts = 1

-- `muxer_writer_create`, where `allocated` says that the handle could be allocated.
unfoldable pub muxer_writer_create : Bool → ℕ → Option MuxerKind
muxer_writer_create allocated mode =
    if mode == muxer_mode_mp4
    then (if allocated then some mp4_muxer else none)
    else if mode == muxer_mode_ts
    then (if allocated then some mpeg2ts_muxer else none)
    else none

-- `MEDIA_CACHEMODE`, by its numbers.
abbrev pub cachemode_thread : ℕ
cachemode_thread = 0

abbrev pub cachemode_simple : ℕ
cachemode_simple = 1

abbrev pub venc_codec_h264 : ℕ
venc_codec_h264 = 0

abbrev pub venc_codec_jpeg : ℕ
venc_codec_jpeg = 2

-- `MediaTrackInfo`
pub record MediaTrackInfo : Type 0 where
  pub width : ℕ
  pub height : ℕ
  pub frame_rate : ℕ
  pub rotate_degree : ℕ
  pub max_key_interval : ℕ
  pub video_enc_type : ℕ
  pub channel_cnt : ℕ
  pub bit_width : ℕ
  pub sample_rate : ℕ
  pub frame_size : ℕ

-- What a driver uses of the streams and of the cache writers: how they are made from a file descriptor,
-- from a path, and from a stream with a mode and a size; `fallocate` on a stream, and its callback.
pub record Files : Type 1 where
  pub Stream : Type 0
  pub Writer : Type 0
  pub open_fd : ℕ → Option Stream
  pub open_path : List ℕ → Option Stream
  pub fallocate : ℕ → Stream → Stream
  pub set_callback : ℕ → Stream → Stream
  pub cache_handle_create : ℕ → Stream → ℕ → Option Writer

-- A command of `MUXER_IOCTRL_CMD` with the argument that it takes; a pointer may be NULL (`none`). Any
-- other number is `unknown_cmd`.
pub data IoctrlCmd : Type 0 where
  set_track_info : Option MediaTrackInfo → IoctrlCmd
  set_total_time set_fallocate_len set_tfcard_state set_cache_mode set_cache_size : ℕ → IoctrlCmd
  set_stream_callback set_stream_fd : ℕ → IoctrlCmd
  set_stream_filepath : List ℕ → IoctrlCmd
  unknown_cmd : IoctrlCmd

-- What the drivers keep of files: `mpStream`, `mpCacheWriter` and the settings for both.
pub record FileState (f : Files) : Type 0 where
  pub stream : Option f.Stream
  pub cache_writer : Option f.Writer
  pub cache_mode : ℕ
  pub cache_simple_size : ℕ
  pub fallocate_len : ℕ
  pub tfcard_state : ℕ

abbrev pub no_files : (f : Files) → FileState f
no_files f = record {
  stream = none;
  cache_writer = none;
  cache_mode = 0;
  cache_simple_size = 0;
  fallocate_len = 0;
  tfcard_state = 0;
}

module _ (f : Files) where
  -- A stream that was made, or not, becomes the stream of the driver; then room is allocated for it.
  unfoldable pub take_stream : Option f.Stream → FileState f → Bool × FileState f
  take_stream none s = (false, record s { stream = none })
  take_stream (some st) s = (
    true,
    record s {
      stream = some (if ltb 0 s.fallocate_len then f.fallocate s.fallocate_len st else st);
    },
  )

  unfoldable pub set_callback_of : ℕ → Option f.Stream → Option f.Stream
  set_callback_of cb none = none
  set_callback_of cb (some st) = some (f.set_callback cb st)

  -- The commands about files, which both drivers treat alike.
  unfoldable pub file_ioctrl : IoctrlCmd → FileState f → Bool × FileState f
  file_ioctrl (set_track_info info) s = (true, s)
  file_ioctrl (set_total_time t) s = (true, s)
  file_ioctrl (set_fallocate_len n) s = (true, record s { fallocate_len = n })
  file_ioctrl (set_tfcard_state n) s = (true, record s { tfcard_state = n })
  file_ioctrl (set_cache_mode n) s = (true, record s { cache_mode = n })
  file_ioctrl (set_cache_size n) s = (true, record s { cache_simple_size = n })
  file_ioctrl (set_stream_callback cb) s = (true, record s { stream = set_callback_of cb s.stream })
  file_ioctrl (set_stream_fd fd) s = take_stream (f.open_fd fd) s
  file_ioctrl (set_stream_filepath path) s = take_stream (f.open_path path) s
  file_ioctrl unknown_cmd s = (true, s)
