-- ===== src/Mp4.antt =====
-- mm_media/muxer/mp4_muxer: the data of Mp4Muxer.h. The children model Mp4Muxer.c and prove it.
pub mod Put
pub mod Avc
pub mod Tables
pub mod Sample
pub mod Track
pub mod Movie
pub mod Packet
pub mod Words
pub mod Size
pub mod Samples
pub mod Room
pub mod Layout
mod Tests
pub use pluto_project.Base.{update, update_hit, update_miss}
use pluto_project.Base.{
  ℕ, ◌+◌, ◌*◌, ◌^◌, Bool, Option, List, ◌==◌, ◌&&◌, if◌then◌else◌, ◌≡◌, ◌≢◌, refl, ==_iff, ≢→==,
}

-- `CODEC_TYPE`
pub data CodecType : Type 0 where
  video audio max_type : CodecType

-- `CODEC_ID`, by its numbers.
abbrev pub codec_id_h264 : ℕ
codec_id_h264 = 0

abbrev pub codec_id_mpeg4 : ℕ
codec_id_mpeg4 = 3

abbrev pub codec_id_mjpeg : ℕ
codec_id_mjpeg = 4

abbrev pub codec_id_pcm : ℕ
codec_id_pcm = 5

abbrev pub codec_id_adpcm : ℕ
codec_id_adpcm = 6

abbrev pub codec_id_aac : ℕ
codec_id_aac = 0x40

-- `MKTAG`, a little-endian word of four bytes.
abbrev pub mktag : ℕ → ℕ → ℕ → ℕ → ℕ
mktag a b c d = a + b * 2 ^ 8 + c * 2 ^ 16 + d * 2 ^ 24

-- `AVCodecContext`, the fields that the muxer reads.
pub record Codec : Type 0 where
  pub width : ℕ
  pub height : ℕ
  pub codec_type : CodecType
  pub rotate_degree : ℕ
  pub codec_tag : ℕ
  pub codec_id : ℕ
  pub channels : ℕ
  pub frame_size : ℕ
  pub frame_rate : ℕ
  pub bits_per_sample : ℕ
  pub sample_rate : ℕ

-- `MOVTrack`. `csd` holds the `csdLen` bytes at `csdData`, which lie at address `csd_address`.
pub record MovTrack : Type 0 where
  pub timescale : ℕ
  pub time : ℕ
  pub track_duration : ℕ
  pub track_id : ℕ
  pub stream_type : ℕ
  pub tag : ℕ
  pub enc : Codec
  pub csd : List ℕ
  pub csd_address : ℕ
  pub stsz_size : ℕ
  pub stco_size : ℕ
  pub stsc_size : ℕ
  pub stts_size : ℕ
  pub stsz_tiny_pages : ℕ
  pub stco_tiny_pages : ℕ
  pub stsc_tiny_pages : ℕ
  pub stts_tiny_pages : ℕ
  pub key_frame_num : ℕ

-- `CHUNKID`
abbrev pub stco_id : ℕ
stco_id = 0

abbrev pub stsz_id : ℕ
stsz_id = 1

abbrev pub stsc_id : ℕ
stsc_id = 2

abbrev pub stts_id : ℕ
stts_id = 3

-- Degrees times 10000.
pub record Degrees : Type 0 where
  pub negative : Bool
  pub magnitude : ℕ

-- `MOVContext`. `words` is the memory `mov_inf_cache` of 32-bit words, into which the pointer arrays
-- `[4][2]` point by index; `keyframes` is the array at `cache_keyframe_ptr`. A `last_stream_idx` of
-- -1 is `none`. `title_info` is the text before its end mark.
pub record MovContext : Type 0 where
  pub create_time : ℕ
  pub nb_streams : ℕ
  pub mdat_pos : ℕ
  pub mdat_start_pos : ℕ
  pub mdat_size : ℕ
  pub timescale : ℕ
  pub geo_available : Bool
  pub latitude : Degrees
  pub longitude : Degrees
  pub tracks : ℕ → MovTrack
  pub words : ℕ → ℕ
  pub start_ptr : ℕ → ℕ → ℕ
  pub end_ptr : ℕ → ℕ → ℕ
  pub write_ptr : ℕ → ℕ → ℕ
  pub read_ptr : ℕ → ℕ → ℕ
  pub cached : ℕ → ℕ → ℕ
  pub keyframes : ℕ → ℕ
  pub stsc_cnt : ℕ
  pub last_stream_idx : Option ℕ
  pub free_pos : ℕ
  pub title_info : List ℕ

-- One element of an array of arrays.
abbrev pub update₂ : (ℕ → ℕ → ℕ) → ℕ → ℕ → ℕ → ℕ → ℕ → ℕ
update₂ f c k v a b = if c == a && k == b then v else f a b

-- `MOV_HEADER_RESERVE_SIZE`
abbrev pub header_reserve_size : ℕ
header_reserve_size = 1024 * 1024

-- `globalTimescale`
abbrev pub global_timescale : ℕ
global_timescale = 1000
