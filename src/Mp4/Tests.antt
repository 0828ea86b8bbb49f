-- ===== src/Mp4/Tests.antt =====
-- The muxer of Mp4Muxer.c at concrete inputs, and the theorems on it applied there.
use pluto_project.Base.{
  ℕ, ◌+◌, ◌^◌, ◌≤◌, ◌<◌, ◌≡◌, ◌≢◌, refl, true, false, none, inr, List, [], ◌∷◌, arith,
}
use pluto_project.Stream.{seek_set}
use pluto_project.Mp4.{
  Codec, audio, video, MovTrack, MovContext, Degrees, header_reserve_size, codec_id_aac,
  codec_id_h264,
}
use pluto_project.Mp4.Put.{Calls, size_of, codes}
use pluto_project.Mp4.Avc.{av_rb32, ff_isom_get_avcc_size}
use pluto_project.Mp4.Sample.{
  tag_mp4a, mov_get_stsd_tag_size, mov_get_audio_tag_size, mov_get_esds_tag_size, descr_length,
  decoder_info_size, descr_rounds,
}
use pluto_project.Mp4.Tables.{
  mov_get_stts_tag_size, mov_get_stsc_tag_size, mov_get_stsz_tag_size, mov_get_stco_tag_size,
}
use pluto_project.Mp4.Track.{
  title_of, mov_get_trak_tag_size, mov_get_mdia_tag_size, mov_get_hdlr_tag_size,
  mov_get_minf_tag_size, mov_get_stbl_tag_size,
}
use pluto_project.Mp4.Movie.{
  write, seek, mov_get_moov_tag_size, add_trak_sizes, mov_write_moov_tag, FormatContext,
  mov_write_header, mov_write_ftyp_tag, mov_write_free_tag, write_moov,
}
use pluto_project.Mp4.Size.{IsBox, HasTables, HasShortTitle, IsWritable, moov-IsBox}
use pluto_project.Mp4.Layout.{moov_fits}

abbrev pub aac : Codec
aac = record {
  width = 0;
  height = 0;
  codec_type = audio;
  rotate_degree = 0;
  codec_tag = 0;
  codec_id = codec_id_aac;
  channels = 2;
  frame_size = 1024;
  frame_rate = 0;
  bits_per_sample = 16;
  sample_rate = 44100;
}

abbrev pub h264 : Codec
h264 = record aac { width = 640; height = 480; codec_type = video; codec_id = codec_id_h264 }

abbrev pub sound : MovTrack
sound = record {
  timescale = 44100;
  time = 0;
  track_duration = 2048;
  track_id = 0;
  stream_type = 0;
  tag = tag_mp4a;
  enc = aac;
  csd = 0x12 ∷ 0x10 ∷ [];
  csd_address = 0;
  stsz_size = 2;
  stco_size = 1;
  stsc_size = 1;
  stts_size = 0;
  stsz_tiny_pages = 0;
  stco_tiny_pages = 0;
  stsc_tiny_pages = 0;
  stts_tiny_pages = 0;
  key_frame_num = 0;
}

abbrev here : Degrees
here = record { negative = false; magnitude = 0 }

-- A movie of one sound track.
abbrev pub movie : MovContext
movie = record {
  create_time = 0;
  nb_streams = 1;
  mdat_pos = header_reserve_size;
  mdat_start_pos = header_reserve_size + 8;
  mdat_size = 0;
  timescale = 1000;
  geo_available = true;
  latitude = here;
  longitude = here;
  tracks = λ i. sound;
  words = λ i. 0;
  start_ptr = λ c k. 0;
  end_ptr = λ c k. 100;
  write_ptr = λ c k. 0;
  read_ptr = λ c k. 0;
  cached = λ c k. 0;
  keyframes = λ i. 0;
  stsc_cnt = 0;
  last_stream_idx = none;
  free_pos = 28;
  title_info = codes "t";
}

not_coded : av_rb32 sound.csd 0 ≢ 1
unfolding av_rb32
not_coded e = omega arith

no_avcc : ff_isom_get_avcc_size sound.csd_address sound.csd < 2 ^ 24
unfolding ff_isom_get_avcc_size
no_avcc = omega arith

sound-IsWritable : IsWritable sound
sound-IsWritable = record {
  small_csd = omega arith;
  small_avcc = no_avcc;
  has_sps = λ e. absurd (not_coded e);
}

sound-HasTables : HasTables sound
sound-HasTables = record {
  small = record {
    stsz_in_memory = refl;
    stco_in_memory = refl;
    stsc_in_memory = refl;
    stts_in_memory = refl;
    stsz_small = omega arith;
    stco_small = omega arith;
    stsc_small = omega arith;
    stts_small = omega arith;
    keyframes_small = omega arith;
  };
  writable = sound-IsWritable;
  kind = inr refl;
}

abbrev today : List ℕ
today = codes "1-2-2026"

short_title : HasShortTitle today movie
unfolding title_of
short_title = omega arith

moov-IsBox_example :
    IsBox
      (mov_get_moov_tag_size today movie).0
      (codes "moov")
      (write_moov today
        (mov_get_moov_tag_size today movie).0
        (mov_get_moov_tag_size today movie).1).0
moov-IsBox_example = moov-IsBox today movie (omega arith) (λ i h pos. sound-HasTables) short_title

movie_fits : (mov_get_moov_tag_size today movie).0 + 36 ≤ header_reserve_size
unfolding mov_get_moov_tag_size add_trak_sizes mov_get_trak_tag_size mov_get_mdia_tag_size
    mov_get_hdlr_tag_size title_of mov_get_minf_tag_size mov_get_stbl_tag_size mov_get_stsd_tag_size
    mov_get_audio_tag_size mov_get_esds_tag_size descr_length decoder_info_size descr_rounds
    mov_get_stts_tag_size mov_get_stsc_tag_size mov_get_stsz_tag_size mov_get_stco_tag_size
movie_fits = omega arith

-- A movie whose header was written.
abbrev begun : FormatContext
begun = record { streams = λ i. sound.enc; track_cnt = 1; mov = movie }

place_set : movie.free_pos ≡ (mov_write_header begun).1.free_pos
unfolding mov_write_header
place_set = refl

moov_fits_example :
    (moov : Calls) × (free : ℕ) × ((mov_write_moov_tag today movie).1
      ≡ seek movie.free_pos seek_set ∷ write moov ∷ write (mov_write_free_tag free) ∷ [])
    × (movie.free_pos ≡ size_of mov_write_ftyp_tag)
    × IsBox (mov_write_moov_tag today movie).0 (codes "moov") moov
    × (movie.free_pos + size_of moov + free ≡ header_reserve_size)
    × (size_of (mov_write_free_tag free) ≤ free)
moov_fits_example =
    moov_fits today movie (omega arith) (λ i h pos. sound-HasTables) short_title begun place_set
      movie_fits
