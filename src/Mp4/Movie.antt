-- ===== src/Mp4/Movie.antt =====
-- The boxes of the whole file in Mp4Muxer.c: `ftyp`, `free`, `mdat`, `mvhd`, `udta` and `moov`, and
-- the start of a file.
use pluto_project.Base.{
  ℕ, zero, suc, ◌+◌, ◌-◌, ◌/◌, ◌%◌, List, [], ◌∷◌, ◌++◌, u32, ltb, leb, ◌==◌, ◌&&◌, if◌then◌else◌,
  take,
}
use pluto_project.Stream.{Whence, seek_set}
use pluto_project.Mp4.{
  Codec, MovTrack, MovContext, Degrees, update, header_reserve_size, global_timescale,
}
use pluto_project.Mp4.Put.{
  Calls, ◌⨾◌, Emit, emit, ◌>>◌, codes, put_buffer, put_byte, put_be16, put_be24, put_be32, put_tag,
}
use pluto_project.Mp4.Sample.{mov_find_codec_tag}
use pluto_project.Mp4.Track.{mov_get_trak_tag_size, mov_write_trak_tag}

-- What a function asks of the cache writer, in order.
pub data Op : Type 0 where
  write : Calls → Op
  seek : ℕ → Whence → Op
  flush : Op

abbrev pub mov_get_mvhd_tag_size : ℕ
mov_get_mvhd_tag_size = 108

-- The loop over the first `n` tracks.
unfoldable pub max_track_id : (ℕ → MovTrack) → ℕ → ℕ
max_track_id tracks zero = 1
max_track_id tracks (suc n) =
    let m = max_track_id tracks n in if ltb m (tracks n).track_id then (tracks n).track_id else m

unfoldable pub mov_write_mvhd_tag : MovContext → Calls
mov_write_mvhd_tag mov =
    put_be32 mov_get_mvhd_tag_size
    ⨾ put_tag (codes "mvhd")
    ⨾ put_byte 0
    ⨾ put_be24 0
    ⨾ put_be32 mov.create_time
    ⨾ put_be32 mov.create_time
    ⨾ put_be32 mov.timescale
    ⨾ put_be32 (mov.tracks 0).track_duration
    ⨾ put_be32 0x1_0000
    ⨾ put_be16 0x100
    ⨾ put_be16 0
    ⨾ put_be32 0
    ⨾ put_be32 0
    ⨾ put_be32 0x1_0000
    ⨾ put_be32 0
    ⨾ put_be32 0
    ⨾ put_be32 0
    ⨾ put_be32 0x1_0000
    ⨾ put_be32 0
    ⨾ put_be32 0
    ⨾ put_be32 0
    ⨾ put_be32 0x4000_0000
    ⨾ put_be32 0
    ⨾ put_be32 0
    ⨾ put_be32 0
    ⨾ put_be32 0
    ⨾ put_be32 0
    ⨾ put_be32 0
    ⨾ put_be32 (max_track_id mov.tracks mov.nb_streams + 1)

-- The decimal digits of `n`, at least `width` of them: the precision of `%.2d`. An `int` has at
-- most ten digits, which is the fuel that the callers give.
unfoldable pub decimal : ℕ → ℕ → ℕ → List ℕ
decimal zero width n = []
decimal (suc fuel) width n =
    let shown = decimal fuel (width - 1) (n / 10) ++ ((b'0' + n % 10) ∷ []) in
    if width == 0 && n == 0 then [] else shown

abbrev pub sign_of : Degrees → ℕ
sign_of g = if g.negative then b'-' else b'+'

-- The text of `writeLatitude`; the cuts are those of `snprintf`.
unfoldable pub write_latitude : Degrees → Calls
write_latitude g = put_buffer (
    take 4 (sign_of g ∷ (decimal 10 2 (g.magnitude / 10000) ++ (b'.' ∷ [])))
    ++ take 4 (decimal 10 4 (g.magnitude % 10000)))

-- The text of `writeLongitude`, with at least three digits of whole degrees.
unfoldable pub write_longitude : Degrees → Calls
write_longitude g = put_buffer (
    take 5 (sign_of g ∷ (decimal 10 3 (g.magnitude / 10000) ++ (b'.' ∷ [])))
    ++ take 4 (decimal 10 4 (g.magnitude % 10000)))

abbrev pub mov_get_udta_tag_size : ℕ
mov_get_udta_tag_size = 4 + 4 + 4 + 4 + 4 + 8 + 9 + 1

unfoldable pub mov_write_udta_tag : MovContext → Calls
mov_write_udta_tag mov =
    put_be32 mov_get_udta_tag_size
    ⨾ put_tag (codes "udta")
    ⨾ put_be32 (mov_get_udta_tag_size - 8)
    ⨾ put_tag (0xA9 ∷ codes "xyz")
    ⨾ put_be32 0x0012_15c7
    ⨾ write_latitude mov.latitude
    ⨾ write_longitude mov.longitude
    ⨾ put_byte 0x2F

unfoldable pub mov_write_free_tag : ℕ → Calls
mov_write_free_tag size = put_be32 size ⨾ put_tag (codes "free")

-- What `mov_write_moov_tag` sets in the first `n` tracks before it writes them.
unfoldable pub number_tracks : ℕ → MovContext → MovContext
number_tracks zero mov = mov
number_tracks (suc n) mov =
    let mov' = number_tracks n mov in
    record mov' {
      tracks =
          update mov'.tracks n
            (record (mov'.tracks n) { time = mov'.create_time; track_id = n + 1; stream_type = n });
    }

module _ (date : List ℕ) where
  -- The loop of `movGetMoovTagSize` at track `i`, with `n` left.
  unfoldable pub add_trak_sizes : ℕ → ℕ → ℕ → MovContext → ℕ × MovContext
  add_trak_sizes zero i size mov = (size, mov)
  add_trak_sizes (suc n) i size mov =
      let (trak, mov') =
        if ltb 0 (mov.tracks i).stsz_size
        then mov_get_trak_tag_size date (mov.tracks i) mov
        else (0, mov) in
      add_trak_sizes n (i + 1) (u32 (size + trak)) mov'

  unfoldable pub mov_get_moov_tag_size : MovContext → ℕ × MovContext
  mov_get_moov_tag_size mov =
      add_trak_sizes mov.nb_streams 0
        (8 + (if mov.geo_available then mov_get_udta_tag_size else 0) + mov_get_mvhd_tag_size) mov

  -- The loop of `mov_write_moov_tag` at track `i`, with `n` left.
  unfoldable pub write_traks : ℕ → ℕ → Emit
  write_traks zero i mov = ([], mov)
  write_traks (suc n) i mov =
      ((if ltb 0 (mov.tracks i).stsz_size then mov_write_trak_tag date (mov.tracks i) else emit [])
          >> write_traks n (i + 1))
        mov

  -- The `moov` box itself, given its size.
  unfoldable pub write_moov : ℕ → Emit
  write_moov moov_size mov =
      let mov1 = record mov { timescale = global_timescale } in
      let mov2 = number_tracks mov.nb_streams mov1 in
      (emit (
            put_be32 moov_size
            ⨾ put_tag (codes "moov")
            ⨾ (if mov.geo_available then mov_write_udta_tag mov1 else [])
            ⨾ mov_write_mvhd_tag mov2)
          >> write_traks mov.nb_streams 0)
        mov2

  -- `mov_write_moov_tag`: in the room reserved at the start if it fits, else where the file ends.
  unfoldable pub mov_write_moov_tag : MovContext → ℕ × List Op × MovContext
  mov_write_moov_tag mov =
      let (moov_size, mov1) = mov_get_moov_tag_size mov in
      let (calls, mov2) = write_moov moov_size mov1 in
      if leb (moov_size + 28 + 8) header_reserve_size
      then (
        moov_size,
        seek mov1.free_pos seek_set
            ∷ write calls
            ∷ write (mov_write_free_tag (header_reserve_size - moov_size - 28))
            ∷ [],
        mov2,
      )
      else (moov_size, write calls ∷ [], mov2)

unfoldable pub mov_write_mdat_tag : MovContext → List Op × MovContext
mov_write_mdat_tag mov = (
  seek header_reserve_size seek_set ∷ write (put_be32 0 ⨾ put_tag (codes "mdat")) ∷ [],
  record mov { mdat_pos = header_reserve_size; mdat_start_pos = header_reserve_size + 8 },
)

unfoldable pub mov_write_ftyp_tag : Calls
mov_write_ftyp_tag =
    put_be32 28
    ⨾ put_tag (codes "ftyp")
    ⨾ put_tag (codes "isom")
    ⨾ put_be32 0x200
    ⨾ put_tag (codes "isom")
    ⨾ put_tag (codes "iso2")
    ⨾ put_tag (codes "mp41")

-- `AVFormatContext` of Mp4Muxer.h, the fields that Mp4Muxer.c reads: the codec of each stream and
-- `priv_data`.
pub record FormatContext : Type 0 where
  pub streams : ℕ → Codec
  pub track_cnt : ℕ
  pub mov : MovContext

-- The loop of `mov_write_header` over the first `n` streams.
unfoldable pub bind_codecs : (ℕ → Codec) → ℕ → MovContext → MovContext
bind_codecs streams zero mov = mov
bind_codecs streams (suc n) mov =
    let mov' = bind_codecs streams n mov in
    let track = record (mov'.tracks n) { enc = streams n } in
    record mov' { tracks = update mov'.tracks n (record track { tag = mov_find_codec_tag track }) }

unfoldable pub mov_write_header : FormatContext → List Op × MovContext
mov_write_header s =
    let mov1 = bind_codecs s.streams s.track_cnt s.mov in
    let (mdat, mov2) = mov_write_mdat_tag mov1 in
    (
      write mov_write_ftyp_tag ∷ write (mov_write_free_tag (header_reserve_size - 28)) ∷ mdat,
      record mov2 { nb_streams = s.track_cnt; free_pos = 28 },
    )
