-- ===== src/Mp4/Samples/Trailer.antt =====
-- What `mov_write_trailer` of Mp4Muxer.c writes over the size of `mdat`.
use pluto_project.Base.{
  ℕ, zero, suc, ◌+◌, ◌^◌, ◌<◌, ◌≡◌, ◌==◌, refl, ap, ◌∙◌, Bool, true, inl, inr, Option, none, some,
  List, [], ◌∷◌, ◌++◌, ltb, leb, Bool-cases, append-nil,
}
use pluto_project.Stream.{seek_set, seek_end}
use pluto_project.Base.Calls.{flatten}
use pluto_project.Mp4.{CodecType, video, audio, max_type, MovTrack, MovContext, header_reserve_size}
use pluto_project.Mp4.Put.{Calls, ◌⨾◌, Emit, emit, size_of, codes, be32, put_be32, put_tag}
use pluto_project.Mp4.Avc.{av_rb32}
use pluto_project.Mp4.Tables.{
  advance, put_entries, put_chunks, put_durations, skip_then_durations, mov_write_stco_tag,
  mov_write_stsz_tag, mov_write_stsc_tag, mov_write_stss_tag, mov_write_stts_tag,
}
use pluto_project.Mp4.Track.{
  mov_write_stbl_tag, mov_write_minf_tag, mov_get_hdlr_tag_size, mov_write_hdlr_tag,
  mov_get_mdia_tag_size, mov_write_mdia_tag, mov_get_trak_tag_size, mov_write_trak_tag,
}
use pluto_project.Mp4.Movie.{
  Op, write, seek, flush, FormatContext, number_tracks, add_trak_sizes, write_traks, write_moov,
  mov_get_moov_tag_size, mov_write_moov_tag,
}
use pluto_project.Mp4.Packet.{
  Packet, end_packets, close_chunk, with_track, store, mov_write_packet, mov_write_trailer,
}
use pluto_project.Mp4.Samples.Data.{write_packets, AllFramed, mdat_size-box}

-- The size and the place of `mdat`.
abbrev mdat_of : MovContext → ℕ × ℕ
mdat_of m = (m.mdat_size, m.mdat_pos)

mdat-put_entries : (id k n : ℕ) (m : MovContext) → mdat_of (put_entries id k n m).1 ≡ mdat_of m
unfolding put_entries
mdat-put_entries id k zero m = refl
mdat-put_entries id k (suc n) m = mdat-put_entries id k n (advance id k m)

mdat-put_chunks : (k n i : ℕ) (m : MovContext) → mdat_of (put_chunks k n i m).1 ≡ mdat_of m
unfolding put_chunks
mdat-put_chunks k zero i m = refl
mdat-put_chunks k (suc n) i m = mdat-put_chunks k n (i + 1) (advance 2 k m)

mdat-put_durations : (k n : ℕ) (m : MovContext) → mdat_of (put_durations k n m).1 ≡ mdat_of m
unfolding put_durations
mdat-put_durations k zero m = refl
mdat-put_durations k (suc n) m = mdat-put_durations k n (advance 3 k m)

mdat-skip : (k n : ℕ) (m : MovContext) → mdat_of (skip_then_durations k n m).1 ≡ mdat_of m
unfolding skip_then_durations
mdat-skip k zero m = refl
mdat-skip k (suc n) m = mdat-put_durations k n (advance 3 k m)

module _ (t : MovTrack) where
  mdat-stco : (m : MovContext) → mdat_of (mov_write_stco_tag t m).1 ≡ mdat_of m
  unfolding mov_write_stco_tag
  mdat-stco m = elim (Bool-cases (t.stco_tiny_pages == 0)) [
    | inl e ↦ rw e (mdat-put_entries 0 t.stream_type t.stco_size m)
    | inr e ↦ rw e refl
  ]

  mdat-stsz : (m : MovContext) → mdat_of (mov_write_stsz_tag t m).1 ≡ mdat_of m
  unfolding mov_write_stsz_tag
  mdat-stsz m = elim (Bool-cases (t.stsz_tiny_pages == 0)) [
    | inl e ↦ rw e (mdat-put_entries 1 t.stream_type t.stsz_size m)
    | inr e ↦ rw e refl
  ]

  mdat-stsc : (m : MovContext) → mdat_of (mov_write_stsc_tag t m).1 ≡ mdat_of m
  unfolding mov_write_stsc_tag
  mdat-stsc m = elim (Bool-cases (t.stsc_tiny_pages == 0)) [
    | inl e ↦ rw e (mdat-put_chunks t.stream_type t.stsc_size 0 m)
    | inr e ↦ rw e refl
  ]

  mdat-stts : (m : MovContext) → mdat_of (mov_write_stts_tag t m).1 ≡ mdat_of m
  unfolding mov_write_stts_tag
  mdat-stts m = by_type t.enc.codec_type refl
    where
      by_type :
          (c : CodecType) → t.enc.codec_type ≡ c → mdat_of (mov_write_stts_tag t m).1 ≡ mdat_of m
      by_type audio e = rw (mov_write_stts_tag, e) refl
      by_type max_type e = rw (mov_write_stts_tag, e) refl
      by_type video e = elim (Bool-cases (t.stts_tiny_pages == 0)) [
        | inl few ↦ rw (mov_write_stts_tag, e, few) (mdat-skip t.stream_type t.stts_size m)
        | inr many ↦ rw (mov_write_stts_tag, e, many) refl
      ]

  mdat-sync :
      (c : CodecType) (m : MovContext)
      → mdat_of ((elim c as (λ _. Emit) [ video ↦ mov_write_stss_tag t | _ ↦ emit [] ]) m).1
        ≡ mdat_of m
  unfolding mov_write_stss_tag
  mdat-sync video m = refl
  mdat-sync audio m = refl
  mdat-sync max_type m = refl

  mdat-minf : (m : MovContext) → mdat_of (mov_write_minf_tag t m).1 ≡ mdat_of m
  unfolding mov_write_minf_tag mov_write_stbl_tag
  mdat-minf m = mdat-stco _ ∙ mdat-stsz _ ∙ mdat-stsc _ ∙ mdat-sync t.enc.codec_type _ ∙ mdat-stts m

  module _ (date : List ℕ) where
    mdat-trak : (m : MovContext) → mdat_of (mov_write_trak_tag date t m).1 ≡ mdat_of m
    unfolding mov_write_trak_tag mov_write_mdia_tag mov_write_hdlr_tag mov_get_trak_tag_size
        mov_get_mdia_tag_size mov_get_hdlr_tag_size
    mdat-trak m = mdat-minf _

mdat-number_tracks : (n : ℕ) (m : MovContext) → mdat_of (number_tracks n m) ≡ mdat_of m
unfolding number_tracks
mdat-number_tracks zero m = refl
mdat-number_tracks (suc n) m = mdat-number_tracks n m

module _ (date : List ℕ) where
  mdat-write_traks : (n i : ℕ) (m : MovContext) → mdat_of (write_traks date n i m).1 ≡ mdat_of m
  unfolding write_traks
  mdat-write_traks zero i m = refl
  mdat-write_traks (suc n) i m = elim (Bool-cases (ltb 0 (m.tracks i).stsz_size)) [
    | inl used ↦ rw used (
        mdat-write_traks n (i + 1) (mov_write_trak_tag date (m.tracks i) m).1
        ∙ mdat-trak (m.tracks i) date m)
    | inr empty ↦ rw empty (mdat-write_traks n (i + 1) m)
  ]

  mdat-sizes :
      (n i acc : ℕ) (m : MovContext) → mdat_of (add_trak_sizes date n i acc m).1 ≡ mdat_of m
  unfolding add_trak_sizes mov_get_trak_tag_size mov_get_mdia_tag_size mov_get_hdlr_tag_size
  mdat-sizes zero i acc m = refl
  mdat-sizes (suc n) i acc m = elim (Bool-cases (ltb 0 (m.tracks i).stsz_size)) [
    | inl used ↦ rw (used, add_trak_sizes) (mdat-sizes n (i + 1) _ _)
    | inr empty ↦ rw (empty, add_trak_sizes) (mdat-sizes n (i + 1) _ _)
  ]

  mdat-write_moov : (n : ℕ) (m : MovContext) → mdat_of (write_moov date n m).1 ≡ mdat_of m
  unfolding write_moov
  mdat-write_moov n m = mdat-write_traks m.nb_streams 0 _ ∙ mdat-number_tracks m.nb_streams _

  mdat-moov_size : (m : MovContext) → mdat_of (mov_get_moov_tag_size date m).1 ≡ mdat_of m
  unfolding mov_get_moov_tag_size
  mdat-moov_size m = mdat-sizes m.nb_streams 0 _ m

  -- Writing `moov` leaves the size and the place of `mdat` alone.
  mdat-moov : (m : MovContext) → mdat_of (mov_write_moov_tag date m).2 ≡ mdat_of m
  unfolding mov_write_moov_tag
  mdat-moov m =
      let (n, m') = mov_get_moov_tag_size date m in
      elim (Bool-cases (leb (n + 28 + 8) header_reserve_size)) [
        | inl fits ↦ rw fits (mdat-write_moov n m' ∙ mdat-moov_size m)
        | inr over ↦ rw over (mdat-write_moov n m' ∙ mdat-moov_size m)
      ]

  mdat-end_packets : (m : MovContext) → mdat_of (end_packets m).2 ≡ mdat_of m
  unfolding end_packets close_chunk with_track store
  mdat-end_packets m = by_last m.last_stream_idx
    where
      by_last :
          (l : Option ℕ)
          → mdat_of
              (elim l as (λ _. Bool × Calls × MovContext) [
                | none ↦ (true, [], m)
                | some j ↦ (true, [], close_chunk j m)
              ]).2
            ≡ mdat_of m
      by_last none = refl
      by_last (some j) = refl

  -- For packets that are all accepted, of which the frames of stream 0 are all in the second piece or
  -- no shorter than their start code, written behind the head of an `mdat` box that was empty, the trailer
  -- ends with a seek to the place of that box, a write and the seek to the end; what it writes there reads
  -- back as the size of the box with all the output of the packets, if that fits the 32 bits of the field.
  pub mov_write_trailer-mdat_size :
      (s : FormatContext) (pkts : List Packet)
      → s.mov.mdat_size ≡ 0
      → AllFramed pkts
      → (write_packets s pkts).0 ≡ true
      → (write_packets s pkts).2.mdat_size + 8 < 2 ^ 32
      → let m = (write_packets s pkts).2 in
        (moov : List Op) × (size : Calls) × ((mov_write_trailer date (record s { mov = m })).0
          ≡ moov ++ (seek m.mdat_pos seek_set ∷ write size ∷ flush ∷ seek 0 seek_end ∷ []))
        × (av_rb32 (flatten size) 0
            ≡ size_of (put_be32 0 ⨾ put_tag (codes "mdat") ⨾ (write_packets s pkts).1))
  unfolding mov_write_trailer mov_write_packet
  mov_write_trailer-mdat_size s pkts empty all done small =
      let m = (write_packets s pkts).2 in
      let last = (end_packets m).2 in
      let moov = (mov_write_moov_tag date last).1 in
      (
        moov,
        put_be32 (m.mdat_size + 8),
        ap
            (λ (p : ℕ × ℕ).
              moov
              ++ (seek p.1 seek_set ∷ write (put_be32 (p.0 + 8)) ∷ flush ∷ seek 0 seek_end ∷ []))
            (mdat-moov last ∙ mdat-end_packets m),
        ap (λ (l : List ℕ). av_rb32 l 0) (append-nil (be32 (m.mdat_size + 8)))
            ∙ mdat_size-box s pkts empty all done small,
      )
