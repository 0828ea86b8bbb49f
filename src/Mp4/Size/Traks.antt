-- ===== src/Mp4/Size/Traks.antt =====
-- The two loops of the `moov` box over the tracks: what the first counts, the second writes.
use pluto_project.Base.{
  ℕ, zero, suc, ◌+◌, ◌*◌, ◌^◌, ◌≤◌, ◌<◌, ◌≡◌, refl, ap, sym, subst, ◌∙◌, true, false, List, arith,
  length, inl, inr, u32, ltb, Bool-cases, ltb→lt,
}
use pluto_project.Mp4.{MovTrack, MovContext}
use pluto_project.Mp4.Put.{size_of, size_of-append, codes}
use pluto_project.Mp4.Avc.{mov_get_avcc_tag_size}
use pluto_project.Mp4.Tables.{
  mov_get_stts_tag_size, mov_get_stss_tag_size, mov_get_stsc_tag_size, mov_get_stsz_tag_size,
  mov_get_stco_tag_size,
}
use pluto_project.Mp4.Sample.{
  mov_get_stsd_tag_size, mov_get_video_tag_size, mov_get_audio_tag_size, mov_get_esds_tag_size,
  decoder_info_size,
}
use pluto_project.Mp4.Track.{
  title_of, mov_get_mdia_tag_size, mov_get_minf_tag_size, mov_get_stbl_tag_size,
  mov_get_trak_tag_size, mov_write_trak_tag,
}
use pluto_project.Mp4.Movie.{add_trak_sizes, write_traks}
use pluto_project.Mp4.Size.Box.{size-IsBox}
use pluto_project.Mp4.Size.Track.{HasTables}
use pluto_project.Mp4.Size.Trak.{Titled-title_of, trak_size, trak_again, trak-IsBox}

-- What the numbering of a track leaves alone.
abbrev pub numbered : MovTrack → ℕ → ℕ → ℕ → MovTrack
numbered t time id stream = record t { time = time; track_id = id; stream_type = stream }

numbered-HasTables :
    (t : MovTrack) (time id stream : ℕ) → HasTables t → HasTables (numbered t time id stream)
numbered-HasTables t time id stream h = record {
  small = record {
    stsz_in_memory = h.small.stsz_in_memory;
    stco_in_memory = h.small.stco_in_memory;
    stsc_in_memory = h.small.stsc_in_memory;
    stts_in_memory = h.small.stts_in_memory;
    stsz_small = h.small.stsz_small;
    stco_small = h.small.stco_small;
    stsc_small = h.small.stsc_small;
    stts_small = h.small.stts_small;
    keyframes_small = h.small.keyframes_small;
  };
  writable = record {
    small_csd = h.writable.small_csd;
    small_avcc = h.writable.small_avcc;
    has_sps = h.writable.has_sps;
  };
  kind = h.kind;
}

module _ (date : List ℕ) where
  size-numbered :
      (t : MovTrack) (time id stream : ℕ) (m : MovContext)
      → (mov_get_trak_tag_size date (numbered t time id stream) m).0
        ≡ (mov_get_trak_tag_size date t m).0
  unfolding mov_get_trak_tag_size mov_get_mdia_tag_size mov_get_minf_tag_size mov_get_stbl_tag_size
      mov_get_stsd_tag_size mov_get_stts_tag_size mov_get_stss_tag_size mov_get_stsc_tag_size
      mov_get_stsz_tag_size mov_get_stco_tag_size mov_get_video_tag_size mov_get_audio_tag_size
      mov_get_avcc_tag_size mov_get_esds_tag_size decoder_info_size
  size-numbered t time id stream m = refl

  add_empty :
      (n i acc : ℕ) (m : MovContext)
      → ltb 0 (m.tracks i).stsz_size ≡ false
      → (add_trak_sizes date (suc n) i acc m).0
        ≡ (add_trak_sizes date n (i + 1) (u32 (acc + 0)) m).0
  unfolding add_trak_sizes
  add_empty n i acc m empty = rw (empty, add_trak_sizes) refl

  add_used :
      (n i acc : ℕ) (m : MovContext) (t : MovTrack)
      → m.tracks i ≡ t
      → ltb 0 t.stsz_size ≡ true
      → (add_trak_sizes date (suc n) i acc m).0
        ≡ (add_trak_sizes date n
            (i + 1)
            (u32 (acc + (mov_get_trak_tag_size date t m).0))
            (mov_get_trak_tag_size date t m).1).0
  unfolding add_trak_sizes
  add_used n i acc m t e used = rw (e, used, add_trak_sizes) refl

  write_empty :
      (n i : ℕ) (w : MovContext)
      → ltb 0 (w.tracks i).stsz_size ≡ false
      → size_of (write_traks date (suc n) i w).0 ≡ size_of (write_traks date n (i + 1) w).0
  unfolding write_traks
  write_empty n i w empty = rw empty refl

  write_used :
      (n i : ℕ) (w : MovContext) (t : MovTrack)
      → w.tracks i ≡ t
      → ltb 0 t.stsz_size ≡ true
      → size_of (write_traks date (suc n) i w).0
        ≡ size_of (mov_write_trak_tag date t w).0
          + size_of (write_traks date n (i + 1) (mov_write_trak_tag date t w).1).0
  unfolding write_traks
  write_used n i w t e used = rw (e, used) (omega (arith, size_of-append))

  counted_none :
      (i acc : ℕ) (m w : MovContext)
      → (add_trak_sizes date 0 i acc m).0 ≡ acc + size_of (write_traks date 0 i w).0
  unfolding add_trak_sizes write_traks
  counted_none i acc m w = omega arith

  -- The loop over the tracks writes as much as the loop before it counted, if the second sees the
  -- tracks of the first under numbers, and the same title.
  module _ (tracks : ℕ → MovTrack) (time : ℕ) (nb : ℕ)
      (has : (i : ℕ) → i < nb → 0 < (tracks i).stsz_size → HasTables (tracks i)) (s : List ℕ)
      (short : length s < 2 ^ 20) where
    pub counted :
        (n i acc : ℕ) (m w : MovContext)
        → i + n ≤ nb
        → acc + n * (12 * 2 ^ 26) < 2 ^ 32
        → m.tracks ≡ tracks
        → ((j : ℕ) → j < nb → w.tracks j ≡ numbered (tracks j) time (j + 1) j)
        → title_of date m.title_info ≡ s
        → title_of date w.title_info ≡ s
        → (add_trak_sizes date n i acc m).0 ≡ acc + size_of (write_traks date n i w).0
    counted zero i acc m w r b mt wt ms ws = counted_none i acc m w
    counted (suc n) i acc m w r b mt wt ms ws =
        let e : m.tracks i ≡ tracks i = ap (λ (f : ℕ → MovTrack). f i) mt in
        let e' = wt i (omega arith) in
        let u = numbered (tracks i) time (i + 1) i in
        elim (Bool-cases (ltb 0 (tracks i).stsz_size)) [
          | inr empty ↦
              let rest =
                counted n (i + 1) (u32 (acc + 0)) m w (omega arith) (omega arith) mt wt ms ws in
              let left = add_empty n i acc m (ap (λ (t : MovTrack). ltb 0 t.stsz_size) e ∙ empty) in
              let right = write_empty n i w (ap (λ (t : MovTrack). ltb 0 t.stsz_size) e' ∙ empty) in
              omega arith
          | inl used ↦
              let h = has i (omega arith) (ltb→lt _ _ used) in
              let (size, bound, titled) =
                trak_size date (tracks i) h m
                  (subst (λ (l : List ℕ). length l < 2 ^ 20) (sym ms) short) in
              let (box, titled') =
                trak-IsBox date u (numbered-HasTables (tracks i) time (i + 1) i h) w
                  (subst (λ (l : List ℕ). length l < 2 ^ 20) (sym ws) short) in
              let m' = (mov_get_trak_tag_size date (tracks i) m).1 in
              let w' = (mov_write_trak_tag date u w).1 in
              let k = (mov_get_trak_tag_size date (tracks i) m).0 in
              let rest =
                counted n (i + 1) (u32 (acc + k)) m' w' (omega arith) (omega arith)
                  (titled.tracks ∙ mt)
                  (λ j r'. ap (λ (f : ℕ → MovTrack). f j) titled'.tracks ∙ wt j r')
                  (Titled-title_of date m m' titled ∙ ms)
                  (Titled-title_of date w w' titled' ∙ ws) in
              let written = size-IsBox _ (codes "trak") _ refl box in
              let same = trak_again date (tracks i) h m w (ws ∙ sym ms) in
              let same' = size-numbered (tracks i) time (i + 1) i w in
              let left = add_used n i acc m (tracks i) e used in
              let right = write_used n i w u e' used in omega arith
        ]
