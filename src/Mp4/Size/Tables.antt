-- ===== src/Mp4/Size/Tables.antt =====
-- The sample tables are boxes.
use pluto_project.Base.{ℕ, zero, suc, ◌+◌, ◌*◌, ◌^◌, ◌<◌, ◌≡◌, refl, arith}
use pluto_project.Mp4.{MovTrack, MovContext, video, audio, stco_id, stsz_id, stts_id}
use pluto_project.Mp4.Put.{size_of, size_of-append, codes, word_sizes}
use pluto_project.Mp4.Tables.{
  advance, put_entries, put_chunks, put_keyframes, put_durations, skip_then_durations,
  mov_get_stco_tag_size, mov_write_stco_tag, mov_get_stsz_tag_size, mov_write_stsz_tag,
  mov_get_stsc_tag_size, mov_write_stsc_tag, mov_get_stss_tag_size, mov_write_stss_tag,
  mov_get_stts_tag_size, mov_write_stts_tag,
}
use pluto_project.Mp4.Size.Box.{IsBox, Kept}

size-put_entries :
    (id k n : ℕ) (m : MovContext)
    → (size_of (put_entries id k n m).0 ≡ 4 * n) × Kept m (put_entries id k n m).1
unfolding put_entries
size-put_entries id k zero m = (refl, record { tracks = refl; nb_streams = refl; title = refl })
size-put_entries id k (suc n) m =
    let (size, same) = size-put_entries id k n (advance id k m) in
    (
      omega (word_sizes),
      record { tracks = same.tracks; nb_streams = same.nb_streams; title = same.title },
    )

size-put_chunks :
    (k n i : ℕ) (m : MovContext)
    → (size_of (put_chunks k n i m).0 ≡ 12 * n) × Kept m (put_chunks k n i m).1
unfolding put_chunks
size-put_chunks k zero i m = (refl, record { tracks = refl; nb_streams = refl; title = refl })
size-put_chunks k (suc n) i m =
    let (size, same) = size-put_chunks k n (i + 1) (advance 2 k m) in
    (
      omega (word_sizes),
      record { tracks = same.tracks; nb_streams = same.nb_streams; title = same.title },
    )

size-put_keyframes : (keyframes : ℕ → ℕ) (n i : ℕ) → size_of (put_keyframes keyframes n i) ≡ 4 * n
unfolding put_keyframes
size-put_keyframes keyframes zero i = refl
size-put_keyframes keyframes (suc n) i = omega (word_sizes, size-put_keyframes keyframes n (i + 1))

size-put_durations :
    (k n : ℕ) (m : MovContext)
    → (size_of (put_durations k n m).0 ≡ 8 * n) × Kept m (put_durations k n m).1
unfolding put_durations
size-put_durations k zero m = (refl, record { tracks = refl; nb_streams = refl; title = refl })
size-put_durations k (suc n) m =
    let (size, same) = size-put_durations k n (advance stts_id k m) in
    (
      omega (word_sizes),
      record { tracks = same.tracks; nb_streams = same.nb_streams; title = same.title },
    )

size-skip :
    (k n : ℕ) (m : MovContext)
    → 0 < n
    → (size_of (skip_then_durations k n m).0 + 8 ≡ 8 * n) × Kept m (skip_then_durations k n m).1
unfolding skip_then_durations
size-skip k zero m h = absurd (omega arith)
size-skip k (suc n) m h =
    let (size, same) = size-put_durations k n (advance stts_id k m) in
    (omega arith, record { tracks = same.tracks; nb_streams = same.nb_streams; title = same.title })

-- The tables of a track are kept in memory, and are not so long that a size could wrap.
pub record IsSmall (t : MovTrack) : Type 0 where
  pub stsz_in_memory : t.stsz_tiny_pages ≡ 0
  pub stco_in_memory : t.stco_tiny_pages ≡ 0
  pub stsc_in_memory : t.stsc_tiny_pages ≡ 0
  pub stts_in_memory : t.stts_tiny_pages ≡ 0
  pub stsz_small : t.stsz_size < 2 ^ 24
  pub stco_small : t.stco_size < 2 ^ 24
  pub stsc_small : t.stsc_size < 2 ^ 24
  pub stts_small : t.stts_size < 2 ^ 24
  pub keyframes_small : t.key_frame_num < 2 ^ 24

module _ (t : MovTrack) (m : MovContext) (s : IsSmall t) where
  pub stco-IsBox :
      IsBox (mov_get_stco_tag_size t) (codes "stco") (mov_write_stco_tag t m).0
      × Kept m (mov_write_stco_tag t m).1
  unfolding mov_write_stco_tag mov_get_stco_tag_size
  stco-IsBox =
      let (size, same) = size-put_entries stco_id t.stream_type t.stco_size m in
      rw s.stco_in_memory ((_, refl, omega word_sizes), same)

  pub stsz-IsBox :
      IsBox (mov_get_stsz_tag_size t) (codes "stsz") (mov_write_stsz_tag t m).0
      × Kept m (mov_write_stsz_tag t m).1
  unfolding mov_write_stsz_tag mov_get_stsz_tag_size
  stsz-IsBox =
      let (size, same) = size-put_entries stsz_id t.stream_type t.stsz_size m in
      rw s.stsz_in_memory ((_, refl, omega word_sizes), same)

  pub stsc-IsBox :
      IsBox (mov_get_stsc_tag_size t) (codes "stsc") (mov_write_stsc_tag t m).0
      × Kept m (mov_write_stsc_tag t m).1
  unfolding mov_write_stsc_tag mov_get_stsc_tag_size
  stsc-IsBox =
      let (size, same) = size-put_chunks t.stream_type t.stsc_size 0 m in
      rw s.stsc_in_memory ((_, refl, omega word_sizes), same)

  pub stss-IsBox :
      IsBox (mov_get_stss_tag_size t) (codes "stss") (mov_write_stss_tag t m).0
      × Kept m (mov_write_stss_tag t m).1
  unfolding mov_write_stss_tag mov_get_stss_tag_size
  stss-IsBox =
      let size = size-put_keyframes m.keyframes t.key_frame_num 0 in
      ((_, refl, omega word_sizes), record { tracks = refl; nb_streams = refl; title = refl })

  -- The audio table has one entry.
  pub stts-IsBox_audio :
      t.enc.codec_type ≡ audio
      → IsBox (mov_get_stts_tag_size t) (codes "stts") (mov_write_stts_tag t m).0
        × Kept m (mov_write_stts_tag t m).1
  unfolding mov_write_stts_tag mov_get_stts_tag_size
  stts-IsBox_audio h =
      rw h ((_, refl, omega word_sizes), record { tracks = refl; nb_streams = refl; title = refl })

  -- The video table has one entry for each sample, the first sample's counted as the last.
  pub stts-IsBox_video :
      t.enc.codec_type ≡ video
      → 0 < t.stts_size
      → IsBox (mov_get_stts_tag_size t) (codes "stts") (mov_write_stts_tag t m).0
        × Kept m (mov_write_stts_tag t m).1
  unfolding mov_write_stts_tag mov_get_stts_tag_size
  stts-IsBox_video h pos =
      let (size, same) = size-skip t.stream_type t.stts_size m pos in
      rw (h, s.stts_in_memory) ((_, refl, omega (word_sizes, size_of-append)), same)
