-- ===== src/Mp4/Room/Stores.antt =====
-- mov_write_packet of Mp4Muxer.c stores inside of its tables only.
use pluto_project.Base.{
  ℕ, ◌+◌, ◌%◌, ◌≤◌, ◌≡◌, inl, inr, refl, ap, ◌∙◌, Option, none, some, arith, ◌==◌, if◌then◌else◌,
  length, Bool-cases, u32,
}
use pluto_project.Mp4.{MovContext, update₂, stco_id, stsz_id, stsc_id, stts_id, codec_id_h264}
use pluto_project.Mp4.Movie.{FormatContext}
use pluto_project.Mp4.Packet.{
  Packet, store, wrap, count_cached, with_track, close_chunk, new_chunk, add_sample, add_duration,
  note_keyframe, nal_head, one_more_stco, enter_chunk, add_frame, add_packet, add_data,
}
use pluto_project.Mp4.Room.{IsTable, no_slack, IsSafe, weaker, store-IsSafe, wrap-IsSafe}

-- The stream of the last packet, if there was one, has tables.
abbrev pub HasTables : Option ℕ → Type 0
HasTables none = Unit
HasTables (some j) = j ≤ 1

-- What tells where the tables are and what they hold.
abbrev SamePlaces : MovContext → MovContext → Type 0
SamePlaces m m' =
    (m'.start_ptr ≡ m.start_ptr)
    × (m'.end_ptr ≡ m.end_ptr)
    × (m'.write_ptr ≡ m.write_ptr)
    × (m'.words ≡ m.words)

module _ (first last : ℕ → ℕ → ℕ) (words : ℕ → ℕ)
    (ordered : (id k : ℕ) → IsTable id k → first id k ≤ last id k) where
  abbrev pub Safe : (ℕ → ℕ → ℕ) → MovContext → Type 0
  Safe d m = IsSafe first last words ordered d m

  moved-Safe : (d : ℕ → ℕ → ℕ) (m m' : MovContext) → SamePlaces m m' → Safe d m → Safe d m'
  moved-Safe d m m' (starts, ends, writes, held) s = record {
    starts = starts ∙ s.starts;
    ends = ends ∙ s.ends;
    room = λ id k t. rw writes (s.room id k t);
    outside = λ p o. ap (λ (g : ℕ → ℕ). g p) held ∙ s.outside p o;
  }

  -- The pointer comes back from behind its table.
  closed-Safe :
      (id k : ℕ) (m : MovContext)
      → IsTable id k
      → Safe (update₂ no_slack id k 1) m
      → Safe no_slack (wrap id k m)
  closed-Safe id k m t s =
      weaker first last words ordered _ no_slack (wrap id k m) (λ a b. ground arith)
        (wrap-IsSafe first last words ordered (update₂ no_slack id k 1) id k m t s)

  -- One entry more in a table: the store and, after statements that touch no table, the wrap.
  entered-Safe :
      (d : ℕ → ℕ → ℕ) (id k v : ℕ) (m m' : MovContext)
      → IsTable id k
      → d id k ≡ 0
      → SamePlaces (store id k v m) m'
      → Safe d m
      → Safe d (wrap id k m')
  entered-Safe d id k v m m' t tight same s =
      weaker first last words ordered _ d (wrap id k m') (λ a b. ground arith)
        (wrap-IsSafe first last words ordered (update₂ d id k 1) id k m' t (
          moved-Safe (update₂ d id k 1) (store id k v m) m' same
            (store-IsSafe first last words ordered d id k v m t tight s)))

  new_chunk-Safe :
      (k : ℕ) (m : MovContext)
      → k ≤ 1
      → HasTables m.last_stream_idx
      → Safe no_slack m
      → Safe no_slack (new_chunk k m)
  unfolding new_chunk close_chunk count_cached with_track
  new_chunk-Safe k m hk hl s = by_last m.last_stream_idx hl
    where
      start : ℕ
      start = u32 (m.mdat_size + m.mdat_start_pos)

      begun : MovContext
      begun = count_cached stco_id k (with_track k one_more_stco (store stco_id k start m))

      t : IsTable stco_id k
      t = (omega arith, hk, omega arith)

      one_behind : Safe (update₂ no_slack stco_id k 1) begun
      one_behind =
          moved-Safe (update₂ no_slack stco_id k 1) (store stco_id k start m) begun
            (refl, refl, refl, refl)
            (store-IsSafe first last words ordered no_slack stco_id k start m t refl s)

      by_last :
          (l : Option ℕ)
          → HasTables l
          → Safe no_slack (
              wrap stco_id k
                (record (elim l as (λ _. MovContext) [
                  | some j ↦ wrap stsc_id j (count_cached stsc_id j (close_chunk j begun))
                  | none ↦ begun
                ]) { stsc_cnt = 0 }))
      by_last none h =
          closed-Safe stco_id k _ t (moved-Safe _ begun _ (refl, refl, refl, refl) one_behind)
      by_last (some j) h = closed-Safe stco_id k _ t (
          moved-Safe _ (wrap stsc_id j (count_cached stsc_id j (close_chunk j begun))) _
            (refl, refl, refl, refl)
            (entered-Safe (update₂ no_slack stco_id k 1) stsc_id j begun.stsc_cnt begun
              (count_cached stsc_id j (close_chunk j begun)) (omega arith, h, omega arith) refl
              (refl, refl, refl, refl) one_behind))

  enter_chunk-Safe :
      (k : ℕ) (m : MovContext)
      → k ≤ 1
      → HasTables m.last_stream_idx
      → Safe no_slack m
      → Safe no_slack (enter_chunk k m)
  unfolding enter_chunk
  enter_chunk-Safe k m hk hl s = by_last m.last_stream_idx
    where
      by_last :
          (l : Option ℕ)
          → Safe no_slack (elim l as (λ _. MovContext) [
            | some j ↦ if k == j then m else new_chunk k m
            | none ↦ new_chunk k m
          ])
      by_last none = new_chunk-Safe k m hk hl s
      by_last (some j) = elim (Bool-cases (k == j)) [
        | inl same ↦ rw same s
        | inr other ↦ rw other (new_chunk-Safe k m hk hl s)
      ]

  add_sample-Safe :
      (k size : ℕ) (m : MovContext) → k ≤ 1 → Safe no_slack m → Safe no_slack (add_sample k size m)
  unfolding add_sample count_cached with_track
  add_sample-Safe k size m hk s =
      entered-Safe no_slack stsz_id k size (record m { last_stream_idx = some k }) _
        (omega arith, hk, omega arith) refl (refl, refl, refl, refl)
        (moved-Safe no_slack m _ (refl, refl, refl, refl) s)

  add_duration-Safe :
      (duration : ℕ) (m : MovContext) → Safe no_slack m → Safe no_slack (add_duration duration m)
  unfolding add_duration count_cached with_track
  add_duration-Safe duration m s =
      entered-Safe no_slack stts_id 0 duration m _ (omega arith, omega arith, omega arith) refl
        (refl, refl, refl, refl) s

  note_keyframe-Safe :
      (head : ℕ) (m : MovContext) → Safe no_slack m → Safe no_slack (note_keyframe head m)
  unfolding note_keyframe with_track
  note_keyframe-Safe head m s = elim (Bool-cases (head % 32 == 5)) [
    | inl idr ↦ rw idr (moved-Safe no_slack m _ (refl, refl, refl, refl) s)
    | inr other ↦ rw other s
  ]

  add_frame-Safe :
      (c : FormatContext) (pkt : Packet) (size : ℕ) (m : MovContext)
      → Safe no_slack m
      → Safe no_slack (add_frame c pkt size m).2
  unfolding add_frame add_data
  add_frame-Safe c pkt size m s =
      let d = add_duration-Safe pkt.duration m s in
      elim (Bool-cases ((c.streams 0).codec_id == codec_id_h264)) [
        | inl avc ↦ rw avc (
            moved-Safe no_slack _ _ (refl, refl, refl, refl)
              (note_keyframe-Safe (nal_head pkt) (add_duration pkt.duration m) d))
        | inr other ↦ rw other d
      ]

  pub add_packet-Safe :
      (c : FormatContext) (pkt : Packet) (k : ℕ)
      → k ≤ 1
      → HasTables c.mov.last_stream_idx
      → Safe no_slack c.mov
      → Safe no_slack (add_packet c pkt k).2
  unfolding add_packet add_data
  add_packet-Safe c pkt k hk hl s =
      let size = length pkt.data0 + length pkt.data1 in
      let m = add_sample k size (enter_chunk k c.mov) in
      let sampled =
        add_sample-Safe k size (enter_chunk k c.mov) hk (enter_chunk-Safe k c.mov hk hl s) in
      elim (Bool-cases (k == 0)) [
        | inl first_stream ↦ rw first_stream (add_frame-Safe c pkt size m sampled)
        | inr other ↦ rw other (moved-Safe no_slack m _ (refl, refl, refl, refl) sampled)
      ]
