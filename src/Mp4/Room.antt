-- ===== src/Mp4/Room.antt =====
-- The places where mov_write_packet of Mp4Muxer.c stores the entries of its sample tables.
pub mod Stores
pub mod Packets
use pluto_project.Base.{
  ℕ, zero, suc, ◌+◌, ◌≤◌, ◌<◌, ◌≡◌, ◌≢◌, ◌⊎◌, inl, inr, refl, sym, ap, subst, ◌∙◌, Bool, true,
  false, Option, none, some, List, [], arith, ltb, ◌==◌, ◌&&◌, if◌then◌else◌, length, Bool-cases,
  update, update_miss, u32,
}
use pluto_project.Mp4.{
  MovTrack, MovContext, update₂, stco_id, stsz_id, stsc_id, stts_id, codec_id_h264,
}
use pluto_project.Mp4.Put.{Calls}
use pluto_project.Mp4.Movie.{FormatContext}
use pluto_project.Mp4.Packet.{
  Packet, store, wrap, count_cached, with_track, close_chunk, new_chunk, add_sample, add_duration,
  note_keyframe, nal_head, enter_chunk, add_frame, add_packet, add_data, mov_write_packet,
  end_packets,
}

-- The tables that there are: four of video, and three of audio.
abbrev pub IsTable : ℕ → ℕ → Type 0
IsTable id k = (id ≤ stts_id) × (k ≤ 1) × (id + k ≤ stts_id)

abbrev pub no_slack : ℕ → ℕ → ℕ
no_slack id k = 0

same_id : (id k a b : ℕ) → (id == a && k == b) ≡ true → id ≡ a
same_id id k a b h = ground arith

same_stream : (id k a b : ℕ) → (id == a && k == b) ≡ true → k ≡ b
same_stream id k a b h = ground arith

-- Tables from `first` to `last`, none of them empty, in a memory that held `words`.
module _ (first last : ℕ → ℕ → ℕ) (words : ℕ → ℕ)
    (ordered : (id k : ℕ) → IsTable id k → first id k ≤ last id k) where
  -- A place in none of the tables.
  abbrev pub IsOutside : ℕ → Type 0
  IsOutside p = (id k : ℕ) → IsTable id k → (p < first id k) ⊎ (last id k < p)

  -- Each write pointer is in its table, or as far behind it as `slack` says, and the places outside of
  -- the tables hold what they held.
  pub record IsSafe (slack : ℕ → ℕ → ℕ) (m : MovContext) : Type 0 where
    pub starts : m.start_ptr ≡ first
    pub ends : m.end_ptr ≡ last
    pub room :
        (id k : ℕ)
        → IsTable id k
        → (first id k ≤ m.write_ptr id k) × (m.write_ptr id k ≤ last id k + slack id k)
    pub outside : (p : ℕ) → IsOutside p → m.words p ≡ words p

  pub weaker :
      (d e : ℕ → ℕ → ℕ) (m : MovContext) → ((id k : ℕ) → d id k ≤ e id k) → IsSafe d m → IsSafe e m
  weaker d e m le s = record {
    starts = s.starts;
    ends = s.ends;
    room = λ id k t. let r = s.room id k t in let l = le id k in (r.0, omega arith);
    outside = s.outside;
  }

  pub store-IsSafe :
      (d : ℕ → ℕ → ℕ) (id k v : ℕ) (m : MovContext)
      → IsTable id k
      → d id k ≡ 0
      → IsSafe d m
      → IsSafe (update₂ d id k 1) (store id k v m)
  unfolding store
  store-IsSafe d id k v m t tight s = record {
    starts = s.starts;
    ends = s.ends;
    room = λ a b u. elim (Bool-cases (id == a && k == b)) [
      | inl here ↦
          let r = s.room id k t in
          let i : a ≡ id = sym (same_id id k a b here) in
          let j : b ≡ k = sym (same_stream id k a b here) in
          rw here (rw (i, j) (omega arith, omega arith))
      | inr away ↦ rw away (s.room a b u)
    ];
    outside = λ p o.
        let r = s.room id k t in
        let apart : m.write_ptr id k ≢ p = λ e. elim (o id k t) [
          | inl before ↦ absurd (omega arith)
          | inr behind ↦ absurd (omega arith)
        ] in
        update_miss m.words (m.write_ptr id k) v p apart ∙ s.outside p o;
  }

  pub wrap-IsSafe :
      (d : ℕ → ℕ → ℕ) (id k : ℕ) (m : MovContext)
      → IsTable id k
      → IsSafe d m
      → IsSafe (update₂ d id k 0) (wrap id k m)
  unfolding wrap
  wrap-IsSafe d id k m t s =
      let r = s.room id k t in
      let limit : m.end_ptr id k ≡ last id k = ap (λ (g : ℕ → ℕ → ℕ). g id k) s.ends in
      let start : m.start_ptr id k ≡ first id k = ap (λ (g : ℕ → ℕ → ℕ). g id k) s.starts in
      elim (Bool-cases (ltb (m.end_ptr id k) (m.write_ptr id k))) [
        | inl full ↦ rw full (record {
          starts = s.starts;
          ends = s.ends;
          room = λ a b u. elim (Bool-cases (id == a && k == b)) [
            | inl here ↦
                let i : a ≡ id = sym (same_id id k a b here) in
                let j : b ≡ k = sym (same_stream id k a b here) in
                rw here (rw (i, j) (omega arith, omega (arith, ordered id k t)))
            | inr away ↦ rw away (s.room a b u)
          ];
          outside = s.outside;
        })
        | inr free ↦ rw free (record {
          starts = s.starts;
          ends = s.ends;
          room = λ a b u. elim (Bool-cases (id == a && k == b)) [
            | inl here ↦
                let i : a ≡ id = sym (same_id id k a b here) in
                let j : b ≡ k = sym (same_stream id k a b here) in
                rw here (rw (i, j) (r.0, ground (arith, limit)))
            | inr away ↦ rw away (s.room a b u)
          ];
          outside = s.outside;
        })
      ]
