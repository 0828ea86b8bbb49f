-- ===== src/Driver/Ts/Sound.antt =====
-- What every call of Mpeg2tsMuxerDrv.c keeps of its context.
use pluto_project.Base.{
  ℕ, ◌^◌, ◌≤◌, ◌<◌, ◌≡◌, ◌⊎◌, refl, inl, inr, sym, subst, Bool, true, false, Option, none, some,
  List, arith, ◌==◌, Bool-cases, Ends,
}
use pluto_project.Base.Calls.{Calls}
use pluto_project.Ts.{AvFormatContext, AvPacket, Memory}
use pluto_project.Ts.Crc.{init_crc_table}
use pluto_project.Ts.Unit.{mpeg2ts_write_packet}
use pluto_project.Ts.Unit.Counters.{IsReady, StillReady, mpeg2ts_write_packet-IsReady}
use pluto_project.Driver.{
  Files, FileState, file_ioctrl, IoctrlCmd, MediaTrackInfo, set_track_info, set_total_time,
  set_fallocate_len, set_tfcard_state, set_cache_mode, set_cache_size, set_stream_callback,
  set_stream_fd, set_stream_filepath, unknown_cmd, cachemode_simple, venc_codec_h264, take_stream,
}
use pluto_project.Driver.Ts.{
  TsContext, mpeg2ts_muxer_write_csd, mpeg2ts_muxer_ioctrl, ts_set_track_info, ts_file_cmd,
  ts_set_tracks, ts_open_cache, mpeg2ts_muxer_write_header, mpeg2ts_muxer_write_packet, header_pids,
}

-- The counters have four bits, the PIDs 13, and there are two tracks at most.
pub record IsBounded (mux : AvFormatContext) : Type 0 where
  pub pat : mux.pat_continuity_counter < 16
  pub pmt : mux.pmt_continuity_counter < 16
  pub counters : (i : ℕ) → mux.ts_continuity_counter i < 16
  pub pids : (i : ℕ) → mux.track_pid i < 2 ^ 13
  pub tracks : mux.track_cnt ≤ 2

module _ (f : Files) where
  -- With a cache writer, the table of checksums is there.
  abbrev pub HasTable : Option f.Writer → List ℕ → Type 0
  HasTable w table = (w ≡ none) ⊎ (table ≡ init_crc_table)

  pub record IsSound (s : TsContext f) : Type 0 where
    pub bounded : IsBounded s.mux
    pub table : HasTable s.files.cache_writer s.mux.crc_table

  take_stream_writer :
      (st : Option f.Stream) (s : FileState f)
      → (take_stream f st s).1.cache_writer ≡ s.cache_writer
  unfolding take_stream
  take_stream_writer none s = refl
  take_stream_writer (some st) s = refl

  file_ioctrl_writer :
      (cmd : IoctrlCmd) (s : FileState f) → (file_ioctrl f cmd s).1.cache_writer ≡ s.cache_writer
  unfolding file_ioctrl
  file_ioctrl_writer (set_track_info info) s = refl
  file_ioctrl_writer (set_total_time t) s = refl
  file_ioctrl_writer (set_fallocate_len n) s = refl
  file_ioctrl_writer (set_tfcard_state n) s = refl
  file_ioctrl_writer (set_cache_mode n) s = refl
  file_ioctrl_writer (set_cache_size n) s = refl
  file_ioctrl_writer (set_stream_callback cb) s = refl
  file_ioctrl_writer (set_stream_fd fd) s = take_stream_writer (f.open_fd fd) s
  file_ioctrl_writer (set_stream_filepath path) s = take_stream_writer (f.open_path path) s
  file_ioctrl_writer unknown_cmd s = refl

  file_cmd-IsSound :
      (cmd : IoctrlCmd) (s : TsContext f) → IsSound s → IsSound (ts_file_cmd f cmd s).1
  unfolding ts_file_cmd
  file_cmd-IsSound cmd s h = record {
    bounded = h.bounded;
    table = subst (λ w. HasTable w s.mux.crc_table) (sym (file_ioctrl_writer cmd s.files)) h.table;
  }

  track_info-IsSound :
      (info : Option MediaTrackInfo) (s : TsContext f)
      → IsSound s
      → IsSound (ts_set_track_info f info s).1
  unfolding ts_set_track_info
  track_info-IsSound none s h = h
  track_info-IsSound (some info) s h = elim (Bool-cases (info.video_enc_type == venc_codec_h264)) [
    | inl yes_h264 ↦ rw yes_h264 (record { bounded = h.bounded; table = h.table })
    | inr other ↦ rw other (record { bounded = h.bounded; table = h.table })
  ]

  pub ioctrl-IsSound :
      (cmd : IoctrlCmd) (s : TsContext f) → IsSound s → IsSound (mpeg2ts_muxer_ioctrl f cmd s).1
  unfolding mpeg2ts_muxer_ioctrl
  ioctrl-IsSound (set_track_info info) s h = track_info-IsSound info s h
  ioctrl-IsSound (set_total_time t) s h = record { bounded = h.bounded; table = h.table }
  ioctrl-IsSound (set_fallocate_len n) s h = file_cmd-IsSound (set_fallocate_len n) s h
  ioctrl-IsSound (set_tfcard_state n) s h = file_cmd-IsSound (set_tfcard_state n) s h
  ioctrl-IsSound (set_cache_mode n) s h = file_cmd-IsSound (set_cache_mode n) s h
  ioctrl-IsSound (set_cache_size n) s h = file_cmd-IsSound (set_cache_size n) s h
  ioctrl-IsSound (set_stream_callback cb) s h = file_cmd-IsSound (set_stream_callback cb) s h
  ioctrl-IsSound (set_stream_fd fd) s h = file_cmd-IsSound (set_stream_fd fd) s h
  ioctrl-IsSound (set_stream_filepath path) s h = file_cmd-IsSound (set_stream_filepath path) s h
  ioctrl-IsSound unknown_cmd s h = h

  pub csd-IsSound :
      (csd : List ℕ) (idx : ℕ) (s : TsContext f)
      → IsSound s
      → IsSound (mpeg2ts_muxer_write_csd f csd idx s)
  unfolding mpeg2ts_muxer_write_csd
  csd-IsSound csd idx s h = record {
    bounded = record {
      pat = h.bounded.pat;
      pmt = h.bounded.pmt;
      counters = h.bounded.counters;
      pids = h.bounded.pids;
      tracks = h.bounded.tracks;
    };
    table = h.table;
  }

  set_tracks-IsSound : (s : TsContext f) → IsBounded s.mux → IsSound (ts_set_tracks f s)
  unfolding ts_set_tracks header_pids
  set_tracks-IsSound s h = record {
    bounded = record {
      pat = h.pat;
      pmt = h.pmt;
      counters = h.counters;
      pids = λ i. ground arith;
      tracks = ground arith;
    };
    table = inr refl;
  }

  open_cache-IsSound :
      (st : f.Stream) (s : TsContext f) → IsSound s → IsSound (ts_open_cache f st s).1
  unfolding ts_open_cache
  open_cache-IsSound st s h = elim (Bool-cases (s.files.cache_mode == cachemode_simple)) [
    | inl simple ↦
        rw simple
          (by_writer (f.cache_handle_create s.files.cache_mode st s.files.cache_simple_size))
    | inr other ↦ rw other h
  ]
    where
      by_writer :
          (o : Option f.Writer)
          → IsSound
              (elim o as (λ _. Bool × TsContext f) [
                | none ↦ (false, s)
                | some w ↦ (
                  true,
                  ts_set_tracks f (record s { files = record (s.files) { cache_writer = some w } }),
                )
              ]).1
      by_writer none = h
      by_writer (some w) = set_tracks-IsSound _ h.bounded

  pub header-IsSound : (s : TsContext f) → IsSound s → IsSound (mpeg2ts_muxer_write_header f s).1
  unfolding mpeg2ts_muxer_write_header
  header-IsSound s h = by_files s.files.cache_writer s.files.stream
    where
      by_files :
          (w : Option f.Writer) (st : Option f.Stream)
          → IsSound
              (elim w as (λ _. Bool × TsContext f) [
                | some w' ↦ (false, s)
                | none ↦ elim st as (λ _. Bool × TsContext f) [
                  | none ↦ (true, ts_set_tracks f s)
                  | some st' ↦ ts_open_cache f st' s
                ]
              ]).1
      by_files (some w) st = h
      by_files none none = set_tracks-IsSound s h.bounded
      by_files none (some st) = open_cache-IsSound st s h

  pub mux-IsReady :
      (mux : AvFormatContext) → IsBounded mux → mux.crc_table ≡ init_crc_table → IsReady mux
  mux-IsReady mux h table = record {
    pat = h.pat;
    pmt = h.pmt;
    counters = h.counters;
    pids = h.pids;
    table = table;
    tracks = h.tracks;
  }

  abbrev pub SoundResult : Calls × TsContext f → Type 0
  SoundResult r = IsSound r.1

  pub packet-IsSound :
      (pcr_of : ℕ → ℕ) (mem : Memory) (pkt : AvPacket) (s : TsContext f)
      → IsSound s
      → Ends SoundResult (mpeg2ts_muxer_write_packet f pcr_of mem pkt s)
  unfolding mpeg2ts_muxer_write_packet
  packet-IsSound pcr_of mem pkt s h = by_writer s.files.cache_writer refl
    where
      by_result :
          (r : Option (Calls × AvFormatContext))
          → Ends StillReady r
          → Ends SoundResult (elim r as (λ _. Option (Calls × TsContext f)) [
            | none ↦ none
            | some c ↦ some (c.0, record s { mux = c.1 })
          ])
      by_result none e = tt
      by_result (some c) e = record {
        bounded = record {
          pat = e.pat;
          pmt = e.pmt;
          counters = e.counters;
          pids = e.pids;
          tracks = e.tracks;
        };
        table = inr e.table;
      }

      by_writer :
          (w : Option f.Writer)
          → s.files.cache_writer ≡ w
          → Ends SoundResult (elim w as (λ _. Option (Calls × TsContext f)) [
            | none ↦ none
            | some w' ↦ elim (mpeg2ts_write_packet pcr_of mem pkt s.mux) [
              | none ↦ none
              | some c ↦ some (c.0, record s { mux = c.1 })
            ]
          ])
      by_writer none e = tt
      by_writer (some w) e =
          let table : s.mux.crc_table ≡ init_crc_table = elim h.table [
            | inl no_writer ↦ absurd (cc (e, no_writer))
            | inr there ↦ there
          ] in
          by_result (mpeg2ts_write_packet pcr_of mem pkt s.mux)
            (mpeg2ts_write_packet-IsReady pcr_of mem pkt s.mux (mux-IsReady s.mux h.bounded table))
