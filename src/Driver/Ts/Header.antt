-- ===== src/Driver/Ts/Header.antt =====
-- What `Mpeg2tsMuxerWriteHeader` of Mpeg2tsMuxerDrv.c makes ready.
use pluto_project.Base.{ℕ, ◌≤◌, ◌<◌, ◌≡◌, ◌≢◌, refl, true, false, none, some, arith, ◌==◌, ==_iff}
use pluto_project.Ts.Mux.{AreApart}
use pluto_project.Driver.{Files, cachemode_simple}
use pluto_project.Driver.Ts.{
  TsContext, ts_set_tracks, ts_open_cache, mpeg2ts_muxer_write_header, header_pids,
}

not_pat : (i : ℕ) → header_pids true i ≢ 0
unfolding header_pids
not_pat i e = ground arith

not_pmt : (i : ℕ) → header_pids true i ≢ 0x1e0
unfolding header_pids
not_pmt i e = ground arith

streams : (i j : ℕ) → i ≢ j → i ≤ 1 → j ≤ 1 → header_pids true i ≢ header_pids true j
unfolding header_pids
streams i j ne hi hj e = ground arith

module _ (f : Files) where
  -- `WriteHeader` on a driver in such a state, with a stream, no cache writer yet, the simple cache mode and a
  -- track with audio, makes the writer that the cache gives, and the PIDs of its streams differ from each
  -- other and from those of the tables.
  pub write_header-AreApart :
      (s : TsContext f) (st : f.Stream) (w : f.Writer)
      → s.files.cache_writer ≡ none
      → s.files.stream ≡ some st
      → s.files.cache_mode ≡ cachemode_simple
      → f.cache_handle_create s.files.cache_mode st s.files.cache_simple_size ≡ some w
      → 0 < s.info.sample_rate
      → 0 < s.info.channel_cnt
      → ((mpeg2ts_muxer_write_header f s).0 ≡ true)
        × ((mpeg2ts_muxer_write_header f s).1.files.cache_writer ≡ some w)
        × AreApart (mpeg2ts_muxer_write_header f s).1.mux
  unfolding mpeg2ts_muxer_write_header ts_open_cache ts_set_tracks header_pids
  write_header-AreApart s st w no_writer has_stream simple made rate channels =
      let mode : (s.files.cache_mode == cachemode_simple) ≡ true = (==_iff _ _).1 simple in
      let sounds : (s.info.sample_rate == 0) ≡ false = ground arith in
      let speakers : (s.info.channel_cnt == 0) ≡ false = ground arith in
      rw (no_writer, has_stream, mode, made, sounds, speakers)
        (
          refl,
          refl,
          record {
            not_pat = λ i hi. not_pat i;
            not_pmt = λ i hi. not_pmt i;
            streams = λ i j other hi hj. streams i j other (omega (arith, hi)) (omega (arith, hj));
          },
        )
