-- ===== src/Driver/Ts/Tests.antt =====
-- The theorems on the driver of the TS muxer at concrete calls.
use pluto_project.Base.{ℕ, ◌%◌, refl, true, some, ◌∷◌, arith, replicate}
use pluto_project.Stream.Memory.{MemoryFile, memory, memory-Reliable}
use pluto_project.Cache.Writer.{Live}
use pluto_project.Ts.Unit.Counters.{IsReady}
use pluto_project.Driver.{
  set_track_info, set_cache_mode, set_cache_size, set_stream_fd, file_ioctrl, take_stream, no_files,
}
use pluto_project.Driver.Tests.{numbered, camera}
use pluto_project.Driver.Ts.{
  TsContext, no_info, zero_context, mpeg2ts_muxer_open, mpeg2ts_muxer_ioctrl,
  mpeg2ts_muxer_write_header, ts_set_track_info, ts_file_cmd, ts_open_cache, ts_set_tracks,
}
use pluto_project.Driver.Ts.Reached.{Reached, opened, controlled, headed, reached-IsReady}

-- A new driver, and the calls that set it up.
abbrev new_ts : TsContext numbered
new_ts = record {
  info = no_info;
  track_duration = 0;
  files = no_files numbered;
  mux = zero_context;
}

abbrev described : TsContext numbered
described = (mpeg2ts_muxer_ioctrl numbered (set_track_info (some camera)) new_ts).1

abbrev moded : TsContext numbered
moded = (mpeg2ts_muxer_ioctrl numbered (set_cache_mode 1) described).1

abbrev sized : TsContext numbered
sized = (mpeg2ts_muxer_ioctrl numbered (set_cache_size 4096) moded).1

abbrev with_stream : TsContext numbered
with_stream = (mpeg2ts_muxer_ioctrl numbered (set_stream_fd 7) sized).1

-- The calls, as they are reached for any clock.
set_up : Reached numbered (λ t. t) with_stream
unfolding mpeg2ts_muxer_open
set_up = controlled sized (set_stream_fd 7) (
    controlled moded (set_cache_size 4096) (
      controlled described (set_cache_mode 1)
        (controlled new_ts (set_track_info (some camera)) (opened new_ts refl))))

reached-IsReady_example : IsReady (mpeg2ts_muxer_write_header numbered with_stream).1.mux
unfolding mpeg2ts_muxer_ioctrl mpeg2ts_muxer_write_header ts_set_track_info ts_file_cmd file_ioctrl
    take_stream ts_open_cache ts_set_tracks
reached-IsReady_example =
    reached-IsReady numbered (mpeg2ts_muxer_write_header numbered with_stream).1 4096
      (headed with_stream set_up) refl

-- A file of nine bytes at its end, and a cache of 512 bytes that holds two.
abbrev begun : MemoryFile
begun = record { bytes = λ i. 0; at = 9; size = 9 }

abbrev live : Live memory memory-Reliable
live = (
  record {
    stream = record {
      fp = begun;
      write_err_cnt = 0;
      write_err_no = 0;
      has_callback = true;
      notified = 0;
    };
    cache = 7 ∷ 8 ∷ replicate 510 0;
    cache_size = 512;
    valid_len = 2;
  },
  record { sized = refl; room = omega arith },
  λ e. omega arith,
)

-- Where the frames lie.
abbrev frames_at : ℕ → ℕ
frames_at p = p % 256
