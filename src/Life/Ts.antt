-- ===== src/Life/Ts.antt =====
-- The objects of the MPEG-2 TS driver, mm_media/muxer/mpeg2ts_muxer/Mpeg2tsMuxerDrv.c, from
-- `Mpeg2tsMuxerOpen` to `Mpeg2tsMuxerClose`.
pub mod Closed
use pluto_project.Base.{ℕ, Bool, Option, none, some, List, [], ◌∷◌, ◌++◌, ◌==◌, if◌then◌else◌}
use pluto_project.Life.{
  World, Outcome, returned, stopped, Prog, pure, bound, ◌>>=◌, ◌>>◌, stop, acquire, release,
}
use pluto_project.Life.Stream.{DataSource}
use pluto_project.Life.Stream.Kept.{stream_blocks}
use pluto_project.Life.Files.{FileHandles, no_handles, set_stream, open_writer, close_files}

-- The block of `AVFormatContext`, and its parameter sets.
pub record TsBlocks : Type 0 where
  pub context : ℕ
  pub csd0 : Option ℕ
  pub csd1 : Option ℕ
  pub files : FileHandles

abbrev pub ts_blocks : Option ℕ → Option TsBlocks
ts_blocks none = none
ts_blocks (some context) =
    some (record { context = context; csd0 = none; csd1 = none; files = no_handles })

unfoldable pub open_ts : Prog (Option TsBlocks)
open_ts = do context ← acquire; pure (ts_blocks context)

-- `Mpeg2tsMuxerWriteCSD` for the video (`true`) or the audio track.
abbrev pub put_ts_csd : Bool → Option ℕ → TsBlocks → TsBlocks
put_ts_csd is_video p d = if is_video then record d { csd0 = p } else record d { csd1 = p }

abbrev pub ts_csd : Bool → TsBlocks → Option ℕ
ts_csd is_video d = if is_video then d.csd0 else d.csd1

abbrev pub copy_ts_csd : Bool → TsBlocks → Option ℕ → Prog TsBlocks
copy_ts_csd is_video d none = stop
copy_ts_csd is_video d (some p) = pure (put_ts_csd is_video (some p) d)

unfoldable pub write_ts_csd : Bool → ℕ → TsBlocks → Prog TsBlocks
write_ts_csd is_video len d =
    if len == 0
    then pure (put_ts_csd is_video none d)
    else (do p ← acquire; copy_ts_csd is_video d p)

-- `Mpeg2tsMuxerClose`, which does not free the parameter sets.
unfoldable pub close_ts : TsBlocks → Prog (Unit {0})
close_ts d = close_files d.files (release (some d.context))

-- The calls of an open driver that make or replace objects.
pub data TsCall : Type 0 where
  csd : Bool → ℕ → TsCall
  stream : DataSource → TsCall
  cache_mode cache_size : ℕ → TsCall
  header : TsCall

unfoldable pub ts_call : TsCall → TsBlocks → Prog TsBlocks
ts_call (csd is_video len) d = write_ts_csd is_video len d
ts_call (stream src) d = do h ← set_stream src d.files; pure (record d { files = h })
ts_call (cache_mode n) d = pure (record d { files = record (d.files) { cache_mode = n } })
ts_call (cache_size n) d = pure (record d { files = record (d.files) { cache_simple_size = n } })
ts_call header d = do h ← open_writer d.files; pure (record d { files = h })

-- What a call replaces without freeing it.
abbrev pub ts_replaced : TsCall → TsBlocks → List (Option ℕ)
ts_replaced (csd is_video len) d = ts_csd is_video d ∷ []
ts_replaced (stream src) d = stream_blocks d.files.stream
ts_replaced (cache_mode n) d = []
ts_replaced (cache_size n) d = []
ts_replaced header d = []

-- Calls, and then the close; the result is what nothing points to any more.
unfoldable pub ts_calls_and_close :
    List TsCall → TsBlocks → List (Option ℕ) → Prog (List (Option ℕ))
ts_calls_and_close [] d lost = do close_ts d; pure (d.csd0 ∷ d.csd1 ∷ lost)
ts_calls_and_close (c ∷ cs) d lost = do
  d' ← ts_call c d
  ts_calls_and_close cs d' (ts_replaced c d ++ lost)

abbrev pub after_ts_open : List TsCall → Option TsBlocks → Prog (List (Option ℕ))
after_ts_open cs none = pure []
after_ts_open cs (some d) = ts_calls_and_close cs d []

-- A driver from its opening to its close. The result is what stays live.
unfoldable pub ts_life : List TsCall → Prog (List (Option ℕ))
ts_life cs = do d ← open_ts; after_ts_open cs d
