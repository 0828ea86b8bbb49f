-- ===== src/Life/Mp4.antt =====
-- The objects of the MP4 driver, mm_media/muxer/mp4_muxer/Mp4MuxerDrv.c: `Mp4MuxerOpen`, the calls that
-- make or replace objects, and `Mp4MuxerClose`.
pub mod Held
pub mod Csd
pub mod Closed
pub mod Clean
use pluto_project.Base.{
  ℕ, Bool, true, false, Option, none, some, List, [], ◌∷◌, ◌++◌, ◌==◌, if◌then◌else◌,
}
use pluto_project.Mp4.{CodecType, video, audio, max_type}
use pluto_project.Life.{
  World, Outcome, returned, stopped, Prog, pure, bound, ◌>>=◌, ◌>>◌, stop, acquire, release,
}
use pluto_project.Life.Stream.{DataSource}
use pluto_project.Life.Stream.Kept.{stream_blocks}
use pluto_project.Life.Files.{
  FileHandles, no_handles, set_stream, open_writer, close_files, file_blocks,
}

-- The blocks of `AVFormatContext`, of `MOVContext` at its `priv_data` and of its tracks.
pub record Mp4Blocks : Type 0 where
  pub context : ℕ
  pub priv_data : ℕ
  pub stream0 : ℕ
  pub stream1 : ℕ
  pub title_info : Option ℕ
  pub mov_inf_cache : ℕ
  pub keyframes : Option ℕ
  pub csd0 : Option ℕ
  pub csd1 : Option ℕ
  pub files : FileHandles

-- `Mp4MuxerOpen` returns 0 with the objects, or -1, where it leaves what it had got behind.
pub data Opened (D : Type 0) : Type 0 where
  opened : D → Opened D
  left_behind : List (Option ℕ) → Opened D

-- The tables, and the key frames whose allocation is not asked about.
abbrev pub with_tables : ℕ → ℕ → ℕ → ℕ → Option ℕ → Option ℕ → Prog (Opened Mp4Blocks)
with_tables context mov stream0 stream1 title none =
    pure (left_behind (title ∷ some stream1 ∷ some stream0 ∷ some mov ∷ some context ∷ []))
with_tables context mov stream0 stream1 title (some tables) = do
  keyframes ← acquire
  pure (
      opened (record {
        context = context;
        priv_data = mov;
        stream0 = stream0;
        stream1 = stream1;
        title_info = title;
        mov_inf_cache = tables;
        keyframes = keyframes;
        csd0 = none;
        csd1 = none;
        files = no_handles;
      }))

-- A stream for which there is no memory stops the process at its `memset`.
abbrev pub with_stream1 : ℕ → ℕ → ℕ → Option ℕ → Prog (Opened Mp4Blocks)
with_stream1 context mov stream0 none = stop
with_stream1 context mov stream0 (some stream1) = do
  title ← acquire
  tables ← acquire
  with_tables context mov stream0 stream1 title tables

abbrev pub with_stream0 : ℕ → ℕ → Option ℕ → Prog (Opened Mp4Blocks)
with_stream0 context mov none = stop
with_stream0 context mov (some stream0) = do
  stream1 ← acquire
  with_stream1 context mov stream0 stream1

abbrev pub with_movie : ℕ → Option ℕ → Prog (Opened Mp4Blocks)
with_movie context none = pure (left_behind (some context ∷ []))
with_movie context (some mov) = do stream0 ← acquire; with_stream0 context mov stream0

abbrev pub with_block : Option ℕ → Prog (Opened Mp4Blocks)
with_block none = pure (left_behind [])
with_block (some context) = do mov ← acquire; with_movie context mov

unfoldable pub open_blocks : Prog (Opened Mp4Blocks)
open_blocks = do context ← acquire; with_block context

-- `Mp4MuxerWriteCSD`: the copy takes the place of the old one, which is not freed. Without memory for it
-- the process stops at `memcpy`.
abbrev pub put_csd : CodecType → Option ℕ → Mp4Blocks → Mp4Blocks
put_csd video p d = record d { csd0 = p }
put_csd audio p d = record d { csd1 = p }
put_csd max_type p d = d

abbrev pub csd_of : CodecType → Mp4Blocks → Option ℕ
csd_of video d = d.csd0
csd_of audio d = d.csd1
csd_of max_type d = none

abbrev pub copy_csd : CodecType → Mp4Blocks → Option ℕ → Prog Mp4Blocks
copy_csd idx d none = stop
copy_csd idx d (some p) = pure (put_csd idx (some p) d)

unfoldable pub write_csd : CodecType → ℕ → Mp4Blocks → Prog Mp4Blocks
write_csd max_type len d = stop
write_csd video len d =
    if len == 0 then pure (put_csd video none d) else (do p ← acquire; copy_csd video d p)
write_csd audio len d =
    if len == 0 then pure (put_csd audio none d) else (do p ← acquire; copy_csd audio d p)

-- `Mp4MuxerClose`
unfoldable pub close_blocks : Mp4Blocks → Prog (Unit {0})
close_blocks d = do
  release d.title_info
  release (some d.mov_inf_cache)
  release d.csd0
  release (some d.stream0)
  release d.csd1
  release (some d.stream1)
  release d.keyframes
  close_files d.files (do release (some d.priv_data); release (some d.context))

-- The calls of an open driver that make or replace objects; the others do neither.
pub data LifeCall : Type 0 where
  csd : CodecType → ℕ → LifeCall
  stream : DataSource → LifeCall
  cache_mode cache_size : ℕ → LifeCall
  header : LifeCall

unfoldable pub life_call : LifeCall → Mp4Blocks → Prog Mp4Blocks
life_call (csd idx len) d = write_csd idx len d
life_call (stream src) d = do h ← set_stream src d.files; pure (record d { files = h })
life_call (cache_mode n) d = pure (record d { files = record (d.files) { cache_mode = n } })
life_call (cache_size n) d = pure (record d { files = record (d.files) { cache_simple_size = n } })
life_call header d = do h ← open_writer d.files; pure (record d { files = h })

-- What a call replaces without freeing it.
abbrev pub replaced : LifeCall → Mp4Blocks → List (Option ℕ)
replaced (csd idx len) d = csd_of idx d ∷ []
replaced (stream src) d = stream_blocks d.files.stream
replaced (cache_mode n) d = []
replaced (cache_size n) d = []
replaced header d = []

-- Calls, and then the close; the result is what they replaced.
unfoldable pub calls_and_close :
    List LifeCall → Mp4Blocks → List (Option ℕ) → Prog (List (Option ℕ))
calls_and_close [] d lost = do close_blocks d; pure lost
calls_and_close (c ∷ cs) d lost = do
  d' ← life_call c d
  calls_and_close cs d' (replaced c d ++ lost)

abbrev pub after_open : List LifeCall → Opened Mp4Blocks → Prog (List (Option ℕ))
after_open cs (left_behind ps) = pure ps
after_open cs (opened d) = calls_and_close cs d []

-- A driver from its opening to its close, or to a failure to open. The result is what stays live.
unfoldable pub life : List LifeCall → Prog (List (Option ℕ))
life cs = do d ← open_blocks; after_open cs d
