-- ===== src/Life/Handle.antt =====
-- The handles of the muxers: `muxer_writer_create` and `muxer_writer_destroy` of
-- mm_media/muxer/muxers/muxer_writer.c, with the two functions that make a handle in Mp4MuxerDrv.c and
-- Mpeg2tsMuxerDrv.c.
use pluto_project.Base.{ℕ, Option, none, some, ◌==◌, if◌then◌else◌}
use pluto_project.Driver.{MuxerKind, mp4_muxer, mpeg2ts_muxer, muxer_mode_mp4, muxer_mode_ts}
use pluto_project.Life.{Prog, pure, ◌>>=◌, stop, acquire, release}

-- `MuxerWriter`: its block, and which muxer its functions are of.
pub record MuxerHandle : Type 0 where
  pub self : ℕ
  pub kind : MuxerKind

abbrev pub handle_of : MuxerKind → Option ℕ → Option MuxerHandle
handle_of k none = none
handle_of k (some p) = some (record { self = p; kind = k })

unfoldable pub create_mp4_muxer_handle : Prog (Option MuxerHandle)
create_mp4_muxer_handle = do p ← acquire; pure (handle_of mp4_muxer p)

unfoldable pub create_mpeg2ts_muxer_handle : Prog (Option MuxerHandle)
create_mpeg2ts_muxer_handle = do p ← acquire; pure (handle_of mpeg2ts_muxer p)

unfoldable pub create_handle : ℕ → Prog (Option MuxerHandle)
create_handle mode =
    if mode == muxer_mode_mp4
    then create_mp4_muxer_handle
    else if mode == muxer_mode_ts
    then create_mpeg2ts_muxer_handle
    else pure none

-- `muxer_writer_destroy`, which reads a field of the handle before it asks for NULL.
unfoldable pub muxer_writer_destroy : Option MuxerHandle → Prog (Unit {0})
muxer_writer_destroy none = stop
muxer_writer_destroy (some h) = release (some h.self)
