-- ===== src/Life/Stream.antt =====
-- How streams are made and destroyed: mm_media/stream/mm_stream.c, and the functions for files of
-- mm_media/stream/mm_stream_file.c.
pub mod Kept
use pluto_project.Base.{
  ℕ, Bool, true, false, Option, none, some, List, [], ◌∷◌, ◌++◌, ◌==◌, if◌then◌else◌, ◌&&◌,
}
use pluto_project.Life.{
  World, Outcome, returned, stopped, Prog, pure, bound, ◌>>=◌, ◌>>◌, stop, acquire, release,
}

-- `MediaSourceType` and `MediaStreamType`
pub data SourceType : Type 0 where
  source_fd source_fp source_filepath source_callback : SourceType

-- `MediaDataSourceInfo`: what decides which file is opened. `io_direction` is 0 for reading and 1 for
-- writing; `descriptor` is the caller's, for `source_fd`.
pub record DataSource : Type 0 where
  pub is_local : Bool
  pub source_type : SourceType
  pub io_direction : ℕ
  pub descriptor : ℕ

-- The two `destory` functions.
pub data Destroyer : Type 0 where
  instream outstream : Destroyer

-- `mm_stream_info_t`: its own block and what it points to. `under` is the caller's descriptor that `fdopen`
-- has made the `FILE` over, which `fclose` closes with it.
pub record StreamHandle : Type 0 where
  pub self : ℕ
  pub source_type : SourceType
  pub destory : Destroyer
  pub fp : Option ℕ
  pub under : Option ℕ
  pub fd : Option ℕ
  pub file_path : Option ℕ
  pub align_buf : Option ℕ

-- `memset`, and `fd = -1`
abbrev pub new_stream : ℕ → SourceType → StreamHandle
new_stream self t = record {
  self = self;
  source_type = t;
  destory = instream;
  fp = none;
  under = none;
  fd = none;
  file_path = none;
  align_buf = none;
}

-- A `FILE` that was opened becomes the stream's; without one the result is -1.
abbrev pub with_fp : Destroyer → Option ℕ → StreamHandle → Option StreamHandle
with_fp d none s = none
with_fp d (some p) s = some (record s { destory = d; fp = some p })

-- The same with `fdopen`, which takes over the caller's descriptor where it succeeds.
abbrev pub with_fdopen : ℕ → Option ℕ → StreamHandle → Option StreamHandle
with_fdopen descriptor none s = none
with_fdopen descriptor (some p) s =
    some (record s { destory = outstream; fp = some p; under = some descriptor })

-- `create_instream_handle_file`. Whether `dup` fails is not asked.
unfoldable pub create_instream_handle_file : StreamHandle → Prog (Option StreamHandle)
create_instream_handle_file s w = elim s.source_type [
  | source_filepath ↦ bound (acquire w) λ p. pure (with_fp instream p s)
  | source_fd ↦ bound (acquire w) λ p. pure (some (record s { destory = instream; fd = p }))
  | source_fp ↦ returned none w
  | source_callback ↦ returned none w
]

-- `create_outstream_handle_file`
unfoldable pub create_outstream_handle_file : ℕ → StreamHandle → Prog (Option StreamHandle)
create_outstream_handle_file descriptor s w = elim s.source_type [
  | source_fd ↦ bound (acquire w) λ p. pure (with_fdopen descriptor p s)
  | source_filepath ↦ bound (acquire w) λ p. pure (with_fp outstream p s)
  | source_fp ↦ returned none w
  | source_callback ↦ returned none w
]

abbrev pub is_supported : SourceType → Bool
is_supported source_filepath = true
is_supported source_fd = true
is_supported source_fp = false
is_supported source_callback = false

-- The file of the stream, by the source and the direction.
unfoldable pub create_file : DataSource → StreamHandle → Prog (Option StreamHandle)
create_file src s =
    if is_supported src.source_type && src.is_local
    then (if src.io_direction == 0
        then create_instream_handle_file s
        else if src.io_direction == 1
        then create_outstream_handle_file src.descriptor s
        else pure none)
    else pure none

-- Without a file the stream's block is freed.
abbrev pub stream_or_free : ℕ → Option StreamHandle → Prog (Option StreamHandle)
stream_or_free self none = do release (some self); pure none
stream_or_free self (some s) = pure (some s)

abbrev pub in_block : DataSource → Option ℕ → Prog (Option StreamHandle)
in_block src none = stop
in_block src (some self) = do
  made ← create_file src (new_stream self src.source_type)
  stream_or_free self made

unfoldable pub stream_handle_create : DataSource → Prog (Option StreamHandle)
stream_handle_create src = do block ← acquire; in_block src block

-- `file_destory_instream_handle`
unfoldable pub file_destory_instream_handle : StreamHandle → Prog (Unit {0})
file_destory_instream_handle s = do
  elim s.source_type [ source_filepath ↦ release s.fp | _ ↦ pure tt ]
  release s.fd
  release s.file_path
  release s.align_buf

-- `destory_outstream_handle_file`
unfoldable pub destory_outstream_handle_file : StreamHandle → Prog (Unit {0})
destory_outstream_handle_file s = do
  release s.fp
  release s.under
  release s.fd
  release s.file_path
  release s.align_buf

abbrev pub destory_by : Destroyer → StreamHandle → Prog (Unit {0})
destory_by instream s = file_destory_instream_handle s
destory_by outstream s = destory_outstream_handle_file s

unfoldable pub stream_handle_destroy : Option StreamHandle → Prog (Unit {0})
stream_handle_destroy none = pure tt
stream_handle_destroy (some s) = do destory_by s.destory s; release (some s.self)
