-- ===== src/Stream.antt =====
-- mm_media/stream: the output stream over a C file (`mm_write_stream_file` and its neighbours in
-- mm_stream_file.c), with the error fields of mm_stream.h that mm_cache.c keeps in it.
-- The C library's file is a parameter: what `fwrite` and its kin do is not code of the repository.
pub mod Memory
pub mod Descriptor
use pluto_project.Base.{ℕ, ◌+◌, ◌≡◌, Bool, Option, none, some, List, [], ◌++◌, length}

-- The third argument of `fseeko`.
pub data Whence : Type 0 where
  seek_set seek_cur seek_end : Whence

-- An open `FILE`. `fwrite` returns the count of bytes it took, the `errno` that it left and the
-- file, `fread` the bytes that it put into the buffer; `fseeko`, `ftruncate` and `fallocate` say whether they succeeded; `ftello` is `none` for -1.
pub record Device : Type 1 where
  pub File : Type 0
  pub fwrite : List ℕ → File → ℕ × ℕ × File
  pub fread : ℕ → File → List ℕ × File
  pub fseeko : ℕ → Whence → File → Bool × File
  pub ftello : File → Option ℕ
  pub ftruncate : ℕ → File → Bool × File
  pub fallocate : ℕ → ℕ → ℕ → File → Bool × File

-- What the C library documents of a file on which no write fails: a write takes all its bytes and
-- moves the position past them, two writes in a row are one write of both, and a seek from the
-- start sets the position.
pub record Reliable (d : Device) : Type 0 where
  pub position : d.File → ℕ
  pub fwrite_all : (bs : List ℕ) (f : d.File) → (d.fwrite bs f).0 ≡ length bs
  pub fwrite-nil : (f : d.File) → (d.fwrite [] f).2 ≡ f
  pub fwrite-append :
      (xs ys : List ℕ) (f : d.File) → (d.fwrite (xs ++ ys) f).2 ≡ (d.fwrite ys (d.fwrite xs f).2).2
  pub position-fwrite :
      (bs : List ℕ) (f : d.File) → position (d.fwrite bs f).2 ≡ position f + length bs
  pub position-fseeko : (o : ℕ) (f : d.File) → position (d.fseeko o seek_set f).1 ≡ o
  pub ftello-position : (f : d.File) → d.ftello f ≡ some (position f)

-- `mm_stream_info_t` of an output stream. `notified` counts the calls of the callback `mCB.cb`.
pub record Stream (F : Type 0) : Type 0 where
  pub fp : F
  pub write_err_cnt : ℕ
  pub write_err_no : ℕ
  pub has_callback : Bool
  pub notified : ℕ

module _ (d : Device) where
  unfoldable pub mm_write_stream_file : List ℕ → Stream d.File → ℕ × ℕ × Stream d.File
  mm_write_stream_file buf s =
      let (n, errno, f) = d.fwrite buf s.fp in (n, errno, record s { fp = f })

  unfoldable pub mm_seek_stream_file : ℕ → Whence → Stream d.File → Bool × Stream d.File
  mm_seek_stream_file o w s = let (done, f) = d.fseeko o w s.fp in (done, record s { fp = f })

  unfoldable pub mm_tell_stream_file : Stream d.File → Option ℕ
  mm_tell_stream_file s = d.ftello s.fp

  unfoldable pub mm_truncate_stream_file : ℕ → Stream d.File → Bool × Stream d.File
  mm_truncate_stream_file n s = let (done, f) = d.ftruncate n s.fp in (done, record s { fp = f })

  -- The bytes that the buffer got; their count is the result.
  unfoldable pub mm_read_stream_file : ℕ → Stream d.File → List ℕ × Stream d.File
  mm_read_stream_file n s = let (bs, f) = d.fread n s.fp in (bs, record s { fp = f })

  unfoldable pub mm_fallocate_stream_file : ℕ → ℕ → ℕ → Stream d.File → Bool × Stream d.File
  mm_fallocate_stream_file mode offset len s =
      let (done, f) = d.fallocate mode offset len s.fp in (done, record s { fp = f })

  -- The way back to the place where the stream was; from -1 there is none.
  unfoldable pub go_back : Option ℕ → Stream d.File → Stream d.File
  go_back none s = s
  go_back (some o) s = record s { fp = (d.fseeko o seek_set s.fp).1 }

  -- `mm_get_stream_size_file` of a local file that was opened by its path, `none` for -1.
  unfoldable pub mm_get_stream_size_file : Stream d.File → Option ℕ × Stream d.File
  mm_get_stream_size_file s =
      let (done, f) = d.fseeko 0 seek_end s.fp in
      (d.ftello f, go_back (d.ftello s.fp) (record s { fp = f }))
