-- ===== src/Stream/Descriptor.antt =====
-- mm_media/stream/mm_stream_file.c: a stream over a file descriptor (`mm_seek_fd_file` and its
-- neighbours). The stream keeps its own position, since the descriptor is a duplicate that shares
-- its position with the caller's, and shows the file from `offset` on. The kernel's calls are a parameter.
pub mod Posix
pub mod Window
mod Tests
use pluto_project.Base.{
  ℕ, ◌+◌, ◌-◌, ◌/◌, ◌^◌, Bool, true, false, Option, none, some, List, [], length, ltb, ◌==◌, u32,
  if◌then◌else◌,
}
use Prim.Native.Nat.{max}
use pluto_project.Base.Int.{ℤ, pos, negsuc, sub_ℕ}
use pluto_project.Stream.{Whence, seek_set, seek_cur, seek_end}

-- The open file behind a descriptor, `none` being the result -1. `read` gives the bytes that it put
-- into the buffer.
pub record Descriptor : Type 1 where
  pub File : Type 0
  pub lseek : ℤ → Whence → File → Option ℕ × File
  pub read : ℕ → File → Option (List ℕ) × File
  pub write : List ℕ → File → Option ℕ × File
  pub ftruncate : ℕ → File → Bool × File
  pub fallocate : ℕ → ℕ → ℕ → File → Bool × File

-- The fields of `mm_stream_info_t` for a descriptor; `mFileEndOffset` and `mFileSize` are only logged.
pub record FdStream (F : Type 0) : Type 0 where
  pub fd : F
  pub offset : ℕ
  pub cur_offset : ℕ
  pub file_end_offset : ℕ
  pub file_size : ℕ

-- `offset += stream->offset`
unfoldable pub from_offset : ℕ → ℤ → ℤ
from_offset base (pos n) = pos (base + n)
from_offset base (negsuc n) = if ltb n base then pos (base - (n + 1)) else negsuc (n - base)

module _ (d : Descriptor) where
  -- The last `lseek64` of `mm_seek_fd_file`, whose result becomes the position unless it lies before
  -- the part that is shown.
  unfoldable pub seek_to : ℤ → Whence → FdStream d.File → Bool × FdStream d.File
  seek_to o w s =
      let (r, f) = d.lseek o w s.fd in
      elim r [
        | none ↦ (false, record s { fd = f })
        | some p ↦ (true, record s { fd = f; cur_offset = if ltb p s.offset then s.offset else p })
      ]

  unfoldable pub mm_seek_fd_file : ℤ → Whence → FdStream d.File → Bool × FdStream d.File
  mm_seek_fd_file o seek_set s = seek_to (from_offset s.offset o) seek_set s
  mm_seek_fd_file o seek_cur s =
      let (r, f) = d.lseek (pos s.cur_offset) seek_set s.fd in
      elim r [
        | none ↦ (false, record s { fd = f })
        | some p ↦ seek_to o seek_cur (record s { fd = f })
      ]
  mm_seek_fd_file o seek_end s = seek_to o seek_end s

  unfoldable pub mm_tell_fd_file : FdStream d.File → ℤ
  mm_tell_fd_file s = sub_ℕ s.cur_offset s.offset

  -- After the read: the position is the descriptor's, and `none` is the `assert` that fails. The reply is
  -- the bytes that the buffer got, whose count in units of `size` is the result.
  unfoldable pub read_done :
      Option (List ℕ) → FdStream d.File → Option (Option (List ℕ) × FdStream d.File)
  read_done got s =
      let (r, f) = d.lseek (pos 0) seek_cur s.fd in
      elim r [
        | none ↦ none
        | some p ↦ if ltb p s.offset then none else some (got, record s { fd = f; cur_offset = p })
      ]

  -- `int rd_sz` made a `size_t` again: what does not fit comes out small, or above 2 ^ 63.
  unfoldable pub int_size : ℕ → ℕ
  int_size n = if ltb (u32 n) (2 ^ 31) then u32 n else u32 n + (2 ^ 64 - 2 ^ 32)

  -- `mm_read_fd_file` into a buffer of `wanted` = `size * nmemb` bytes.
  unfoldable pub mm_read_fd_file : ℕ → FdStream d.File → Option (Option (List ℕ) × FdStream d.File)
  mm_read_fd_file wanted s =
      let (r, f) = d.lseek (pos s.cur_offset) seek_set s.fd in
      elim r [
        | none ↦ some (none, record s { fd = f })
        | some p ↦
            let (got, f') = d.read (int_size wanted) f in read_done got (record s { fd = f' })
      ]

  -- Whether the `int` that takes the result of `lseek64` is not -1.
  unfoldable pub seek_passes : Option ℕ → Bool
  seek_passes none = false
  seek_passes (some p) = if u32 p == 2 ^ 32 - 1 then false else true

  -- After the write: the result in units of `size`.
  unfoldable pub write_done : ℕ → Option ℕ → FdStream d.File → Option ℕ × FdStream d.File
  write_done size wrote s =
      let (r, f) = d.lseek (pos 0) seek_cur s.fd in
      elim r [
        | none ↦ (none, record s { fd = f })
        | some p ↦ (
          elim wrote [ none ↦ none | some n ↦ some (n / size) ],
          record s { fd = f; cur_offset = if ltb p s.offset then s.offset else p },
        )
      ]

  -- `mm_write_fd_file` of a buffer of `size * nmemb` bytes.
  unfoldable pub mm_write_fd_file : ℕ → List ℕ → FdStream d.File → Option ℕ × FdStream d.File
  mm_write_fd_file size buf s =
      let (r, f) = d.lseek (pos s.cur_offset) seek_set s.fd in
      if seek_passes r
      then (let (wrote, f') = d.write buf f in write_done size wrote (record s { fd = f' }))
      else (none, record s { fd = f })

  -- The size of what is shown, also where it comes out negative.
  unfoldable pub mm_get_fd_size_file : FdStream d.File → ℤ × FdStream d.File
  mm_get_fd_size_file s =
      let (r, f) = d.lseek (pos 0) seek_end s.fd in
      (
        elim r [ none ↦ negsuc s.offset | some p ↦ sub_ℕ p s.offset ],
        record s { fd = (d.lseek (pos s.cur_offset) seek_set f).1 },
      )

  unfoldable pub mm_truncate_fd_file : ℕ → FdStream d.File → Bool × FdStream d.File
  mm_truncate_fd_file n s =
      let (done, f) = d.ftruncate n s.fd in
      (done, record s { fd = f; file_size = n; file_end_offset = n })

  unfoldable pub mm_fallocate_fd_file : ℕ → ℕ → ℕ → FdStream d.File → Bool × FdStream d.File
  mm_fallocate_fd_file mode offset len s =
      let (done, f) = d.fallocate mode offset len s.fd in (done, record s { fd = f })
