-- ===== src/Stream/Descriptor/Window/Seeks.antt =====
-- Seeks, and the size, of the stream over a file descriptor of mm_stream_file.c.
use pluto_project.Base.{
  ℕ, ◌+◌, ◌≤◌, ◌≡◌, refl, ap, ◌∙◌, true, false, Option, none, some, arith, length, ltb,
  if◌then◌else◌,
}
use pluto_project.Base.Int.{ℤ, pos, sub_ℕ, moved_by}
use pluto_project.Stream.{Whence, seek_set, seek_cur, seek_end}
use pluto_project.Stream.Descriptor.{
  Descriptor, FdStream, from_offset, seek_to, mm_seek_fd_file, mm_get_fd_size_file,
}
use pluto_project.Stream.Descriptor.Posix.{IsPosix, place}
use pluto_project.Stream.Descriptor.Window.{
  View, seek, get_size, sought, sized, go, views, zero_plus, plus_zero, moved-from_offset, view,
  Keeps, Goes,
}

module _ (d : Descriptor) (P : IsPosix d) where
  module _ (s : FdStream d.File) where
    abbrev pub back : Option ℕ × d.File
    back = d.lseek (pos s.cur_offset) seek_set s.fd

    pub back_result : back.0 ≡ some s.cur_offset
    back_result = P.lseek_place (pos s.cur_offset) seek_set s.fd ∙ ap some (zero_plus s.cur_offset)

    pub back_position : P.position back.1 ≡ s.cur_offset
    back_position =
        P.lseek_position (pos s.cur_offset) seek_set s.fd s.cur_offset
          (ap some (zero_plus s.cur_offset))

    pub back_contents : P.contents back.1 ≡ P.contents s.fd
    back_contents = P.lseek_contents (pos s.cur_offset) seek_set s.fd

    pub here : (d.lseek (pos 0) seek_cur s.fd).0 ≡ some (P.position s.fd)
    here = P.lseek_place (pos 0) seek_cur s.fd ∙ ap some plus_zero
      where
        plus_zero : P.position s.fd + 0 ≡ P.position s.fd
        plus_zero = omega arith

  -- The last step of a seek, from a place `q` of the descriptor.
  pub seek_to-Goes :
      (o : ℤ) (w : Whence) (s s0 : FdStream d.File) (t : Option ℕ)
      → place (P.position s0.fd) (length (P.contents s0.fd)) o w ≡ t
      → P.contents s0.fd ≡ P.contents s.fd
      → s0.offset ≡ s.offset
      → s0.cur_offset ≡ s.cur_offset
      → s.offset ≤ s.cur_offset
      → ((sought (seek_to d o w s0).0, view d P (seek_to d o w s0).1) ≡ go s.offset (view d P s) t)
        × Keeps d P s (seek_to d o w s0).1
  unfolding seek_to
  seek_to-Goes o w s s0 none e same off cur h =
      let r = P.lseek_place o w s0.fd ∙ e in
      let c = P.lseek_contents o w s0.fd ∙ same in
      rw (seek_to, r) (ap (λ (v : View). (sought false, v)) (views c cur), (off, omega arith))
  seek_to-Goes o w s s0 (some p) e same off cur h =
      let r = P.lseek_place o w s0.fd ∙ e in
      let c = P.lseek_contents o w s0.fd ∙ same in
      rw (seek_to, r)
        (
          ap (λ (v : View). (sought true, v)) (views c (ap (λ n. if ltb p n then n else p) off)),
          (off, clamped),
        )
    where
      clamped : s.offset ≤ (if ltb p s0.offset then s0.offset else p)
      clamped = ground arith

  pub seek-Goes :
      (o : ℤ) (w : Whence) (s : FdStream d.File)
      → s.offset ≤ s.cur_offset
      → let r = mm_seek_fd_file d o w s in Goes d P (seek o w) s (sought r.0, r.1)
  unfolding mm_seek_fd_file
  seek-Goes o seek_set s h =
      seek_to-Goes (from_offset s.offset o) seek_set s s _ (moved-from_offset s.offset o) refl refl
        refl h
  seek-Goes o seek_end s h = seek_to-Goes o seek_end s s _ refl refl refl refl h
  seek-Goes o seek_cur s h =
      let there = back_position s in
      let c = P.lseek_contents (pos s.cur_offset) seek_set s.fd in
      rw (mm_seek_fd_file, back_result s)
        (seek_to-Goes o seek_cur s (record s { fd = (back s).1 }) _ (ap (λ n. moved_by n o) there) c
          refl refl h)

  pub get_size-Goes :
      (s : FdStream d.File)
      → s.offset ≤ s.cur_offset
      → let r = mm_get_fd_size_file d s in Goes d P get_size s (sized r.0, r.1)
  unfolding mm_get_fd_size_file
  get_size-Goes s h =
      let f = (d.lseek (pos 0) seek_end s.fd).1 in
      let c =
        P.lseek_contents (pos s.cur_offset) seek_set f ∙ P.lseek_contents (pos 0) seek_end s.fd in
      let e = P.lseek_place (pos 0) seek_end s.fd in
      rw (e, plus_zero (length (P.contents s.fd)))
        (
          ap
              (λ l. (
                sized (sub_ℕ (length (P.contents s.fd)) s.offset),
                record { bytes = l; at = s.cur_offset },
              ))
              c,
          (refl, h),
        )
