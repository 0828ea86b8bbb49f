-- ===== src/Stream/Descriptor/Window/Back.antt =====
-- A write and a read of the stream over a file descriptor of mm_stream_file.c, when none is short.
use pluto_project.Base.{
  ℕ, ≢→==, true, false, ◌+◌, ◌-◌, ◌%◌, ◌^◌, ◌≤◌, ◌<◌, ◌≡◌, ◌≢◌, refl, ap, ◌∙◌, some, List, ◌++◌,
  arith, length, length-take, take, drop, replicate, ltb, take_all, take-append, length-append,
  length-replicate, drop-append_past,
}
use pluto_project.Base.Int.{pos}
use pluto_project.Stream.{seek_set}
use pluto_project.Stream.Descriptor.{
  Descriptor, FdStream, from_offset, seek_to, mm_seek_fd_file, mm_tell_fd_file, int_size,
  mm_read_fd_file, seek_passes, mm_write_fd_file,
}
use pluto_project.Stream.Descriptor.Posix.{IsPosix, overwrite}
use pluto_project.Stream.Descriptor.Window.{View, Reply, Keeps, view_of, view, zero_plus}
use pluto_project.Stream.Descriptor.Window.Seeks.{
  seek_to-Goes, back, back_result, back_position, back_contents,
}
use pluto_project.Stream.Descriptor.Window.Moves.{read_done-Keeps, write_done-Keeps}

-- The bytes that were put at a place are found there.
found : (p : ℕ) (bs c : List ℕ) → take (length bs) (drop p (overwrite p bs c)) ≡ bs
found p bs c = rw (past) (take-append bs (drop (p + length bs) c))
  where
    head : List ℕ
    head = take p (c ++ replicate (p - length c) 0)

    long : length head ≡ p
    long = omega (
      arith,
      length-take p (c ++ replicate (p - length c) 0),
      length-append c (replicate (p - length c) 0),
      length-replicate {A = ℕ} (p - length c) 0,
    )

    past : drop p (overwrite p bs c) ≡ bs ++ drop (p + length bs) c
    past =
        let same : p - length head ≡ 0 = omega (arith, long) in
        drop-append_past p head (bs ++ drop (p + length bs) c) (omega (arith, long))
        ∙ ap (λ n. drop n (bs ++ drop (p + length bs) c)) same

module _ (d : Descriptor) (P : IsPosix d) where
  -- The file takes every byte, and gives what there is.
  pub record IsWhole : Type 0 where
    pub takes : (bs : List ℕ) (f : d.File) → (d.write bs f).0 ≡ some (length bs)
    pub gives :
        (n : ℕ) (f : d.File)
        → n < 2 ^ 31
        → (d.read n f).0 ≡ some (take n (drop (P.position f) (P.contents f)))

  -- The way back to a place that was told.
  told :
      (s : FdStream d.File)
      → s.offset ≤ s.cur_offset
      → from_offset s.offset (mm_tell_fd_file d s) ≡ pos s.cur_offset
  unfolding from_offset mm_tell_fd_file
  told s h = ground arith

  -- A write puts all its bytes at the stream's position.
  write_whole :
      (size : ℕ) (bs : List ℕ) (s : FdStream d.File)
      → IsWhole
      → s.offset ≤ s.cur_offset
      → seek_passes d (some s.cur_offset) ≡ true
      → let r = mm_write_fd_file d size bs s in
        (P.contents r.1.fd ≡ overwrite s.cur_offset bs (P.contents s.fd)) × Keeps d P s r.1
  unfolding mm_write_fd_file
  write_whole size bs s whole h passes =
      let f = (back d P s).1 in
      let wrote = whole.takes bs f in
      let (few, put, moved) = P.write_counted bs f (length bs) wrote in
      let at = back_position d P s in
      let (r, v, k) =
        write_done-Keeps d P s (d.write bs f).1 h size (d.write bs f).0 (length bs) (omega arith) in
      rw (mm_write_fd_file, back_result d P s, passes)
        (ap (λ (x : View). x.bytes) v ∙ (put ∙ laid at (back_contents d P s)), k)
    where
      laid :
          {p q : ℕ} {a b : List ℕ}
          → p ≡ q
          → a ≡ b
          → overwrite p (take (length bs) bs) a ≡ overwrite q bs b
      laid x y = rw (x, y, take_all (length bs) bs (omega arith)) refl

  -- A seek to a place in the part that is shown goes there.
  seek_there :
      (c : ℕ) (s : FdStream d.File)
      → s.offset ≤ c
      → s.offset ≤ s.cur_offset
      → let s' = (seek_to d (pos c) seek_set s).1 in
        (view d P s' ≡ view_of (P.contents s.fd) c) × Keeps d P s s'
  seek_there c s within h =
      let shown : ltb c s.offset ≡ false = ground arith in
      let (goes, k) =
        seek_to-Goes d P (pos c) seek_set s s (some c) (ap some (zero_plus c)) refl refl refl h in
      (ap (λ (x : Reply × View). x.1) goes ∙ ap (view_of (P.contents s.fd)) (rw shown refl), k)

  fits : (n : ℕ) → n < 2 ^ 31 → int_size d n ≡ n
  unfolding int_size
  fits n small = ground arith

  read_whole :
      (n : ℕ) (s : FdStream d.File)
      → IsWhole
      → n < 2 ^ 31
      → s.offset ≤ s.cur_offset
      → (s3 : FdStream d.File) × (mm_read_fd_file d n s
          ≡ some (some (take n (drop s.cur_offset (P.contents s.fd))), s3))
  unfolding mm_read_fd_file
  read_whole n s whole small h =
      let k = int_size d n in
      let f = (back d P s).1 in
      let bs = take n (drop s.cur_offset (P.contents s.fd)) in
      let e : (d.read k f).0 ≡ some bs = given f in
      let (few, which, moved) = P.read_counted k f bs e in
      let at = back_position d P s in
      let (s', done, v, keeps) =
        read_done-Keeps d P s (d.read k f).1 h (some bs) (length bs) (omega arith) in
      (s', rw (mm_read_fd_file, back_result d P s, e) done)
    where
      cut : {p q : ℕ} {a b : List ℕ} → p ≡ q → a ≡ b → take n (drop p a) ≡ take n (drop q b)
      cut x y = rw (x, y) refl

      given :
          (f : d.File)
          → (d.read (int_size d n) (back d P s).1).0
            ≡ some (take n (drop s.cur_offset (P.contents s.fd)))
      given f =
          ap (λ m. (d.read m (back d P s).1).0) (fits n small)
          ∙ whole.gives n (back d P s).1 small
          ∙ ap some (cut (back_position d P s) (back_contents d P s))

  -- What is written to the stream is read back from the place where the stream said it was, on a file
  -- that takes every byte and gives what there is, for less than 2 ^ 31 bytes, unless the position is
  -- 2 ^ 32 - 1 more than a multiple of 2 ^ 32.
  pub write-read :
      (size : ℕ) (bs : List ℕ) (s : FdStream d.File)
      → IsWhole
      → length bs < 2 ^ 31
      → s.offset ≤ s.cur_offset
      → s.cur_offset % 2 ^ 32 ≢ 2 ^ 32 - 1
      → let (n, s1) = mm_write_fd_file d size bs s in
        let (done, s2) = mm_seek_fd_file d (mm_tell_fd_file d s) seek_set s1 in
        (s3 : FdStream d.File) × (mm_read_fd_file d (length bs) s2 ≡ some (some bs, s3))
  unfolding mm_seek_fd_file seek_passes
  write-read size bs s whole small h at =
      let s1 = (mm_write_fd_file d size bs s).1 in
      let passes : seek_passes d (some s.cur_offset) ≡ true = rw (≢→== _ _ at) refl in
      let (put, (same, within)) = write_whole size bs s whole h passes in
      let o = ap (λ n. from_offset n (mm_tell_fd_file d s)) same ∙ told s h in
      let (v, (same2, within2)) = seek_there s.cur_offset s1 (omega arith) (omega arith) in
      let s2 = (seek_to d (pos s.cur_offset) seek_set s1).1 in
      let (s3, e) = read_whole (length bs) s2 whole small (omega arith) in
      let there = ap (λ (x : View). x.at) v in
      let what = ap (λ (x : View). x.bytes) v ∙ put in
      rw (mm_seek_fd_file, o)
        (
          s3,
          e
              ∙ ap (λ (l : List ℕ). some (some l, s3))
                  (cut there what ∙ found s.cur_offset bs (P.contents s.fd)),
        )
    where
      cut :
          {p q : ℕ} {a b : List ℕ}
          → p ≡ q
          → a ≡ b
          → take (length bs) (drop p a) ≡ take (length bs) (drop q b)
      cut x y = rw (x, y) refl
