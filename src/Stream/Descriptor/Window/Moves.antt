-- ===== src/Stream/Descriptor/Window/Moves.antt =====
-- Reads and writes of the stream over a file descriptor of mm_stream_file.c.
use pluto_project.Base.{
  u32, ◌-◌, ◌^◌, Bool-cases, ℕ, ◌+◌, ◌/◌, ◌≤◌, ◌≡◌, inl, inr, refl, ap, ◌∙◌, false, Option, none,
  some, List, arith, length, take, drop, ltb, Bool-cases,
}
use pluto_project.Base.Int.{pos}
use pluto_project.Stream.{seek_cur}
use pluto_project.Stream.Descriptor.{
  Descriptor, FdStream, int_size, read_done, mm_read_fd_file, seek_passes, write_done,
  mm_write_fd_file,
}
use pluto_project.Stream.Descriptor.Posix.{IsPosix, overwrite}
use pluto_project.Stream.Descriptor.Window.{
  write, read, written, got, view_of, views, plus_zero, both, view, Keeps, Goes,
}
use pluto_project.Stream.Descriptor.Window.Seeks.{
  back, back_result, back_position, back_contents, here,
}

module _ (d : Descriptor) (P : IsPosix d) where
  -- Where the position lands after bytes at it went by: at the descriptor's position.
  module _ (s : FdStream d.File) (f : d.File) (h : s.offset ≤ s.cur_offset) where
    abbrev after : FdStream d.File
    after = record s { fd = f }

    pub read_done-Keeps :
        (bs : Option (List ℕ)) (n : ℕ)
        → P.position f ≡ s.cur_offset + n
        → (s' : FdStream d.File) × (read_done d bs after ≡ some (bs, s'))
          × (view d P s' ≡ view_of (P.contents f) (s.cur_offset + n))
          × Keeps d P s s'
    unfolding read_done
    read_done-Keeps bs n e =
        let within : ltb (P.position f) s.offset ≡ false = ground arith in
        let c = P.lseek_contents (pos 0) seek_cur f in
        (
          record s { fd = (d.lseek (pos 0) seek_cur f).1; cur_offset = P.position f },
          rw (read_done, here d P after, within) refl,
          views c e,
          (refl, omega arith),
        )

    pub write_done-Keeps :
        (size : ℕ) (wrote : Option ℕ) (n : ℕ)
        → P.position f ≡ s.cur_offset + n
        → let r = write_done d size wrote after in
          (r.0 ≡ elim wrote [ none ↦ none | some k ↦ some (k / size) ])
          × (view d P r.1 ≡ view_of (P.contents f) (s.cur_offset + n))
          × Keeps d P s r.1
    unfolding write_done
    write_done-Keeps size wrote n e =
        let within : ltb (P.position f) s.offset ≡ false = ground arith in
        let c = P.lseek_contents (pos 0) seek_cur f in
        rw (write_done, here d P after, within) (refl, views c e, (refl, omega arith))

  -- A read of a negative count gives nothing.
  refused :
      (n : ℕ) (f : d.File) (bs : List ℕ)
      → (d.read (int_size d n) f).0 ≡ some bs
      → length bs ≤ int_size d n
      → length bs ≤ n
  unfolding int_size
  refused n f bs e few = elim (Bool-cases (ltb (u32 n) (2 ^ 31))) [
    | inl fits ↦
        let same : int_size d n ≡ u32 n = rw (int_size, fits) refl in omega (arith, same, few)
    | inr negative ↦
        let same : int_size d n ≡ u32 n + (2 ^ 64 - 2 ^ 32) = rw (int_size, negative) refl in
        let huge : 2 ^ 63 ≤ int_size d n = ground (arith, same) in
        absurd (cc (P.read_refused (int_size d n) f huge, e))
  ]

  pub read-Goes :
      (n : ℕ) (s : FdStream d.File)
      → s.offset ≤ s.cur_offset
      → (r : Option (List ℕ) × FdStream d.File) × (mm_read_fd_file d n s ≡ some r)
        × Goes d P (read n) s (got r.0, r.1)
  unfolding mm_read_fd_file
  read-Goes n s h = by_result (d.read k f).0 refl
    where
      f : d.File
      f = (back d P s).1

      k : ℕ
      k = int_size d n

      by_result :
          (o : Option (List ℕ))
          → (d.read k f).0 ≡ o
          → (r : Option (List ℕ) × FdStream d.File) × (mm_read_fd_file d n s ≡ some r)
            × Goes d P (read n) s (got r.0, r.1)
      by_result none e =
          let there = P.read_failed k f e ∙ back_position d P s in
          let (s', done, v, keeps) = read_done-Keeps s (d.read k f).1 h none 0 (omega arith) in
          let same = views (P.read_contents k f ∙ back_contents d P s) (plus_zero s.cur_offset) in
          (
            (none, s'),
            rw (mm_read_fd_file, back_result d P s, e) done,
            (inl (ap (λ x. (got none, x)) (v ∙ same)), keeps),
          )
      by_result (some bs) e =
          let at = back_position d P s in
          let all = back_contents d P s in
          let (few, which, moved) = P.read_counted k f bs e in
          let (s', done, v, keeps) =
            read_done-Keeps s (d.read k f).1 h (some bs) (length bs) (omega arith) in
          let same = views (P.read_contents k f ∙ all) refl in
          (
            (some bs, s'),
            rw (mm_read_fd_file, back_result d P s, e) done,
            (
              inr (
                bs,
                refused n f bs e few,
                which ∙ cut at all,
                ap (λ x. (got (some bs), x)) (v ∙ same),
              ),
              keeps,
            ),
          )
        where
          cut :
              {p q : ℕ} {a b : List ℕ}
              → p ≡ q
              → a ≡ b
              → take (length bs) (drop p a) ≡ take (length bs) (drop q b)
          cut x y = rw (x, y) refl

  pub write-Goes :
      (size : ℕ) (bs : List ℕ) (s : FdStream d.File)
      → s.offset ≤ s.cur_offset
      → let r = mm_write_fd_file d size bs s in Goes d P (write size bs) s (written r.0, r.1)
  unfolding mm_write_fd_file
  write-Goes size bs s h = elim (Bool-cases (seek_passes d (some s.cur_offset))) [
    | inl passes ↦
        rw (mm_write_fd_file, back_result d P s, passes) (by_result (d.write bs f).0 refl)
    | inr stops ↦
        rw (mm_write_fd_file, back_result d P s, stops)
          (inl (ap (λ x. (written none, x)) (views (back_contents d P s) refl)), (refl, h))
  ]
    where
      f : d.File
      f = (back d P s).1

      by_result :
          (o : Option ℕ)
          → (d.write bs f).0 ≡ o
          → let r = write_done d size (d.write bs f).0 (record s { fd = (d.write bs f).1 }) in
            Goes d P (write size bs) s (written r.0, r.1)
      by_result none e =
          let (unchanged, there) = P.write_failed bs f e in
          let at = back_position d P s in
          let (r, v, k) = write_done-Keeps s (d.write bs f).1 h size none 0 (omega arith) in
          let same = views (unchanged ∙ back_contents d P s) (plus_zero s.cur_offset) in
          rw e (inl (both (ap written r) (v ∙ same)), k)
      by_result (some n) e =
          let (few, put, moved) = P.write_counted bs f n e in
          let at = back_position d P s in
          let (r, v, k) = write_done-Keeps s (d.write bs f).1 h size (some n) n (omega arith) in
          let same = views (put ∙ laid at (back_contents d P s)) refl in
          rw e (inr (n, few, both (ap written r) (v ∙ same)), k)
        where
          laid :
              {p q : ℕ} {a b : List ℕ}
              → p ≡ q
              → a ≡ b
              → overwrite p (take n bs) a ≡ overwrite q (take n bs) b
          laid x y = rw (x, y) refl
