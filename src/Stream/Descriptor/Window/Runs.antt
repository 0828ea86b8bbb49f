-- ===== src/Stream/Descriptor/Window/Runs.antt =====
-- Any sequence of calls on the stream over a file descriptor of mm_stream_file.c.
use pluto_project.Base.{◌≤◌, ◌≡◌, refl, ap, some, List, [], ◌∷◌, arith, subst}
use pluto_project.Stream.Descriptor.{Descriptor, FdStream}
use pluto_project.Stream.Descriptor.Posix.{IsPosix}
use pluto_project.Stream.Descriptor.Window.{
  FdCall, seek, write, read, get_size, elsewhere, Reply, got, nothing, views, call, view, Goes,
  calls_of, Do,
}
use pluto_project.Stream.Descriptor.Window.Seeks.{seek-Goes, get_size-Goes}
use pluto_project.Stream.Descriptor.Window.Moves.{read-Goes, write-Goes}

module _ (d : Descriptor) (P : IsPosix d) where
  -- Any call answers, and does what it should.
  pub call-Goes :
      (c : FdCall) (s : FdStream d.File)
      → s.offset ≤ s.cur_offset
      → (r : Reply × FdStream d.File) × (call d c s ≡ some r) × Goes d P c s r
  unfolding call
  call-Goes (seek o w) s h = (_, refl, seek-Goes d P o w s h)
  call-Goes (write size bs) s h = (_, refl, write-Goes d P size bs s h)
  call-Goes (read n) s h =
      let (r, e, goes) = read-Goes d P n s h in ((got r.0, r.1), rw (call, e) refl, goes)
  call-Goes get_size s h = (_, refl, get_size-Goes d P s h)
  call-Goes (elsewhere o w) s h =
      (_, refl, (ap (λ x. (nothing, x)) (views (P.lseek_contents o w s.fd) refl), (refl, h)))

-- A stream over a descriptor that POSIX describes is a window on the file from its offset on: whatever
-- calls follow one another, and wherever others who share the open file seek in between, none fails
-- an assertion; each one answers and does what it would at the stream's own position, or fails and
-- changes nothing; and the position never comes before the offset.
pub calls_of-Do :
    (d : Descriptor) (P : IsPosix d) (cs : List FdCall) (s : FdStream d.File)
    → s.offset ≤ s.cur_offset
    → (r : List Reply × FdStream d.File) × (calls_of d cs s ≡ some r)
      × Do s.offset cs (view d P s) r.0 (view d P r.1)
      × (s.offset ≤ r.1.cur_offset)
unfolding calls_of
calls_of-Do d P [] s h = (([], s), refl, (refl, refl), h)
calls_of-Do d P (c ∷ cs) s h =
    let (r, e, (does, (off, within))) = call-Goes d P c s h in
    let (rest, e', do_rest, within') = calls_of-Do d P cs r.1 (omega arith) in
    (
      (r.0 ∷ rest.0, rest.1),
      rw (calls_of, e, e') refl,
      (
        (r.0, view d P r.1),
        rest.0,
        refl,
        does,
        subst (λ n. Do n cs (view d P r.1) rest.0 (view d P rest.1)) off do_rest,
      ),
      omega arith,
    )
