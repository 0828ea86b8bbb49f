-- ===== src/Life/Files.antt =====
-- The stream and the cache writer that a driver keeps: how Mp4MuxerDrv.c and Mpeg2tsMuxerDrv.c make,
-- replace and destroy them.
use pluto_project.Base.{
  ℕ, ◌≡◌, refl, subst, Option, none, some, List, [], ◌++◌, arith, ◌==◌, if◌then◌else◌, Bool-cases,
  inl, inr,
}
use pluto_project.Driver.{cachemode_simple}
use pluto_project.Life.{World, Prog, pure, ◌>>=◌, ◌>>◌}
use pluto_project.Life.Holds.{held-append, Holds, Ok, Ok-bind, regroup}
use pluto_project.Life.Stream.{
  DataSource, StreamHandle, stream_handle_create, stream_handle_destroy,
}
use pluto_project.Life.Stream.Kept.{
  given, stream_blocks, IsStream, Streams, stream_handle_create-Streams, stream_handle_destroy-Ok,
}
use pluto_project.Life.Cache.{CacheHandle, cache_handle_create, cache_handle_destroy}
use pluto_project.Life.Cache.Kept.{
  cache_blocks, IsWriter, Written, cache_handle_create-Written, cache_handle_destroy-Ok,
}

-- `mpStream`, `mpCacheWriter`, `mFsCacheMode` and `mCacheSimpleSize`.
pub record FileHandles : Type 0 where
  pub stream : Option StreamHandle
  pub cache_writer : Option CacheHandle
  pub cache_mode : ℕ
  pub cache_simple_size : ℕ

-- After the driver's `memset`.
abbrev pub no_handles : FileHandles
no_handles = record { stream = none; cache_writer = none; cache_mode = 0; cache_simple_size = 0 }

-- `SET_STREAM_FD` and `SET_STREAM_FILEPATH`: the new stream takes the place of the old one, which is
-- not destroyed.
unfoldable pub set_stream : DataSource → FileHandles → Prog FileHandles
set_stream src h = do st ← stream_handle_create src; pure (record h { stream = st })

-- The cache writer that the header makes: for a stream, in the simple mode, if there is none yet.
abbrev pub writer_for : FileHandles → Option CacheHandle → Option StreamHandle → Prog FileHandles
writer_for h (some c) st = pure h
writer_for h none none = pure h
writer_for h none (some st) =
    if h.cache_mode == cachemode_simple
    then (do
      c ← cache_handle_create h.cache_mode h.cache_simple_size
      pure (record h { cache_writer = c }))
    else pure h

unfoldable pub open_writer : FileHandles → Prog FileHandles
open_writer h = writer_for h h.cache_writer h.stream

-- The end of both, in `Mp4MuxerClose` and `Mpeg2tsMuxerClose`, and what follows.
unfoldable pub close_files : FileHandles → Prog (Unit {0}) → Prog (Unit {0})
close_files h k = do _ ← cache_handle_destroy h.cache_writer; stream_handle_destroy h.stream; k

abbrev pub file_blocks : FileHandles → List (Option ℕ)
file_blocks h = cache_blocks h.cache_writer ++ stream_blocks h.stream

abbrev pub IsFiles : FileHandles → Type 0
IsFiles h = IsWriter h.cache_writer × IsStream h.stream

module _ (ps : List (Option ℕ)) (rest : ℕ → ℕ) where
  abbrev pub Has : FileHandles → World → Type 0
  Has h w = IsFiles h × Holds (file_blocks h ++ ps) rest w

  -- The old stream is still live after it was replaced. The new one takes over no descriptor.
  pub set_stream-Ok :
      (src : DataSource) (h : FileHandles) (w : World)
      → given src ≡ []
      → Has h w
      → Ok
          (λ h' w'. IsFiles h' × Holds (file_blocks h' ++ (stream_blocks h.stream ++ ps)) rest w')
          (set_stream src h w)
  unfolding set_stream
  set_stream-Ok src h w own ((writer, stream), keeps) =
      let old = file_blocks h ++ ps in
      Ok-bind (Streams old rest) _ (stream_handle_create src w) _
        (stream_handle_create-Streams old rest src w own keeps)
        λ st w' (made, keeps'). (
          (writer, made),
          regroup (stream_blocks st ++ old)
              (file_blocks (record h { stream = st }) ++ (stream_blocks h.stream ++ ps)) rest w'
              (λ a. omega (
                arith,
                held-append a (stream_blocks st) old,
                held-append a (file_blocks h) ps,
                held-append a (cache_blocks h.cache_writer) (stream_blocks h.stream),
                held-append a (cache_blocks h.cache_writer ++ stream_blocks st)
                    (stream_blocks h.stream ++ ps),
                held-append a (cache_blocks h.cache_writer) (stream_blocks st),
                held-append a (stream_blocks h.stream) ps,
              ))
              keeps',
        )

  pub open_writer-Ok :
      (h : FileHandles) (w : World)
      → Has h w
      → Ok (λ h' w'. (h'.stream ≡ h.stream) × Has h' w') (open_writer h w)
  unfolding open_writer
  open_writer-Ok h w has = by_writer h.cache_writer h.stream refl
    where
      st : List (Option ℕ)
      st = stream_blocks h.stream ++ ps

      by_writer :
          (c : Option CacheHandle) (s : Option StreamHandle)
          → h.cache_writer ≡ c
          → Ok (λ h' w'. (h'.stream ≡ h.stream) × Has h' w') (writer_for h c s w)
      by_writer (some c) s e = (refl, has)
      by_writer none none e = (refl, has)
      by_writer none (some s) e = elim (Bool-cases (h.cache_mode == cachemode_simple)) [
        | inr other ↦ rw other (refl, has)
        | inl simple ↦ rw simple (
            Ok-bind (Written st rest) _ (cache_handle_create h.cache_mode h.cache_simple_size w) _
              (cache_handle_create-Written st rest h.cache_mode h.cache_simple_size w (
                subst (λ x. Holds ((cache_blocks x ++ stream_blocks h.stream) ++ ps) rest w) e
                  has.1))
              λ c w' (made, keeps). (
                refl,
                (
                  (made, has.0.1),
                  regroup (cache_blocks c ++ st) (file_blocks (record h { cache_writer = c }) ++ ps)
                      rest w'
                      (λ a. omega (
                        arith,
                        held-append a (cache_blocks c) st,
                        held-append a (stream_blocks h.stream) ps,
                        held-append a (file_blocks (record h { cache_writer = c })) ps,
                        held-append a (cache_blocks c) (stream_blocks h.stream),
                      ))
                      keeps,
                ),
              ))
      ]

  pub close_files-Ok :
      (Q : World → Type 0) (h : FileHandles) (k : Prog (Unit {0})) (w : World)
      → Has h w
      → ((w' : World) → Holds ps rest w' → Ok (λ _. Q) (k w'))
      → Ok (λ _. Q) (close_files h k w)
  unfolding close_files
  close_files-Ok Q h k w ((writer, stream), keeps) then_k =
      let st = stream_blocks h.stream ++ ps in
      Ok-bind (λ _ w'. Holds st rest w') (λ _. Q) (cache_handle_destroy h.cache_writer w) _
        (cache_handle_destroy-Ok st rest h.cache_writer w (
          writer,
          regroup (file_blocks h ++ ps) (cache_blocks h.cache_writer ++ st) rest w
              (λ a. omega (
                arith,
                held-append a (file_blocks h) ps,
                held-append a (cache_blocks h.cache_writer) (stream_blocks h.stream),
                held-append a (cache_blocks h.cache_writer) st,
                held-append a (stream_blocks h.stream) ps,
              ))
              keeps,
        ))
        λ _ w' keeps'.
          Ok-bind (λ _ w''. Holds ps rest w'') (λ _. Q) (stream_handle_destroy h.stream w') _
            (stream_handle_destroy-Ok ps rest h.stream w' (stream, keeps'))
            λ _ w'' keeps''. then_k w'' keeps''
