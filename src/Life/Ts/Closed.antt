-- ===== src/Life/Ts/Closed.antt =====
-- What the driver of Mpeg2tsMuxerDrv.c leaves live when it was closed.
use pluto_project.Base.{
  ℕ, ◌≡◌, refl, Bool, true, false, Option, none, some, List, [], ◌∷◌, ◌++◌, arith, ◌==◌, Bool-cases,
  inl, inr,
}
use pluto_project.Life.{World, release}
use pluto_project.Life.Holds.{
  held, held-append, held-cons, Holds, Ok, Ok-bind, acquire-Ok, release-Holds, regroup,
}
use pluto_project.Life.Stream.{DataSource}
use pluto_project.Life.Stream.Kept.{given, stream_blocks}
use pluto_project.Life.Files.{
  set_stream, open_writer, file_blocks, IsFiles, set_stream-Ok, open_writer-Ok, close_files-Ok,
}
use pluto_project.Life.Ts.{
  TsBlocks, ts_blocks, open_ts, put_ts_csd, ts_csd, copy_ts_csd, write_ts_csd, close_ts, TsCall,
  csd, stream, cache_mode, cache_size, header, ts_call, ts_replaced, ts_calls_and_close,
  after_ts_open, ts_life,
}

-- What is live besides the files.
abbrev others : TsBlocks → List (Option ℕ) → List (Option ℕ)
others d lost = some d.context ∷ d.csd0 ∷ d.csd1 ∷ lost

-- No stream takes over a descriptor of the caller.
abbrev IsOwning : TsCall → Type 0
IsOwning (csd is_video len) = Unit
IsOwning (stream src) = given src ≡ []
IsOwning (cache_mode n) = Unit
IsOwning (cache_size n) = Unit
IsOwning header = Unit

abbrev pub AreOwning : List TsCall → Type 0
AreOwning [] = Unit
AreOwning (c ∷ cs) = IsOwning c × AreOwning cs

module _ (rest : ℕ → ℕ) where
  abbrev Owns : TsBlocks → List (Option ℕ) → World → Type 0
  Owns d lost w = IsFiles d.files × Holds (file_blocks d.files ++ others d lost) rest w

  close_ts-Ok :
      (d : TsBlocks) (lost : List (Option ℕ)) (w : World)
      → Owns d lost w
      → Ok (λ _ w'. Holds (d.csd0 ∷ d.csd1 ∷ lost) rest w') (close_ts d w)
  unfolding close_ts
  close_ts-Ok d lost w o =
      close_files-Ok (others d lost) rest (Holds (d.csd0 ∷ d.csd1 ∷ lost) rest) d.files
        (release (some d.context)) w o
        (release-Holds (some d.context) (d.csd0 ∷ d.csd1 ∷ lost) rest)

  abbrev After : TsCall → TsBlocks → List (Option ℕ) → TsBlocks → World → Type 0
  After c d lost d' w = Owns d' (ts_replaced c d ++ lost) w

  stream-Ok :
      (src : DataSource) (d : TsBlocks) (lost : List (Option ℕ)) (w : World)
      → given src ≡ []
      → Owns d lost w
      → Ok (After (stream src) d lost) (ts_call (stream src) d w)
  unfolding ts_call
  stream-Ok src d lost w own o =
      let ps = others d lost in
      let old = stream_blocks d.files.stream in
      Ok-bind _ (After (stream src) d lost) (set_stream src d.files w) _
        (set_stream-Ok ps rest src d.files w own o)
        λ f w' (files', h'). (
          files',
          regroup (file_blocks f ++ (old ++ ps)) (file_blocks f ++ others d (old ++ lost)) rest w'
              (λ a. omega (
                arith,
                held-append a (file_blocks f) (old ++ ps),
                held-append a (file_blocks f) (others d (old ++ lost)),
                held-append a old ps,
                held-append a old lost,
                held-cons a d.csd0 (d.csd1 ∷ lost),
                held-cons a d.csd1 lost,
                held-cons a d.csd0 (d.csd1 ∷ old ++ lost),
                held-cons a d.csd1 (old ++ lost),
              ))
              h',
        )

  -- The parameter sets of a track, after a call that put others in their place.
  copied :
      (is_video : Bool) (p : Option ℕ) (d : TsBlocks) (lost : List (Option ℕ)) (a : ℕ)
      → held a (p ∷ file_blocks d.files ++ others d lost)
        ≡ held a
            (file_blocks d.files ++ others (put_ts_csd is_video p d) (ts_csd is_video d ∷ lost))
  copied true p d lost a = omega (
    arith,
    held-cons a p (file_blocks d.files ++ others d lost),
    held-append a (file_blocks d.files) (others d lost),
    held-append a (file_blocks d.files) (others (put_ts_csd true p d) (d.csd0 ∷ lost)),
    held-cons a d.csd0 (d.csd1 ∷ lost),
    held-cons a d.csd1 lost,
    held-cons a p (d.csd1 ∷ d.csd0 ∷ lost),
    held-cons a d.csd1 (d.csd0 ∷ lost),
    held-cons a d.csd0 lost,
  )
  copied false p d lost a = omega (
    arith,
    held-cons a p (file_blocks d.files ++ others d lost),
    held-append a (file_blocks d.files) (others d lost),
    held-append a (file_blocks d.files) (others (put_ts_csd false p d) (d.csd1 ∷ lost)),
    held-cons a d.csd0 (d.csd1 ∷ lost),
    held-cons a d.csd1 lost,
    held-cons a d.csd0 (p ∷ d.csd1 ∷ lost),
    held-cons a p (d.csd1 ∷ lost),
  )

  csd-Ok :
      (is_video : Bool) (len : ℕ) (d : TsBlocks) (lost : List (Option ℕ)) (w : World)
      → Owns d lost w
      → Ok (After (csd is_video len) d lost) (ts_call (csd is_video len) d w)
  unfolding ts_call write_ts_csd
  csd-Ok is_video len d lost w (files, h) = elim (Bool-cases (len == 0)) [
    | inl empty ↦ rw empty (put none w h)
    | inr more ↦ rw more (
        acquire-Ok (After (csd is_video len) d lost) (file_blocks d.files ++ others d lost) rest
          (copy_ts_csd is_video d) w h by_copy)
  ]
    where
      unchanged : (b : Bool) (p : Option ℕ) → (put_ts_csd b p d).files ≡ d.files
      unchanged true p = refl
      unchanged false p = refl

      put :
          (p : Option ℕ) (w' : World)
          → Holds (p ∷ file_blocks d.files ++ others d lost) rest w'
          → After (csd is_video len) d lost (put_ts_csd is_video p d) w'
      put p w' h' = rw (unchanged is_video p) (
        files,
        regroup (p ∷ file_blocks d.files ++ others d lost)
            (file_blocks d.files ++ others (put_ts_csd is_video p d) (ts_csd is_video d ∷ lost))
            rest w' (copied is_video p d lost) h',
      )

      by_copy :
          (p : Option ℕ) (w' : World)
          → Holds (p ∷ file_blocks d.files ++ others d lost) rest w'
          → Ok (After (csd is_video len) d lost) (copy_ts_csd is_video d p w')
      by_copy none w' h' = tt
      by_copy (some p) w' h' = put (some p) w' h'

  ts_call-Ok :
      (c : TsCall) (d : TsBlocks) (lost : List (Option ℕ)) (w : World)
      → IsOwning c
      → Owns d lost w
      → Ok (After c d lost) (ts_call c d w)
  unfolding ts_call
  ts_call-Ok (csd is_video len) d lost w own o = csd-Ok is_video len d lost w o
  ts_call-Ok (stream src) d lost w own o = stream-Ok src d lost w own o
  ts_call-Ok (cache_mode n) d lost w own o = o
  ts_call-Ok (cache_size n) d lost w own o = o
  ts_call-Ok header d lost w own o =
      Ok-bind _ (After header d lost) (open_writer d.files w) _
        (open_writer-Ok (others d lost) rest d.files w o) λ f w' (same, has). has

  abbrev Left : List (Option ℕ) → World → Type 0
  Left lost w = Holds lost rest w

  ts_calls_and_close-Ok :
      (cs : List TsCall) (d : TsBlocks) (lost : List (Option ℕ)) (w : World)
      → AreOwning cs
      → Owns d lost w
      → Ok Left (ts_calls_and_close cs d lost w)
  unfolding ts_calls_and_close
  ts_calls_and_close-Ok [] d lost w own o =
      Ok-bind _ Left (close_ts d w) _ (close_ts-Ok d lost w o) λ _ w' h. h
  ts_calls_and_close-Ok (c ∷ cs) d lost w own o =
      Ok-bind (After c d lost) Left (ts_call c d w) _ (ts_call-Ok c d lost w own.0 o)
        λ d' w' o'. ts_calls_and_close-Ok cs d' (ts_replaced c d ++ lost) w' own.1 o'

  -- The life of a TS driver, from its opening through any calls, each of whose allocations and files
  -- may fail and none of which makes an output stream over a descriptor of the caller, to its close
  -- frees nothing that is not live; and what is live at its end is what was live before, what calls
  -- replaced, and the parameter sets.
  pub ts_life-Left :
      (cs : List TsCall) (w : World) → AreOwning cs → Holds [] rest w → Ok Left (ts_life cs w)
  unfolding ts_life open_ts
  ts_life-Left cs w own h =
      Ok-bind Made Left (open_ts w) _ (acquire-Ok Made [] rest _ w h by_context) by_open
    where
      Made : Option TsBlocks → World → Type 0
      Made none w' = Holds [] rest w'
      Made (some d) w' = Owns d [] w'

      by_context : (p : Option ℕ) (w' : World) → Holds (p ∷ []) rest w' → Made (ts_blocks p) w'
      by_context none w' h' = h'
      by_context (some context) w' h' = ((tt, tt), h')

      by_open : (d : Option TsBlocks) (w' : World) → Made d w' → Ok Left (after_ts_open cs d w')
      by_open none w' h' = h'
      by_open (some d) w' o = ts_calls_and_close-Ok cs d [] w' own o
