-- ===== src/Life/Mp4/Held.antt =====
-- What the driver of Mp4MuxerDrv.c holds, with its files and at its close.
use pluto_project.Base.{ℕ, ◌≡◌, refl, Option, some, List, [], ◌∷◌, ◌++◌, arith}
use pluto_project.Mp4.{video, audio, max_type}
use pluto_project.Life.{World, Prog, ◌>>◌, release}
use pluto_project.Life.Holds.{
  held, held-append, Holds, Ok, Ok-bind, releases-Ok, release-Holds, regroup,
}
use pluto_project.Life.Stream.{DataSource}
use pluto_project.Life.Stream.Kept.{given, stream_blocks}
use pluto_project.Life.Files.{
  set_stream, open_writer, close_files, file_blocks, IsFiles, set_stream-Ok, open_writer-Ok,
  close_files-Ok,
}
use pluto_project.Life.Mp4.{
  Mp4Blocks, close_blocks, LifeCall, csd, stream, cache_mode, cache_size, header, life_call,
  replaced,
}

-- What is freed before the files, and after them.
abbrev pub front : Mp4Blocks → List (Option ℕ)
front d =
    d.title_info
    ∷ some d.mov_inf_cache
    ∷ d.csd0
    ∷ some d.stream0
    ∷ d.csd1
    ∷ some d.stream1
    ∷ d.keyframes
    ∷ []

abbrev pub back : Mp4Blocks → List (Option ℕ)
back d = some d.priv_data ∷ some d.context ∷ []

abbrev pub whole : Mp4Blocks → List (Option ℕ) → List (Option ℕ)
whole d lost = front d ++ (file_blocks d.files ++ (back d ++ lost))

abbrev pub others : Mp4Blocks → List (Option ℕ) → List (Option ℕ)
others d lost = front d ++ (back d ++ lost)

files_first :
    (a : ℕ) (d : Mp4Blocks) (lost : List (Option ℕ))
    → held a (whole d lost) ≡ held a (file_blocks d.files ++ others d lost)
files_first a d lost = omega (
  arith,
  held-append a (front d) (file_blocks d.files ++ (back d ++ lost)),
  held-append a (file_blocks d.files) (back d ++ lost),
  held-append a (file_blocks d.files) (others d lost),
  held-append a (front d) (back d ++ lost),
)

abbrev pub AllSame : Mp4Blocks → Mp4Blocks → Type 0
AllSame d d' = (d'.csd0 ≡ d.csd0) × (d'.csd1 ≡ d.csd1) × (d'.files.stream ≡ d.files.stream)

module _ (rest : ℕ → ℕ) where
  -- The driver holds its objects, and what it lost is live besides.
  abbrev pub Owns : Mp4Blocks → List (Option ℕ) → World → Type 0
  Owns d lost w = IsFiles d.files × Holds (whole d lost) rest w

  pub close_blocks-Ok :
      (d : Mp4Blocks) (lost : List (Option ℕ)) (w : World)
      → Owns d lost w
      → Ok (λ _ w'. Holds lost rest w') (close_blocks d w)
  unfolding close_blocks
  close_blocks-Ok d lost w (files, h) =
      releases-Ok Q (front d) (file_blocks d.files ++ (back d ++ lost)) rest
        (close_files d.files ends) w h
        λ w' h'.
          close_files-Ok (back d ++ lost) rest (Holds lost rest) d.files ends w' (files, h')
            λ w'' h''.
              releases-Ok Q (some d.priv_data ∷ []) (some d.context ∷ lost) rest
                (release (some d.context)) w'' h'' (release-Holds (some d.context) lost rest)
    where
      Q : Unit {0} → World → Type 0
      Q u w' = Holds lost rest w'

      ends : Prog (Unit {0})
      ends = do release (some d.priv_data); release (some d.context)

  -- What a call leaves as it is of what calls can replace.
  abbrev pub Leaves : LifeCall → Mp4Blocks → Mp4Blocks → Type 0
  Leaves (csd video len) d d' = (d'.csd1 ≡ d.csd1) × (d'.files.stream ≡ d.files.stream)
  Leaves (csd audio len) d d' = (d'.csd0 ≡ d.csd0) × (d'.files.stream ≡ d.files.stream)
  Leaves (csd max_type len) d d' = ⊥
  Leaves (stream src) d d' = (d'.csd0 ≡ d.csd0) × (d'.csd1 ≡ d.csd1)
  Leaves (cache_mode n) d d' = AllSame d d'
  Leaves (cache_size n) d d' = AllSame d d'
  Leaves header d d' = AllSame d d'

  -- The driver after a call that replaced something.
  abbrev pub After : LifeCall → Mp4Blocks → List (Option ℕ) → Mp4Blocks → World → Type 0
  After c d lost d' w = Owns d' (replaced c d ++ lost) w × Leaves c d d'

  pub stream-Ok :
      (src : DataSource) (d : Mp4Blocks) (lost : List (Option ℕ)) (w : World)
      → given src ≡ []
      → Owns d lost w
      → Ok (After (stream src) d lost) (life_call (stream src) d w)
  unfolding life_call
  stream-Ok src d lost w own (files, h) =
      let ps = others d lost in
      let old = stream_blocks d.files.stream in
      Ok-bind _ (After (stream src) d lost) (set_stream src d.files w) _
        (set_stream-Ok ps rest src d.files w own (
          files,
          regroup (whole d lost) (file_blocks d.files ++ ps) rest w (λ a. files_first a d lost) h,
        ))
        λ f w' (files', h').
          let d' : Mp4Blocks = record d { files = f } in
          (
            (
              files',
              regroup (file_blocks f ++ (old ++ ps)) (whole d' (old ++ lost)) rest w'
                  (λ a. omega (
                    arith,
                    files_first a d' (old ++ lost),
                    held-append a (file_blocks f) (old ++ ps),
                    held-append a old ps,
                    held-append a (file_blocks f) (others d' (old ++ lost)),
                    held-append a (front d) (back d ++ lost),
                    held-append a (front d) (back d ++ (old ++ lost)),
                    held-append a (back d) lost,
                    held-append a (back d) (old ++ lost),
                    held-append a old lost,
                  ))
                  h',
            ),
            (refl, refl),
          )

  pub header-Ok :
      (d : Mp4Blocks) (lost : List (Option ℕ)) (w : World)
      → Owns d lost w
      → Ok (After header d lost) (life_call header d w)
  unfolding life_call
  header-Ok d lost w (files, h) =
      let ps = others d lost in
      Ok-bind _ (After header d lost) (open_writer d.files w) _
        (open_writer-Ok ps rest d.files w (
          files,
          regroup (whole d lost) (file_blocks d.files ++ ps) rest w (λ a. files_first a d lost) h,
        ))
        λ f w' (same, (files', h')).
          let d' : Mp4Blocks = record d { files = f } in
          (
            (
              files',
              regroup (file_blocks f ++ ps) (whole d' lost) rest w'
                  (λ a. omega (arith, files_first a d' lost)) h',
            ),
            (refl, refl, same),
          )
