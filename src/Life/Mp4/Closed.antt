-- ===== src/Life/Mp4/Closed.antt =====
-- What the driver of Mp4MuxerDrv.c leaves live when it was closed.
use pluto_project.Base.{ℕ, ◌≡◌, refl, Option, none, some, List, [], ◌∷◌, ◌++◌, arith}
use pluto_project.Life.{World}
use pluto_project.Life.Holds.{held, held-cons, Holds, Ok, Ok-bind, acquire-Ok, regroup}
use pluto_project.Life.Stream.Kept.{given}
use pluto_project.Life.Files.{no_handles}
use pluto_project.Life.Mp4.Held.{whole, Owns, After, close_blocks-Ok, stream-Ok, header-Ok}
use pluto_project.Life.Mp4.Csd.{csd-Ok}
use pluto_project.Life.Mp4.{
  Mp4Blocks, Opened, opened, left_behind, with_tables, with_stream1, with_stream0, with_movie,
  with_block, open_blocks, close_blocks, LifeCall, csd, stream, cache_mode, cache_size, header,
  life_call, replaced, calls_and_close, after_open, life,
}

moved :
    (context mov s0 s1 tables : ℕ) (title keyframes : Option ℕ) (a : ℕ)
    → held a (keyframes ∷ some tables ∷ title ∷ some s1 ∷ some s0 ∷ some mov ∷ some context ∷ [])
      ≡ held a (
          title
          ∷ some tables
          ∷ none
          ∷ some s0
          ∷ none
          ∷ some s1
          ∷ keyframes
          ∷ some mov
          ∷ some context
          ∷ [])
moved context mov s0 s1 tables title keyframes a = omega (
  arith,
  held-cons a keyframes (some tables ∷ title ∷ some s1 ∷ some s0 ∷ some mov ∷ some context ∷ []),
  held-cons a title (some s1 ∷ some s0 ∷ some mov ∷ some context ∷ []),
  held-cons a title
      (some tables ∷ none ∷ some s0 ∷ none ∷ some s1 ∷ keyframes ∷ some mov ∷ some context ∷ []),
  held-cons a keyframes (some mov ∷ some context ∷ []),
)

-- Neither a stream nor parameter sets are set.
abbrev pub IsNew : Mp4Blocks → Type 0
IsNew d = (d.csd0 ≡ none) × (d.csd1 ≡ none) × (d.files.stream ≡ none)

-- No stream takes over a descriptor of the caller.
abbrev IsOwning : LifeCall → Type 0
IsOwning (csd idx len) = Unit
IsOwning (stream src) = given src ≡ []
IsOwning (cache_mode n) = Unit
IsOwning (cache_size n) = Unit
IsOwning header = Unit

abbrev pub AreOwning : List LifeCall → Type 0
AreOwning [] = Unit
AreOwning (c ∷ cs) = IsOwning c × AreOwning cs

module _ (rest : ℕ → ℕ) where
  pub life_call-Ok :
      (c : LifeCall) (d : Mp4Blocks) (lost : List (Option ℕ)) (w : World)
      → IsOwning c
      → Owns rest d lost w
      → Ok (After rest c d lost) (life_call c d w)
  unfolding life_call
  life_call-Ok (csd idx len) d lost w own o = csd-Ok rest idx len d lost w o
  life_call-Ok (stream src) d lost w own o = stream-Ok rest src d lost w own o
  life_call-Ok (cache_mode n) d lost w own o = (o, (refl, refl, refl))
  life_call-Ok (cache_size n) d lost w own o = (o, (refl, refl, refl))
  life_call-Ok header d lost w own o = header-Ok rest d lost w o

  abbrev Left : List (Option ℕ) → World → Type 0
  Left lost w = Holds lost rest w

  calls_and_close-Ok :
      (cs : List LifeCall) (d : Mp4Blocks) (lost : List (Option ℕ)) (w : World)
      → AreOwning cs
      → Owns rest d lost w
      → Ok Left (calls_and_close cs d lost w)
  unfolding calls_and_close
  calls_and_close-Ok [] d lost w own o =
      Ok-bind (λ _ w'. Holds lost rest w') Left (close_blocks d w) _
        (close_blocks-Ok rest d lost w o) λ _ w' h. h
  calls_and_close-Ok (c ∷ cs) d lost w own o =
      Ok-bind (After rest c d lost) Left (life_call c d w) _ (life_call-Ok c d lost w own.0 o)
        λ d' w' o'. calls_and_close-Ok cs d' (replaced c d ++ lost) w' own.1 o'.0

  -- What `Mp4MuxerOpen` got, by its result.
  abbrev pub Open : Opened Mp4Blocks → World → Type 0
  Open (opened d) w = Owns rest d [] w × IsNew d
  Open (left_behind ps) w = Holds ps rest w

  pub open_blocks-Ok : (w : World) → Holds [] rest w → Ok Open (open_blocks w)
  unfolding open_blocks
  open_blocks-Ok w h = acquire-Ok Open [] rest with_block w h by_context
    where
      by_tables :
          (context mov s0 s1 : ℕ) (title tables : Option ℕ) (w' : World)
          → Holds (tables ∷ title ∷ some s1 ∷ some s0 ∷ some mov ∷ some context ∷ []) rest w'
          → Ok Open (with_tables context mov s0 s1 title tables w')
      by_tables context mov s0 s1 title none w' h' = h'
      by_tables context mov s0 s1 title (some tables) w' h' =
          acquire-Ok Open _ rest _ w' h' λ keyframes w'' h''. (
            (
              (tt, tt),
              regroup
                  (keyframes
                    ∷ some tables
                    ∷ title
                    ∷ some s1
                    ∷ some s0
                    ∷ some mov
                    ∷ some context
                    ∷ [])
                  (whole
                    (record {
                      context = context;
                      priv_data = mov;
                      stream0 = s0;
                      stream1 = s1;
                      title_info = title;
                      mov_inf_cache = tables;
                      keyframes = keyframes;
                      csd0 = none;
                      csd1 = none;
                      files = no_handles;
                    })
                    [])
                  rest w'' (moved context mov s0 s1 tables title keyframes) h'',
            ),
            (refl, refl, refl),
          )

      by_stream1 :
          (context mov s0 : ℕ) (s1 : Option ℕ) (w' : World)
          → Holds (s1 ∷ some s0 ∷ some mov ∷ some context ∷ []) rest w'
          → Ok Open (with_stream1 context mov s0 s1 w')
      by_stream1 context mov s0 none w' h' = tt
      by_stream1 context mov s0 (some s1) w' h' = acquire-Ok Open _ rest _ w' h' λ title w'' h''.
          acquire-Ok Open _ rest _ w'' h'' λ tables. by_tables context mov s0 s1 title tables

      by_stream0 :
          (context mov : ℕ) (s0 : Option ℕ) (w' : World)
          → Holds (s0 ∷ some mov ∷ some context ∷ []) rest w'
          → Ok Open (with_stream0 context mov s0 w')
      by_stream0 context mov none w' h' = tt
      by_stream0 context mov (some s0) w' h' =
          acquire-Ok Open _ rest _ w' h' (by_stream1 context mov s0)

      by_movie :
          (context : ℕ) (mov : Option ℕ) (w' : World)
          → Holds (mov ∷ some context ∷ []) rest w'
          → Ok Open (with_movie context mov w')
      by_movie context none w' h' = h'
      by_movie context (some mov) w' h' = acquire-Ok Open _ rest _ w' h' (by_stream0 context mov)

      by_context : (p : Option ℕ) (w' : World) → Holds (p ∷ []) rest w' → Ok Open (with_block p w')
      by_context none w' h' = h'
      by_context (some context) w' h' = acquire-Ok Open _ rest _ w' h' (by_movie context)

  -- The life of an MP4 driver, from its opening through any calls, each of whose allocations and files
  -- may fail and none of which makes an output stream over a descriptor of the caller, to its close
  -- frees nothing that is not live; and what is live at its end is what was live before, the streams and
  -- the parameter sets that calls replaced, and what an opening that failed left behind.
  pub life-Left :
      (cs : List LifeCall) (w : World) → AreOwning cs → Holds [] rest w → Ok Left (life cs w)
  unfolding life
  life-Left cs w own h = Ok-bind Open Left (open_blocks w) _ (open_blocks-Ok w h) by_open
    where
      by_open : (o : Opened Mp4Blocks) (w' : World) → Open o w' → Ok Left (after_open cs o w')
      by_open (opened d) w' o = calls_and_close-Ok cs d [] w' own o.0
      by_open (left_behind ps) w' h' = h'
