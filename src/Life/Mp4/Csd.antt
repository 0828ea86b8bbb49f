-- ===== src/Life/Mp4/Csd.antt =====
-- Parameter sets in the driver of Mp4MuxerDrv.c: what a call that copies them holds and replaces.
use pluto_project.Base.{
  ℕ, ◌+◌, ◌≡◌, refl, Option, none, some, List, ◌∷◌, ◌++◌, arith, ◌==◌, Bool-cases, inl, inr,
}
use pluto_project.Mp4.{CodecType, video, audio, max_type}
use pluto_project.Life.{World}
use pluto_project.Life.Holds.{held, held-append, one, held-cons, Holds, Ok, acquire-Ok, regroup}
use pluto_project.Life.Files.{file_blocks}
use pluto_project.Life.Mp4.Held.{back, whole, Owns, After}
use pluto_project.Life.Mp4.{Mp4Blocks, put_csd, copy_csd, write_csd, csd, life_call}

-- What a call that copies parameter sets leaves as it is.
abbrev fixed : ℕ → Mp4Blocks → ℕ
fixed a d =
    one a d.title_info
    + one a (some d.mov_inf_cache)
    + one a (some d.stream0)
    + one a (some d.stream1)
    + one a d.keyframes
    + held a (file_blocks d.files)
    + held a (back d)

parts :
    (a : ℕ) (d : Mp4Blocks) (lost : List (Option ℕ))
    → held a (whole d lost) ≡ fixed a d + one a d.csd0 + one a d.csd1 + held a lost
parts a d lost =
    let l = file_blocks d.files ++ (back d ++ lost) in
    omega (
      arith,
      held-append a (file_blocks d.files) (back d ++ lost),
      held-append a (back d) lost,
      held-cons a d.keyframes l,
      held-cons a d.csd1 (some d.stream1 ∷ d.keyframes ∷ l),
      held-cons a d.csd0 (some d.stream0 ∷ d.csd1 ∷ some d.stream1 ∷ d.keyframes ∷ l),
      held-cons a d.title_info (
          some d.mov_inf_cache
          ∷ d.csd0
          ∷ some d.stream0
          ∷ d.csd1
          ∷ some d.stream1
          ∷ d.keyframes
          ∷ l),
    )

module _ (rest : ℕ → ℕ) where
  pub csd-Ok :
      (idx : CodecType) (len : ℕ) (d : Mp4Blocks) (lost : List (Option ℕ)) (w : World)
      → Owns rest d lost w
      → Ok (After rest (csd idx len) d lost) (life_call (csd idx len) d w)
  unfolding life_call write_csd
  csd-Ok max_type len d lost w o = tt
  csd-Ok video len d lost w (files, h) = elim (Bool-cases (len == 0)) [
    | inl empty ↦ rw empty (
      (
        files,
        regroup (whole d lost) (whole (put_csd video none d) (d.csd0 ∷ lost)) rest w
            (λ a. omega (
              arith,
              parts a d lost,
              parts a (put_csd video none d) (d.csd0 ∷ lost),
              held-cons a d.csd0 lost,
            ))
            h,
      ),
      (refl, refl),
    )
    | inr some_bytes ↦
        rw some_bytes
          (acquire-Ok (After rest (csd video len) d lost) (whole d lost) rest _ w h by_copy)
  ]
    where
      by_copy :
          (p : Option ℕ) (w' : World)
          → Holds (p ∷ whole d lost) rest w'
          → Ok (After rest (csd video len) d lost) (copy_csd video d p w')
      by_copy none w' h' = tt
      by_copy (some p) w' h' =
          let d' = put_csd video (some p) d in
          (
            (
              files,
              regroup (some p ∷ whole d lost) (whole d' (d.csd0 ∷ lost)) rest w'
                  (λ a.
                    omega
                      (arith, parts a d lost, parts a d' (d.csd0 ∷ lost), held-cons a d.csd0 lost))
                  h',
            ),
            (refl, refl),
          )
  csd-Ok audio len d lost w (files, h) = elim (Bool-cases (len == 0)) [
    | inl empty ↦ rw empty (
      (
        files,
        regroup (whole d lost) (whole (put_csd audio none d) (d.csd1 ∷ lost)) rest w
            (λ a. omega (
              arith,
              parts a d lost,
              parts a (put_csd audio none d) (d.csd1 ∷ lost),
              held-cons a d.csd1 lost,
            ))
            h,
      ),
      (refl, refl),
    )
    | inr some_bytes ↦
        rw some_bytes
          (acquire-Ok (After rest (csd audio len) d lost) (whole d lost) rest _ w h by_copy)
  ]
    where
      by_copy :
          (p : Option ℕ) (w' : World)
          → Holds (p ∷ whole d lost) rest w'
          → Ok (After rest (csd audio len) d lost) (copy_csd audio d p w')
      by_copy none w' h' = tt
      by_copy (some p) w' h' =
          let d' = put_csd audio (some p) d in
          (
            (
              files,
              regroup (some p ∷ whole d lost) (whole d' (d.csd1 ∷ lost)) rest w'
                  (λ a.
                    omega
                      (arith, parts a d lost, parts a d' (d.csd1 ∷ lost), held-cons a d.csd1 lost))
                  h',
            ),
            (refl, refl),
          )
