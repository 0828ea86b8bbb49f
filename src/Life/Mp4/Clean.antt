-- ===== src/Life/Mp4/Clean.antt =====
-- When the driver of Mp4MuxerDrv.c leaves nothing behind.
use pluto_project.Base.{
  ℕ, ◌≡◌, refl, sym, subst, ◌∙◌, Bool, true, false, Option, none, some, List, [], ◌∷◌, ◌++◌,
}
use pluto_project.Mp4.{video, audio, max_type}
use pluto_project.Life.{World, returned, bound}
use pluto_project.Life.Holds.{held, Holds, Ok, Ok-bind, regroup}
use pluto_project.Life.Stream.{StreamHandle}
use pluto_project.Life.Stream.Kept.{stream_blocks}
use pluto_project.Life.Mp4.{
  Mp4Blocks, opened, open_blocks, close_blocks, LifeCall, csd, stream, cache_mode, cache_size,
  header, life_call, replaced, calls_and_close, after_open, life,
}
use pluto_project.Life.Mp4.Held.{Owns, Leaves, AllSame, After, close_blocks-Ok}
use pluto_project.Life.Mp4.Closed.{AreOwning, life_call-Ok, Open, open_blocks-Ok}

-- Calls that set the stream and the parameter sets of a track at most once each; the flags say which
-- are set already.
abbrev pub Once : List LifeCall → Bool → Bool → Bool → Type 0
Once [] s v a = Unit
Once (csd video len ∷ cs) s v a = (v ≡ false) × Once cs s true a
Once (csd audio len ∷ cs) s v a = (a ≡ false) × Once cs s v true
Once (csd max_type len ∷ cs) s v a = Once cs s v a
Once (stream src ∷ cs) s v a = (s ≡ false) × Once cs true v a
Once (cache_mode n ∷ cs) s v a = Once cs s v a
Once (cache_size n ∷ cs) s v a = Once cs s v a
Once (header ∷ cs) s v a = Once cs s v a

-- What is not set is not there.
abbrev Fits : Bool → Bool → Bool → Mp4Blocks → Type 0
Fits s v a d =
    (s ≡ false → d.files.stream ≡ none) × (v ≡ false → d.csd0 ≡ none) × (a ≡ false → d.csd1 ≡ none)

abbrev HoldNothing : List (Option ℕ) → Type 0
HoldNothing ps = (a : ℕ) → held a ps ≡ 0

set_already : {A : Type 0} → true ≡ false → A
set_already e = absurd (cc e)

nothing_more :
    (p : Option ℕ) (lost : List (Option ℕ)) → p ≡ none → HoldNothing lost → HoldNothing (p ∷ lost)
nothing_more none lost e h = h
nothing_more (some a) lost e h = absurd (cc e)

no_stream :
    (st : Option StreamHandle) (lost : List (Option ℕ))
    → st ≡ none
    → HoldNothing lost
    → HoldNothing (stream_blocks st ++ lost)
no_stream none lost e h = h
no_stream (some s) lost e h = absurd (cc e)

still : (s v a : Bool) (d d' : Mp4Blocks) → Fits s v a d → AllSame d d' → Fits s v a d'
still s v a d d' fits (csd0, csd1, st) =
    ((λ h. st ∙ fits.0 h), (λ h. csd0 ∙ fits.1 h), (λ h. csd1 ∙ fits.2 h))

-- The flags after a call, and what was replaced so far.
abbrev Goes : List LifeCall → Mp4Blocks → List (Option ℕ) → Type 0
Goes cs d lost =
    (s : Bool) × (v : Bool) × (a : Bool) × Once cs s v a × Fits s v a d × HoldNothing lost

module _ (rest : ℕ → ℕ) where
  call-Goes :
      (c : LifeCall) (cs : List LifeCall) (d d' : Mp4Blocks) (lost : List (Option ℕ))
      → Goes (c ∷ cs) d lost
      → Leaves rest c d d'
      → Goes cs d' (replaced c d ++ lost)
  call-Goes (csd video len) cs d d' lost (s, v, a, (unset, once), fits, nil) (csd1, st) = (
    s,
    true,
    a,
    once,
    ((λ h. st ∙ fits.0 h), set_already, (λ h. csd1 ∙ fits.2 h)),
    nothing_more d.csd0 lost (fits.1 unset) nil,
  )
  call-Goes (csd audio len) cs d d' lost (s, v, a, (unset, once), fits, nil) (csd0, st) = (
    s,
    v,
    true,
    once,
    ((λ h. st ∙ fits.0 h), (λ h. csd0 ∙ fits.1 h), set_already),
    nothing_more d.csd1 lost (fits.2 unset) nil,
  )
  call-Goes (csd max_type len) cs d d' lost goes outside = absurd outside
  call-Goes (stream src) cs d d' lost (s, v, a, (unset, once), fits, nil) (csd0, csd1) = (
    true,
    v,
    a,
    once,
    (set_already, (λ h. csd0 ∙ fits.1 h), (λ h. csd1 ∙ fits.2 h)),
    no_stream d.files.stream lost (fits.0 unset) nil,
  )
  call-Goes (cache_mode n) cs d d' lost (s, v, a, once, fits, nil) same =
      (s, v, a, once, still s v a d d' fits same, nil)
  call-Goes (cache_size n) cs d d' lost (s, v, a, once, fits, nil) same =
      (s, v, a, once, still s v a d d' fits same, nil)
  call-Goes header cs d d' lost (s, v, a, once, fits, nil) same =
      (s, v, a, once, still s v a d d' fits same, nil)

  -- Only what was live before is live.
  abbrev Clean : List (Option ℕ) → World → Type 0
  Clean lost w = Holds [] rest w

  calls-Clean :
      (cs : List LifeCall) (d : Mp4Blocks) (lost : List (Option ℕ)) (w : World)
      → AreOwning cs
      → Goes cs d lost
      → Owns rest d lost w
      → Ok Clean (calls_and_close cs d lost w)
  unfolding calls_and_close
  calls-Clean [] d lost w own (s, v, a, once, fits, nil) o =
      Ok-bind (λ _ w'. Holds lost rest w') Clean (close_blocks d w) _
        (close_blocks-Ok rest d lost w o) λ _ w' h. regroup lost [] rest w' nil h
  calls-Clean (c ∷ cs) d lost w own goes o =
      Ok-bind (After rest c d lost) Clean (life_call c d w) _ (life_call-Ok rest c d lost w own.0 o)
        λ d' w' (o', same).
          calls-Clean cs d' (replaced c d ++ lost) w' own.1 (call-Goes c cs d d' lost goes same) o'

  -- A driver whose opening succeeds, whose stream and parameter sets are set at most once each, the
  -- stream not as an output over a descriptor of the caller, and which is closed after its calls, each of
  -- whose allocations and files may fail, leaves live what was live before its opening, and nothing
  -- else; and it frees nothing that is not live.
  pub life-Clean :
      (cs : List LifeCall) (w w1 : World) (d : Mp4Blocks)
      → AreOwning cs
      → Holds [] rest w
      → open_blocks w ≡ returned (opened d) w1
      → Once cs false false false
      → Ok Clean (life cs w)
  unfolding life
  life-Clean cs w w1 d own h e once =
      let (o, (csd0, csd1, st)) = subst (Ok (Open rest)) e (open_blocks-Ok rest w h) in
      subst (λ r. Ok Clean (bound r (after_open cs))) (sym e)
        (calls-Clean cs d [] w1 own
          (false, false, false, once, ((λ _. st), (λ _. csd0), (λ _. csd1)), λ b. refl) o)
