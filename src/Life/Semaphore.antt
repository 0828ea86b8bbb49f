-- ===== src/Life/Semaphore.antt =====
-- What a semaphore of mm_semaphore.c takes from the thread library: `mm_sem_init` and
-- `mm_sem_deinit`.
use pluto_project.Base.{ℕ, arith, Bool, true, false, Option, none, some, [], ◌∷◌}
use pluto_project.Life.{World, Prog, pure, bound, ◌>>=◌, ◌>>◌, acquire, release}
use pluto_project.Life.Holds.{Holds, Ok, Ok-bind, regroup, acquire-Ok, release-Holds}

-- The condition and the mutex of `mm_sem_t`, while they are initialized.
pub record SemObjects : Type 0 where
  pub condition : ℕ
  pub mutex : ℕ

abbrev with_mutex : ℕ → Option ℕ → Prog (Option SemObjects)
with_mutex condition none = pure none
with_mutex condition (some m) = pure (some (record { condition = condition; mutex = m }))

abbrev with_condition : Option ℕ → Prog (Option SemObjects)
with_condition none = pure none
with_condition (some condition) = do mutex ← acquire; with_mutex condition mutex

-- `mm_sem_init`; `none` is its -1. Where the mutex fails the condition stays.
unfoldable pub init_sem_objects : Prog (Option SemObjects)
init_sem_objects = acquire >>= with_condition

unfoldable pub mm_sem_deinit : SemObjects → Prog (Unit {0})
mm_sem_deinit sem = do release (some sem.condition); release (some sem.mutex)

-- A user that destroys its semaphore if it got one: whether it did.
unfoldable pub use_sem : Option SemObjects → Prog Bool
use_sem none = pure false
use_sem (some sem) = do mm_sem_deinit sem; pure true

-- What is left: nothing, or without a semaphore one object at most.
abbrev pub Left : (ℕ → ℕ) → Bool → World → Type 0
Left rest true w = Holds [] rest w
Left rest false w = (p : Option ℕ) × Holds (p ∷ []) rest w

-- Of a semaphore that was made, what its maker must give back.
abbrev pub Made : (ℕ → ℕ) → Option SemObjects → World → Type 0
Made rest none w = (p : Option ℕ) × Holds (p ∷ []) rest w
Made rest (some sem) w = Holds (some sem.condition ∷ some sem.mutex ∷ []) rest w

module _ (rest : ℕ → ℕ) where
  with_mutex-Made :
      (condition : ℕ) (mutex : Option ℕ) (w : World)
      → Holds (mutex ∷ some condition ∷ []) rest w
      → Ok (Made rest) (with_mutex condition mutex w)
  with_mutex-Made condition none w h = (some condition, h)
  with_mutex-Made condition (some m) w h =
      regroup (some m ∷ some condition ∷ []) (some condition ∷ some m ∷ []) rest w
        (λ a. omega arith) h

  with_condition-Made :
      (condition : Option ℕ) (w : World)
      → Holds (condition ∷ []) rest w
      → Ok (Made rest) (with_condition condition w)
  with_condition-Made none w h = (none, h)
  with_condition-Made (some condition) w h =
      acquire-Ok (Made rest) (some condition ∷ []) rest _ w h (with_mutex-Made condition)

  use_sem-Left :
      (sem : Option SemObjects) (w : World) → Made rest sem w → Ok (Left rest) (use_sem sem w)
  unfolding use_sem mm_sem_deinit
  use_sem-Left none w h = h
  use_sem-Left (some sem) w h =
      let mutex = some sem.mutex ∷ [] in
      Ok-bind (λ _ w'. Holds [] rest w') (Left rest) (mm_sem_deinit sem w) (λ _. pure true)
        (Ok-bind (λ _ w'. Holds mutex rest w') _ (release (some sem.condition) w)
          (λ _. release (some sem.mutex)) (release-Holds (some sem.condition) mutex rest w h)
          λ _ w' h'. release-Holds (some sem.mutex) [] rest w' h')
        λ _ w' h'. h'

  -- A semaphore that is made and destroyed gives back nothing that is not live, and leaves live what
  -- was live before and nothing else; where it cannot be made, one object more is left at most.
  pub use_sem-init :
      (w : World) → Holds [] rest w → Ok (Left rest) (bound (init_sem_objects w) use_sem)
  unfolding init_sem_objects
  use_sem-init w h =
      Ok-bind (Made rest) (Left rest) (bound (acquire w) with_condition) use_sem
        (acquire-Ok (Made rest) [] rest with_condition w h with_condition-Made) use_sem-Left
