-- ===== src/Life.antt =====
-- The life of the program's objects: which blocks, `FILE`s and descriptors its functions take from
-- the C library and give back. The children model the functions that make and destroy objects.
pub mod Holds
pub mod Stream
pub mod Cache
pub mod Files
pub mod Mp4
pub mod Ts
pub mod Handle
pub mod Message
pub mod Semaphore
mod Tests
use pluto_project.Base.{ℕ, Option, none, some, List, [], ◌∷◌, ◌==◌, if◌then◌else◌}

-- What is live, by number: a block by its address, a `FILE` and a descriptor by a number of their own.
-- The answers are what `malloc`, `fopen` and their kin will return, `none` for NULL or -1.
pub record World : Type 0 where
  pub live : List ℕ
  pub answers : List (Option ℕ)

-- A call returns, or the process stops at a failed assertion or a NULL pointer, or it frees what is not
-- live, which has no defined result.
pub data Outcome (A : Type 0) : Type 0 where
  returned : A → World → Outcome A
  stopped : Outcome A
  broken : Outcome A

abbrev pub Prog : Type 0 → Type 0
Prog A = World → Outcome A

abbrev pub pure : {A : Type 0} → A → Prog A
pure a w = returned a w

abbrev pub bound : {A B : Type 0} → Outcome A → (A → Prog B) → Outcome B
bound (returned a w) f = f a w
bound stopped f = stopped
bound broken f = broken

infixl 5 ◌>>=◌ ◌>>◌
abbrev pub ◌>>=◌ : {A B : Type 0} → Prog A → (A → Prog B) → Prog B
◌>>=◌ m f w = bound (m w) f

abbrev pub ◌>>◌ : {B : Type 0} → Prog (Unit {0}) → Prog B → Prog B
m >> k = m >>= λ _. k

abbrev pub stop : {A : Type 0} → Prog A
stop w = stopped

abbrev pub with_live : Option ℕ → List ℕ → List ℕ
with_live none l = l
with_live (some a) l = a ∷ l

abbrev pub answered : List (Option ℕ) → World → Outcome (Option ℕ)
answered [] w = returned none w
answered (p ∷ ps) w = returned p (record { live = with_live p w.live; answers = ps })

-- `malloc`, `fopen`, `fdopen` or `dup`.
unfoldable pub acquire : Prog (Option ℕ)
acquire w = answered w.answers w

abbrev pub remove : ℕ → List ℕ → Option (List ℕ)
remove a [] = none
remove a (b ∷ l) =
    let rest = remove a l in
    if b == a then some l else elim rest [ none ↦ none | some l' ↦ some (b ∷ l') ]

abbrev pub removed : Option (List ℕ) → World → Outcome (Unit {0})
removed none w = broken
removed (some l) w = returned tt (record w { live = l })

-- `free`, `fclose` or `close`, which on NULL or -1 do nothing.
unfoldable pub release : Option ℕ → Prog (Unit {0})
release none w = returned tt w
release (some a) w = removed (remove a w.live) w
