-- ===== src/Semaphore.antt =====
-- mm_foundations/srcs/mm_semaphore.c: the counting semaphore, each function being what it does under
-- the mutex. A thread in `mm_sem_down` makes a round of the loop when it comes and each time the
-- condition wakes it, for whatever reason.
mod Tests
pub mod Awake
use pluto_project.Base.{
  ℕ, ◌+◌, ◌-◌, ◌≤◌, ◌≡◌, refl, Bool, true, false, List, [], ◌∷◌, arith, ◌==◌, if◌then◌else◌,
  Bool-cases, inl, inr,
}

-- `mm_sem_t`: the value.
pub record Semaphore : Type 0 where
  pub sem_val : ℕ

unfoldable pub mm_sem_init : ℕ → Semaphore
mm_sem_init val = record { sem_val = val }

-- A round of the loop of `mm_sem_down`: whether the thread gets through, or else waits.
unfoldable pub mm_sem_down : Semaphore → Bool × Semaphore
mm_sem_down sem =
    if sem.sem_val == 0 then (false, sem) else (true, record { sem_val = sem.sem_val - 1 })

unfoldable pub mm_sem_up : Semaphore → Semaphore
mm_sem_up sem = record { sem_val = sem.sem_val + 1 }

unfoldable pub mm_sem_up_unique : Semaphore → Semaphore
mm_sem_up_unique sem = if sem.sem_val == 0 then record { sem_val = sem.sem_val + 1 } else sem

unfoldable pub mm_sem_reset : Semaphore → Semaphore
mm_sem_reset sem = record { sem_val = 0 }

unfoldable pub mm_sem_get_val : Semaphore → ℕ
mm_sem_get_val sem = sem.sem_val

-- What threads do, one at a time.
pub data Action : Type 0 where
  down up up_unique reset : Action

-- The semaphore, the number of threads that got through and of resets' lost units.
pub record Ledger : Type 0 where
  pub sem : Semaphore
  pub passed : ℕ
  pub raised : ℕ
  pub lost : ℕ

unfoldable pub act : Action → Ledger → Ledger
act down l =
    let (through, sem) = mm_sem_down l.sem in
    record l { sem = sem; passed = if through then l.passed + 1 else l.passed }
act up l = record l { sem = mm_sem_up l.sem; raised = l.raised + 1 }
act up_unique l = record l {
  sem = mm_sem_up_unique l.sem;
  raised = if mm_sem_get_val l.sem == 0 then l.raised + 1 else l.raised;
}
act reset l = record l { sem = mm_sem_reset l.sem; lost = l.lost + mm_sem_get_val l.sem }

unfoldable pub acts : List Action → Ledger → Ledger
acts [] l = l
acts (a ∷ todo) l = acts todo (act a l)

abbrev pub started : ℕ → Ledger
started val = record { sem = mm_sem_init val; passed = 0; raised = 0; lost = 0 }

-- The books balance.
abbrev Balances : ℕ → Ledger → Type 0
Balances val l = l.sem.sem_val + l.passed + l.lost ≡ val + l.raised

act-Balances : (val : ℕ) (a : Action) (l : Ledger) → Balances val l → Balances val (act a l)
unfolding act mm_sem_down mm_sem_up mm_sem_up_unique mm_sem_reset mm_sem_get_val
act-Balances val down l h = elim (Bool-cases (l.sem.sem_val == 0)) [
  | inl none_left ↦ rw none_left h
  | inr left ↦ rw left (ground arith)
]
act-Balances val up l h = omega arith
act-Balances val up_unique l h = elim (Bool-cases (l.sem.sem_val == 0)) [
  | inl none_left ↦ rw none_left (omega arith)
  | inr left ↦ rw left h
]
act-Balances val reset l h = omega arith

acts-Balances :
    (val : ℕ) (todo : List Action) (l : Ledger) → Balances val l → Balances val (acts todo l)
unfolding acts
acts-Balances val [] l h = h
acts-Balances val (a ∷ todo) l h = acts-Balances val todo (act a l) (act-Balances val a l h)

-- Whatever threads do in whichever order, the value, the threads that got through and the units
-- that resets threw away are together the first value and the units that were raised: no thread
-- gets through without a unit, and none is lost but by a reset.
pub acts-sem_val :
    (val : ℕ) (todo : List Action)
    → let l = acts todo (started val) in mm_sem_get_val l.sem + l.passed + l.lost ≡ val + l.raised
unfolding mm_sem_get_val mm_sem_init
acts-sem_val val todo = acts-Balances val todo (started val) (omega arith)
