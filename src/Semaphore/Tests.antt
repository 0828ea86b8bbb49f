-- ===== src/Semaphore/Tests.antt =====
-- The semaphore of mm_semaphore.c at a concrete run.
use pluto_project.Base.{◌+◌, ◌≡◌, refl, true, false, List, [], ◌∷◌}
use pluto_project.Semaphore.Awake
use pluto_project.Semaphore.Awake.{
  Threads, Event, wake, spurious, wait, cond_signal, mm_sem_wait, event, events, no_threads,
  IsServed, events-IsServed,
}
use pluto_project.Semaphore.{
  Action, down, up, up_unique, reset, acts, started, mm_sem_get_val, mm_sem_init, mm_sem_down,
  mm_sem_up, acts-sem_val,
}

abbrev busy : List Action
busy = down ∷ down ∷ up ∷ up ∷ down ∷ up_unique ∷ reset ∷ up_unique ∷ []

acts-sem_val_example :
    let l = acts busy (started 1) in mm_sem_get_val l.sem + l.passed + l.lost ≡ 1 + l.raised
acts-sem_val_example = acts-sem_val 1 busy

-- Three threads come for one unit, and two more units are raised.
abbrev crowd : List Event
crowd =
    Awake.down ∷ Awake.down ∷ Awake.down ∷ Awake.up false ∷ spurious ∷ wake ∷ Awake.up false ∷ []

events-IsServed_example : IsServed (events crowd (no_threads (mm_sem_init 1)))
events-IsServed_example = events-IsServed 1 crowd tt

-- A thread in `mm_sem_wait` gets the signal that was for one in `mm_sem_down`, which sleeps on with a
-- unit there.
abbrev mixed : Threads
mixed = events (wait ∷ Awake.down ∷ Awake.up true ∷ []) (no_threads (mm_sem_init 0))

mixed_sleeps : mixed.sleepers ≡ 1
unfolding events event mm_sem_wait mm_sem_down mm_sem_up cond_signal mm_sem_init
mixed_sleeps = refl

mixed_left : mm_sem_get_val mixed.sem ≡ 1
unfolding events event mm_sem_wait mm_sem_down mm_sem_up cond_signal mm_sem_init mm_sem_get_val
mixed_left = refl

mixed_woken : mixed.woken ≡ 0
unfolding events event mm_sem_wait mm_sem_down mm_sem_up cond_signal mm_sem_init
mixed_woken = refl
