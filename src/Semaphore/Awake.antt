-- ===== src/Semaphore/Awake.antt =====
-- Threads that sleep on the condition of mm_foundations/srcs/mm_semaphore.c: in the loop of
-- `mm_sem_down`, and in `mm_sem_wait`.
use pluto_project.Base.{
  ℕ, ◌+◌, ◌-◌, ◌≤◌, ◌≡◌, ◌⊎◌, inl, refl, Bool, List, [], ◌∷◌, arith, ◌==◌, not, ◌&&◌, if◌then◌else◌,
}
use pluto_project.Semaphore.{
  Semaphore, mm_sem_init, mm_sem_down, mm_sem_up, mm_sem_up_unique, mm_sem_reset, mm_sem_get_val,
}

-- The semaphore, and how many threads sleep in `mm_sem_down`, were woken there but did not run yet, and
-- sleep in `mm_sem_wait`.
pub record Threads : Type 0 where
  pub sem : Semaphore
  pub sleepers : ℕ
  pub woken : ℕ
  pub waiters : ℕ

abbrev pub no_threads : Semaphore → Threads
no_threads s = record { sem = s; sleepers = 0; woken = 0; waiters = 0 }

-- One sleeper in `mm_sem_down` wakes.
unfoldable pub wake_one : Threads → Threads
wake_one t =
    if t.sleepers == 0 then t else record t { sleepers = t.sleepers - 1; woken = t.woken + 1 }

-- `pthread_cond_signal` wakes one of the threads that sleep on the condition; the flag says whether it
-- prefers one in `mm_sem_wait`, which then returns.
unfoldable pub cond_signal : Bool → Threads → Threads
cond_signal to_waiter t =
    if not (t.waiters == 0) && to_waiter
    then record t { waiters = t.waiters - 1 }
    else if t.sleepers == 0
    then record t { waiters = t.waiters - 1 }
    else wake_one t

-- A thread comes to `mm_sem_down`; a thread that was woken there goes on, or one wakes without a signal;
-- another thread raises, resets, waits or signals.
pub data Event : Type 0 where
  down wake spurious reset wait : Event
  up up_unique signal : Bool → Event

-- `mm_sem_signal`
unfoldable pub mm_sem_signal : Bool → Threads → Threads
mm_sem_signal to_waiter t = cond_signal to_waiter t

-- `mm_sem_wait` up to its sleep.
unfoldable pub mm_sem_wait : Threads → Threads
mm_sem_wait t = record t { waiters = t.waiters + 1 }

unfoldable pub event : Event → Threads → Threads
event down t =
    let (through, sem) = mm_sem_down t.sem in
    if through then record t { sem = sem } else record t { sleepers = t.sleepers + 1 }
event wake t =
    let (through, sem) = mm_sem_down t.sem in
    if t.woken == 0
    then t
    else if through
    then record t { sem = sem; woken = t.woken - 1 }
    else record t { sleepers = t.sleepers + 1; woken = t.woken - 1 }
event spurious t = wake_one t
event reset t = record t { sem = mm_sem_reset t.sem }
event wait t = mm_sem_wait t
event (up to_waiter) t = cond_signal to_waiter (record t { sem = mm_sem_up t.sem })
event (up_unique to_waiter) t =
    if mm_sem_get_val t.sem == 0
    then cond_signal to_waiter (record t { sem = mm_sem_up_unique t.sem })
    else t
event (signal to_waiter) t = mm_sem_signal to_waiter t

unfoldable pub events : List Event → Threads → Threads
events [] t = t
events (e ∷ es) t = events es (event e t)

-- No thread calls `mm_sem_wait`.
abbrev pub WithoutWait : List Event → Type 0
WithoutWait [] = Unit
WithoutWait (down ∷ es) = WithoutWait es
WithoutWait (wake ∷ es) = WithoutWait es
WithoutWait (spurious ∷ es) = WithoutWait es
WithoutWait (reset ∷ es) = WithoutWait es
WithoutWait (wait ∷ es) = ⊥
WithoutWait (up b ∷ es) = WithoutWait es
WithoutWait (up_unique b ∷ es) = WithoutWait es
WithoutWait (signal b ∷ es) = WithoutWait es

-- As many threads as there are units are on their way to take them, or no thread sleeps.
pub record IsServed (t : Threads) : Type 0 where
  pub alone : t.waiters ≡ 0
  pub served : (t.sleepers ≡ 0) ⊎ (t.sem.sem_val ≤ t.woken)

event-IsServed :
    (e : Event) (t : Threads) → WithoutWait (e ∷ []) → IsServed t → IsServed (event e t)
unfolding event mm_sem_down mm_sem_up mm_sem_up_unique mm_sem_reset mm_sem_get_val cond_signal
    wake_one mm_sem_signal
event-IsServed down t h s = ground arith
event-IsServed wake t h s = ground arith
event-IsServed spurious t h s = ground arith
event-IsServed reset t h s = ground arith
event-IsServed wait t h s = absurd h
event-IsServed (up b) t h s = ground arith
event-IsServed (up_unique b) t h s = ground arith
event-IsServed (signal b) t h s = ground arith

one_event :
    (e : Event) (es : List Event) → WithoutWait (e ∷ es) → WithoutWait (e ∷ []) × WithoutWait es
one_event down es h = (tt, h)
one_event wake es h = (tt, h)
one_event spurious es h = (tt, h)
one_event reset es h = (tt, h)
one_event wait es h = absurd h
one_event (up b) es h = (tt, h)
one_event (up_unique b) es h = (tt, h)
one_event (signal b) es h = (tt, h)

events_keep : (es : List Event) (t : Threads) → WithoutWait es → IsServed t → IsServed (events es t)
unfolding events
events_keep [] t h s = s
events_keep (e ∷ es) t h s =
    let (this, later) = one_event e es h in
    events_keep es (event e t) later (event-IsServed e t this s)

-- However many threads come to `mm_sem_down`, wake there with a signal or without, raise, reset and
-- signal, in whichever order, as long as none calls `mm_sem_wait`: whenever a thread sleeps, at
-- least as many threads as there are units were woken and are on their way to take them.
pub events-IsServed :
    (val : ℕ) (es : List Event)
    → WithoutWait es
    → IsServed (events es (no_threads (mm_sem_init val)))
unfolding mm_sem_init
events-IsServed val es h =
    events_keep es (no_threads (mm_sem_init val)) h (record { alone = refl; served = inl refl })
