-- ===== src/Message/Awake.antt =====
-- A thread that waits for the queue of mm_message.c without a time limit while others put and get:
-- a put wakes it when it should. With two such threads this fails: the first that wakes clears
-- `mWaitingFlag` for both.
use pluto_project.Base.{
  ◌≡◌, ◌⊎◌, inl, inr, refl, sym, ◌∙◌, Bool, true, false, Option, none, some, List, [], ◌∷◌, ◌++◌,
  ◌-◌, ◌&&◌, ◌||◌, not, arith, if◌then◌else◌, Bool-cases,
}
use pluto_project.Message.{
  Message, MessageQueue, Allocations, message_deep_copy_message, message_increase_idle_message_list,
  fill_idle, put_message_with_data, get_message, signals,
}
use pluto_project.Message.Wait.{
  Waiting, asleep, back, set_waiting, take_message, wait_round, wait_enter,
}

-- The queue, and a thread: whether it sleeps in its wait, and whether a signal is on its way to it.
pub record Waiter : Type 0 where
  pub queue : MessageQueue
  pub sleeping : Bool
  pub signalled : Bool

-- A put or a get of another thread, or the begin of the wait, or the thread waking, for a signal or
-- for none.
pub data Event : Type 0 where
  put : Allocations → Message → Event
  get : Event
  enter : Event
  wake : Event

unfoldable pub is_asleep : Waiting → Bool
is_asleep asleep = true
is_asleep (back ret m) = false

-- The thread after a piece of its wait.
unfoldable pub waited : Waiting × MessageQueue → Waiter
waited r = record { queue = r.1; sleeping = is_asleep r.0; signalled = false }

unfoldable pub event : Event → Waiter → Waiter
event (put a m) w =
    let (done, q) = put_message_with_data a m w.queue in
    record w { queue = q; signalled = w.signalled || (w.sleeping && signals done q) }
event get w = record w { queue = (get_message w.queue).1 }
event enter w = if w.sleeping then w else waited (wait_enter true w.queue)
event wake w = if w.sleeping then waited (wait_round 0 w.queue) else w

unfoldable pub events : List Event → Waiter → Waiter
events [] w = w
events (e ∷ es) w = events es (event e w)

-- Nobody sleeps on a queue.
abbrev pub nobody_asleep : MessageQueue → Waiter
nobody_asleep q = record { queue = q; sleeping = false; signalled = false }

-- If the thread sleeps, the next put that succeeds will signal it, and there is nothing to wake for or
-- a signal is on its way.
abbrev pub IsAttended : Waiter → Type 0
IsAttended w =
    w.sleeping ≡ true
    → (w.queue.waiting_flag ≡ true) × ((w.queue.ready ≡ []) ⊎ (w.signalled ≡ true))

-- What a put that fails leaves, and the flag in any case.
abbrev Unheard : MessageQueue → Bool × MessageQueue → Type 0
Unheard q r = (r.1.waiting_flag ≡ q.waiting_flag) × ((r.0 ≡ true) ⊎ (r.1.ready ≡ q.ready))

fill_idle-Unheard :
    (ok : Bool) (msg entry : Message) (rest : List Message) (q : MessageQueue)
    → Unheard q (fill_idle ok msg entry rest q)
unfolding fill_idle
fill_idle-Unheard ok msg entry rest q =
    elim (Bool-cases (message_deep_copy_message ok entry msg).0) [
      | inl copied ↦ rw copied (refl, inl refl)
      | inr failed ↦ rw failed (refl, inr refl)
    ]

increase-Unheard :
    (pool_ok buffer_ok : Bool) (q : MessageQueue)
    → let r = message_increase_idle_message_list pool_ok buffer_ok q in
      (r.1.waiting_flag ≡ q.waiting_flag) × (r.1.ready ≡ q.ready)
unfolding message_increase_idle_message_list
increase-Unheard false buffer_ok q = (refl, refl)
increase-Unheard true false q = (refl, refl)
increase-Unheard true true q = (refl, refl)

module _ (a : Allocations) (msg : Message) (q : MessageQueue) where
  abbrev more : Bool × MessageQueue
  more = message_increase_idle_message_list a.pool_ok a.buffer_ok q

  abbrev grown : List Message → Bool × MessageQueue
  grown idle = elim idle [
    | entry ∷ rest ↦ fill_idle a.data_ok msg entry rest more.1
    | [] ↦ (false, more.1)
  ]

  grown-Unheard : (idle : List Message) → Unheard q (grown idle)
  grown-Unheard [] =
      let (flag, ready) = increase-Unheard a.pool_ok a.buffer_ok q in (flag, inr ready)
  grown-Unheard (entry ∷ rest) =
      let (flag, ready) = increase-Unheard a.pool_ok a.buffer_ok q in
      let (flag', heard) = fill_idle-Unheard a.data_ok msg entry rest more.1 in
      (flag' ∙ flag, elim heard [ inl done ↦ inl done | inr same ↦ inr (same ∙ ready) ])

  put-Unheard : Unheard q (put_message_with_data a msg q)
  unfolding put_message_with_data
  put-Unheard = by_idle q.idle
    where
      by_idle :
          (idle : List Message)
          → Unheard q (elim idle [
            | entry ∷ rest ↦ fill_idle a.data_ok msg entry rest q
            | [] ↦ if not more.0 then (false, more.1) else grown more.1.idle
          ])
      by_idle (entry ∷ rest) = fill_idle-Unheard a.data_ok msg entry rest q
      by_idle [] = elim (Bool-cases more.0) [
        | inl enough ↦ rw enough (grown-Unheard more.1.idle)
        | inr failed ↦
            let (flag, ready) = increase-Unheard a.pool_ok a.buffer_ok q in
            rw failed (flag, inr ready)
      ]

put-IsAttended :
    (a : Allocations) (m : Message) (w : Waiter) → IsAttended w → IsAttended (event (put a m) w)
unfolding event signals
put-IsAttended a m w attended sleeps =
    let (flag, heard) = put-Unheard a m w.queue in
    let (up, why) = attended sleeps in
    (
      flag ∙ up,
      elim heard [
        | inl done ↦ inr (rw (done, sleeps, flag, up) (or_true w.signalled))
        | inr same ↦ elim why [ inl empty ↦ inl (same ∙ empty) | inr sent ↦ inr (rw sent refl) ]
      ],
    )
  where
    or_true : (b : Bool) → (b || true) ≡ true
    or_true b = ground arith

cons_nil : {x : Message} {xs : List Message} → x ∷ xs ≡ [] → ⊥
cons_nil h = ground arith

get-IsAttended : (w : Waiter) → IsAttended w → IsAttended (event get w)
unfolding event get_message
get-IsAttended w attended sleeps =
    let (up, why) = attended sleeps in by_ready w.queue.ready refl up why
  where
    got : List Message → Option Message × MessageQueue
    got l = elim l [
      | [] ↦ (none, w.queue)
      | entry ∷ rest ↦ (
        some entry,
        record w.queue {
          ready = rest;
          idle = w.queue.idle ++ (entry ∷ []);
          msg_cnt = w.queue.msg_cnt - 1;
        },
      )
    ]

    by_ready :
        (l : List Message)
        → w.queue.ready ≡ l
        → w.queue.waiting_flag ≡ true
        → (w.queue.ready ≡ []) ⊎ (w.signalled ≡ true)
        → ((got l).1.waiting_flag ≡ true) × (((got l).1.ready ≡ []) ⊎ (w.signalled ≡ true))
    by_ready [] e up why = (up, why)
    by_ready (entry ∷ rest) e up (inr sent) = (up, inr sent)
    by_ready (entry ∷ rest) e up (inl empty) = absurd (cons_nil (sym e ∙ empty))

-- A thread that goes to sleep found no message, and left the flag up.
wait_round-IsAttended :
    (q : MessageQueue) → q.waiting_flag ≡ true → IsAttended (waited (wait_round 0 q))
unfolding waited wait_round take_message is_asleep
wait_round-IsAttended q up = by_ready q.ready refl
  where
    result : List Message → Waiting × MessageQueue
    result l = elim l [ [] ↦ (asleep, q) | entry ∷ rest ↦ take_message 0 entry rest q ]

    by_ready : (l : List Message) → q.ready ≡ l → IsAttended (waited (result l))
    by_ready [] e sleeps = (up, inl e)
    by_ready (entry ∷ rest) e sleeps = absurd (ground arith)

either-IsAttended :
    (b : Bool) (v w : Waiter)
    → (b ≡ true → IsAttended v)
    → IsAttended w
    → IsAttended (if b then v else w)
either-IsAttended true v w hv hw = hv refl
either-IsAttended false v w hv hw = hw

event-IsAttended : (e : Event) (w : Waiter) → IsAttended w → IsAttended (event e w)
unfolding event wait_enter set_waiting
event-IsAttended (put a m) w attended = put-IsAttended a m w attended
event-IsAttended get w attended = get-IsAttended w attended
event-IsAttended enter w attended =
    either-IsAttended w.sleeping w _ (λ h. attended)
      (wait_round-IsAttended (set_waiting true w.queue) refl)
event-IsAttended wake w attended =
    either-IsAttended w.sleeping _ w (λ h. wait_round-IsAttended w.queue (attended h).0) attended

events_keep : (es : List Event) (w : Waiter) → IsAttended w → IsAttended (events es w)
unfolding events
events_keep [] w attended = attended
events_keep (e ∷ es) w attended = events_keep es (event e w) (event-IsAttended e w attended)

-- While one thread waits without a time limit, and others put and get in any order, it never sleeps
-- past a message: whenever it sleeps, the flag is up, so that a put which succeeds signals, and
-- either no message is ready or a signal was sent to it since it fell asleep.
pub events-IsAttended :
    (es : List Event) (q : MessageQueue) → IsAttended (events es (nobody_asleep q))
events-IsAttended es q = events_keep es (nobody_asleep q) (λ h. ground arith)
