-- ===== src/Message/Wait.antt =====
-- The waits of mm_message.c: `wait_message_queue_not_empty` and `dry_wait_message_queue`. A wait is
-- what it does under the mutex up to its sleep on the condition, and then at each time it wakes.
use pluto_project.Base.{
  ℕ, ◌-◌, List, ◌++◌, Bool, true, false, Option, none, some, [], ◌∷◌, ◌==◌, if◌then◌else◌,
}
use pluto_project.Message.{Message, MessageQueue}

-- What a wait has come to: it sleeps, or it is back with its result and the message, if it has one.
pub data Waiting : Type 0 where
  asleep : Waiting
  back : ℕ → Option Message → Waiting

-- `msg_queue->mWaitingFlag = b`
unfoldable pub set_waiting : Bool → MessageQueue → MessageQueue
set_waiting b q = record q { waiting_flag = b }

-- The first message that is ready comes out, and nobody waits any more. `ret` is the result of the
-- condition.
unfoldable pub take_message : ℕ → Message → List Message → MessageQueue → Waiting × MessageQueue
take_message ret entry rest q = (
  back ret (some entry),
  set_waiting false
      (record q { ready = rest; idle = q.idle ++ (entry ∷ []); msg_cnt = q.msg_cnt - 1 }),
)

-- The test of the loop of a wait without a time limit, and what follows on it.
unfoldable pub wait_round : ℕ → MessageQueue → Waiting × MessageQueue
wait_round ret q = elim q.ready [ [] ↦ (asleep, q) | entry ∷ rest ↦ take_message ret entry rest q ]

-- The begin of `wait_message_queue_not_empty`; `forever` is `timeout <= 0`. With a time limit and a
-- message that is ready it is back with 0, and takes nothing.
unfoldable pub wait_enter : Bool → MessageQueue → Waiting × MessageQueue
wait_enter forever q =
    let q' = set_waiting true q in
    if forever
    then wait_round 0 q'
    else elim q'.ready [ [] ↦ (asleep, q') | entry ∷ rest ↦ (back 0 none, q') ]

-- The wait with a time limit goes on when `pthread_cond_timedwait` is back with `ret`. With 0 it takes the
-- first message without a test whether there is one: `none` stands for the head of the empty list
-- taken as a message, and moved to the other list, which leaves no queue.
unfoldable pub timed_wake : ℕ → MessageQueue → Option (Waiting × MessageQueue)
timed_wake ret q =
    if ret == 0
    then elim q.ready [ [] ↦ none | entry ∷ rest ↦ some (take_message ret entry rest q) ]
    else some (back ret none, q)

-- `dry_wait_message_queue` at its end: the count.
unfoldable pub dry_done : MessageQueue → Option ℕ × MessageQueue
dry_done q = (some q.msg_cnt, set_waiting false q)

-- The test of the loop of a dry wait: `none` if it sleeps.
unfoldable pub dry_round : MessageQueue → Option ℕ × MessageQueue
dry_round q = elim q.ready [ [] ↦ (none, q) | entry ∷ rest ↦ dry_done q ]

-- The begin of `dry_wait_message_queue`. Either kind, with a time limit or without, sleeps if no
-- message is ready; one with a limit is done when it wakes.
unfoldable pub dry_enter : MessageQueue → Option ℕ × MessageQueue
dry_enter q = dry_round (set_waiting true q)
