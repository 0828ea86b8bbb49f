-- ===== src/Message/Order.antt =====
-- Runs of the message queue of mm_message.c: what comes out of it is what went in, in order.
use pluto_project.Base.{
  ℕ, Bool-cases, ==_iff, ◌==◌, inl, inr, true, false, Option, ◌≡◌, ◌≢◌, refl, ap, sym, subst, ◌∙◌,
  ◌-◌, ◌>>=◌, Bool, none, some, List, [], ◌∷◌, ◌++◌, append-nil, append_assoc,
}
use pluto_project.Message.{
  Message, MessageQueue, Allocations, put_message_with_data, put_message, get_message,
  message_create,
}
use pluto_project.Message.Wait.{
  Waiting, asleep, back, set_waiting, take_message, wait_round, wait_enter, timed_wake, dry_done,
  dry_round, dry_enter,
}
use pluto_project.Message.Fifo.{
  InUse, accepted, delivered, none_clear, increased_InUse, put_message_with_data-InUse,
  get_message-InUse,
}

-- One call, or one piece of a wait, of whichever thread: they are serialised by the mutex. A thread
-- that sleeps in a wait may wake at any time.
pub data Call : Type 0 where
  put : Allocations → Message → Call
  put_bare : Allocations → Message → Call
  get : Call
  enter : Bool → Call
  wake : ℕ → Call
  wake_timed : ℕ → Call
  dry_in : Call
  dry_wake : Call
  dry_timed : Call

-- What a wait hands out.
abbrev pub handed : Waiting → List Message
handed asleep = []
handed (back ret m) = delivered m

-- The messages that calls accepted and handed out, and the queue.
pub record Trace : Type 0 where
  pub went_in : List Message
  pub came_out : List Message
  pub queue : MessageQueue

abbrev waiting : Waiting × MessageQueue → Trace
waiting r = record { went_in = []; came_out = handed r.0; queue = r.1 }

abbrev woken : Option (Waiting × MessageQueue) → Option Trace
woken none = none
woken (some r) = some (waiting r)

abbrev quiet : MessageQueue → Trace
quiet q = record { went_in = []; came_out = []; queue = q }

-- One call; `none` where a timed wait takes a message that is not there.
unfoldable pub step : Call → MessageQueue → Option Trace
step (put a m) q =
    let (done, q') = put_message_with_data a m q in
    some (record { went_in = accepted done m; came_out = []; queue = q' })
step (put_bare a m) q =
    let (done, q') = put_message a m q in
    some
      (record { went_in = accepted done (record m { mp_data = none }); came_out = []; queue = q' })
step get q =
    let (m, q') = get_message q in
    some (record { went_in = []; came_out = delivered m; queue = q' })
step (enter forever) q = some (waiting (wait_enter forever q))
step (wake ret) q = some (waiting (wait_round ret q))
step (wake_timed ret) q = woken (timed_wake ret q)
step dry_in q = some (quiet (dry_enter q).1)
step dry_wake q = some (quiet (dry_round q).1)
step dry_timed q = some (quiet (dry_done q).1)

-- Calls one after another.
unfoldable pub run : List Call → MessageQueue → Option Trace
run [] q = some (quiet q)
run (c ∷ calls) q = do
  t ← step c q
  u ← run calls t.queue
  some (record {
    went_in = t.went_in ++ u.went_in;
    came_out = t.came_out ++ u.came_out;
    queue = u.queue;
  })

-- A put has no block of size 0, and a wait with a time limit that is woken with 0 finds a message.
abbrev IsSound : Call → MessageQueue → Type 0
IsSound (put a m) q = m.mp_data ≢ some []
IsSound (put_bare a m) q = Unit
IsSound get q = Unit
IsSound (enter forever) q = Unit
IsSound (wake ret) q = Unit
IsSound (wake_timed ret) q = ret ≡ 0 → q.ready ≢ []
IsSound dry_in q = Unit
IsSound dry_wake q = Unit
IsSound dry_timed q = Unit

-- Each call is sound in the queue that it meets.
abbrev pub AreSound : List Call → MessageQueue → Type 0
AreSound [] q = Unit
AreSound (c ∷ calls) q = IsSound c q × ((t : Trace) → step c q ≡ some t → AreSound calls t.queue)

-- What a wait, or a piece of one, does to a queue in use.
abbrev Waits : MessageQueue → Waiting × MessageQueue → Type 0
Waits q r = (q.ready ≡ handed r.0 ++ r.1.ready) × InUse r.1

set_waiting-InUse : (b : Bool) (q : MessageQueue) → InUse q → InUse (set_waiting b q)
unfolding set_waiting
set_waiting-InUse b q u = record {
  pools = u.pools;
  in_pools = record { counted = u.in_pools.counted; kept = u.in_pools.kept };
  clear_idle = u.clear_idle;
  clear_ready = u.clear_ready;
}

-- Taking the first message is a get.
take_message-Waits :
    (ret : ℕ) (q : MessageQueue) (entry : Message) (rest : List Message)
    → q.ready ≡ entry ∷ rest
    → InUse q
    → Waits q (take_message ret entry rest q)
unfolding take_message set_waiting get_message
take_message-Waits ret q entry rest e u =
    (e, set_waiting-InUse false _ (subst (λ r. InUse r.1) got (get_message-InUse q u).1))
  where
    got : get_message q ≡ (
      some entry,
      record q { ready = rest; idle = q.idle ++ (entry ∷ []); msg_cnt = q.msg_cnt - 1 },
    )
    got = rw e refl

wait_round-Waits : (ret : ℕ) (q : MessageQueue) → InUse q → Waits q (wait_round ret q)
unfolding wait_round
wait_round-Waits ret q u = by_ready q.ready refl
  where
    by_ready :
        (l : List Message)
        → q.ready ≡ l
        → Waits q (elim l [ [] ↦ (asleep, q) | entry ∷ rest ↦ take_message ret entry rest q ])
    by_ready [] e = (refl, u)
    by_ready (entry ∷ rest) e = take_message-Waits ret q entry rest e u

wait_enter-Waits : (forever : Bool) (q : MessageQueue) → InUse q → Waits q (wait_enter forever q)
unfolding wait_enter set_waiting
wait_enter-Waits true q u = wait_round-Waits 0 (set_waiting true q) (set_waiting-InUse true q u)
wait_enter-Waits false q u = by_ready q.ready
  where
    q' : MessageQueue
    q' = set_waiting true q

    by_ready :
        (l : List Message)
        → Waits q (elim l [ [] ↦ (asleep, q') | entry ∷ rest ↦ (back 0 none, q') ])
    by_ready [] = (refl, set_waiting-InUse true q u)
    by_ready (entry ∷ rest) = (refl, set_waiting-InUse true q u)

-- A dry wait changes no message.
abbrev Keeps : MessageQueue → MessageQueue → Type 0
Keeps q q' = (q'.ready ≡ q.ready) × InUse q'

dry_done-Keeps : (q : MessageQueue) → InUse q → Keeps q (dry_done q).1
unfolding dry_done set_waiting
dry_done-Keeps q u = (refl, set_waiting-InUse false q u)

dry_round-Keeps : (q : MessageQueue) → InUse q → Keeps q (dry_round q).1
unfolding dry_round
dry_round-Keeps q u = by_ready q.ready
  where
    by_ready :
        (l : List Message)
        → let r : Option ℕ × MessageQueue = elim l [ [] ↦ (none, q) | entry ∷ rest ↦ dry_done q ] in
          Keeps q r.1
    by_ready [] = (refl, u)
    by_ready (entry ∷ rest) = dry_done-Keeps q u

dry_enter-Keeps : (q : MessageQueue) → InUse q → Keeps q (dry_enter q).1
unfolding dry_enter set_waiting
dry_enter-Keeps q u = dry_round-Keeps (set_waiting true q) (set_waiting-InUse true q u)

-- What was ready and went in came out, in order, or is ready still.
abbrev pub InOrder : MessageQueue → Trace → Type 0
InOrder q t = (q.ready ++ t.went_in ≡ t.came_out ++ t.queue.ready) × InUse t.queue

waiting-InOrder :
    (q : MessageQueue) (r : Waiting × MessageQueue) → Waits q r → InOrder q (waiting r)
waiting-InOrder q r (e, u) = (append-nil q.ready ∙ e, u)

quiet-InOrder : (q q' : MessageQueue) → Keeps q q' → InOrder q (quiet q')
quiet-InOrder q q' (e, u) = (append-nil q.ready ∙ sym e, u)

-- A call that returns, and keeps the order.
abbrev pub Ordered : MessageQueue → Option Trace → Type 0
Ordered q r = (t : Trace) × (r ≡ some t) × InOrder q t

timed_wake-Ordered :
    (ret : ℕ) (q : MessageQueue)
    → (ret ≡ 0 → q.ready ≢ [])
    → InUse q
    → Ordered q (woken (timed_wake ret q))
unfolding timed_wake
timed_wake-Ordered ret q some_ready u = elim (Bool-cases (ret == 0)) [
  | inr timed_out ↦ (
    waiting (back ret none, q),
    rw timed_out refl,
    waiting-InOrder q (back ret none, q) (refl, u),
  )
  | inl woke ↦ rw woke (by_ready ((==_iff ret 0).0 woke) q.ready refl)
]
  where
    by_ready :
        ret ≡ 0
        → (l : List Message) → q.ready ≡ l
        → Ordered q
            (woken (elim l [ [] ↦ none | entry ∷ rest ↦ some (take_message ret entry rest q) ]))
    by_ready zero_result [] e = absurd (some_ready zero_result e)
    by_ready zero_result (entry ∷ rest) e =
        (_, refl, waiting-InOrder q _ (take_message-Waits ret q entry rest e u))

step-Ordered : (c : Call) (q : MessageQueue) → InUse q → IsSound c q → Ordered q (step c q)
unfolding step put_message
step-Ordered (put a m) q u sound =
    let (ready, u') = put_message_with_data-InUse a m q sound u in (_, refl, (sym ready, u'))
step-Ordered (put_bare a m) q u sound =
    let (ready, u') =
      put_message_with_data-InUse a (record m { mp_data = none }) q (none_clear []) u in
    (_, refl, (sym ready, u'))
step-Ordered get q u sound =
    let (ready, u') = get_message-InUse q u in (_, refl, (append-nil q.ready ∙ ready, u'))
step-Ordered (enter forever) q u sound =
    (_, refl, waiting-InOrder q _ (wait_enter-Waits forever q u))
step-Ordered (wake ret) q u sound = (_, refl, waiting-InOrder q _ (wait_round-Waits ret q u))
step-Ordered (wake_timed ret) q u sound = timed_wake-Ordered ret q sound u
step-Ordered dry_in q u sound = (_, refl, quiet-InOrder q _ (dry_enter-Keeps q u))
step-Ordered dry_wake q u sound = (_, refl, quiet-InOrder q _ (dry_round-Keeps q u))
step-Ordered dry_timed q u sound = (_, refl, quiet-InOrder q _ (dry_done-Keeps q u))

joined :
    (ready a b mid o o' last : List Message)
    → ready ++ a ≡ o ++ mid
    → mid ++ b ≡ o' ++ last
    → ready ++ (a ++ b) ≡ (o ++ o') ++ last
joined ready a b mid o o' last e e' =
    sym (append_assoc ready a b)
    ∙ ap (λ (l : List Message). l ++ b) e
    ∙ append_assoc o mid b
    ∙ ap (λ (l : List Message). o ++ l) e'
    ∙ sym (append_assoc o o' last)

-- Any run of puts, with or without data and whichever allocations succeed, gets, and waits, dry or not
-- and with or without a time limit, whose threads wake at any time, on a queue in use, comes to its
-- end, if no block of size 0 is put and no wait with a time limit is woken with 0 without a message: the
-- messages that were ready and those that were accepted, in order, are those that came out and then
-- those that are ready at the end; and the count is still the number of ready messages, with 16 messages
-- for each pool.
pub run-order :
    (calls : List Call) (q : MessageQueue) → InUse q → AreSound calls q → Ordered q (run calls q)
unfolding run
run-order [] q u sound = (quiet q, refl, (append-nil q.ready, u))
run-order (c ∷ calls) q u (here, later) =
    let (t, done, (order, u')) = step-Ordered c q u here in
    let (v, done', (order', u'')) = run-order calls t.queue u' (later t done) in
    (
      record {
        went_in = t.went_in ++ v.went_in;
        came_out = t.came_out ++ v.came_out;
        queue = v.queue;
      },
      rw (done, done') refl,
      (
        joined q.ready t.went_in v.went_in t.queue.ready t.came_out v.came_out v.queue.ready order
            order',
        u'',
      ),
    )

-- The queue that `message_create` makes is in use and empty, if its allocations succeed.
pub message_create-InUse :
    (pool_ok buffer_ok : Bool)
    → ((message_create pool_ok buffer_ok).1.ready ≡ []) × InUse (message_create pool_ok buffer_ok).1
unfolding message_create
message_create-InUse pool_ok buffer_ok = increased_InUse pool_ok buffer_ok _ (record {
  pools = 0;
  in_pools = record { counted = refl; kept = refl };
  clear_idle = tt;
  clear_ready = tt;
})
