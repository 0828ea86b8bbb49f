-- ===== src/Message/Tests.antt =====
-- The message queue of mm_message.c at concrete inputs, and the theorems on it applied there.
use pluto_project.Base.{◌≢◌, true, false, some, List, [], ◌∷◌, arith}
use pluto_project.Message.{Message, MessageQueue, Allocations, message_create}
use pluto_project.Message.Fifo.{InUse}
use pluto_project.Message.Awake
use pluto_project.Message.Awake.{Event, IsAttended, events, nobody_asleep, events-IsAttended}
use pluto_project.Message.Order.{
  Call, put, put_bare, get, run, Ordered, enter, wake, wake_timed, dry_in, run-order,
  message_create-InUse,
}

abbrev hello : Message
hello = record { id = 1; cmd = 2; para0 = 3; para1 = 4; mp_data = some (104 ∷ 105 ∷ []) }

abbrev plenty : Allocations
plenty = record { pool_ok = true; buffer_ok = true; data_ok = true }

abbrev no_memory : Allocations
no_memory = record { pool_ok = false; buffer_ok = false; data_ok = false }

abbrev fresh : MessageQueue
fresh = (message_create true true).1

fresh-InUse : InUse fresh
fresh-InUse = (message_create-InUse true true).1

hello_filled : hello.mp_data ≢ some []
hello_filled e = ground arith

abbrev script : List Call
script =
    put plenty hello
    ∷ put no_memory hello
    ∷ put_bare plenty hello
    ∷ enter true
    ∷ dry_in
    ∷ get
    ∷ enter true
    ∷ wake 0
    ∷ wake_timed 110
    ∷ []

run-order_example : Ordered fresh (run script fresh)
run-order_example = run-order script fresh fresh-InUse (
  hello_filled,
  λ t1 e1. (
    hello_filled,
    λ t2 e2. (
      tt,
      λ t3 e3. (
        tt,
        λ t4 e4. (
          tt,
          λ t5 e5. (
            tt,
            λ t6 e6. (
              tt,
              λ t7 e7. (
                tt,
                λ t8 e8. ((λ zero_result. absurd (omega (arith, zero_result))), λ t9 e9. tt),
              ),
            ),
          ),
        ),
      ),
    ),
  ),
)

-- The thread falls asleep, and a message that it should wake for goes in.
abbrev visit : List Event
visit = Awake.enter ∷ Awake.put plenty hello ∷ Awake.get ∷ Awake.wake ∷ []

events-IsAttended_example : IsAttended (events visit (nobody_asleep fresh))
events-IsAttended_example = events-IsAttended visit fresh
