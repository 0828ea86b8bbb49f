-- ===== src/Message.antt =====
-- mm_foundations/srcs/mm_message.c: the message queue. The list of mm_list.h is the library's list,
-- and each function is the step that it makes while it holds the mutex.
pub mod Fifo
pub mod Order
pub mod Awake
pub mod Wait
mod Tests
use pluto_project.Base.{
  ℕ, ◌+◌, ◌-◌, Bool, true, false, Option, none, some, List, [], ◌∷◌, ◌++◌, ◌==◌, ◌&&◌, not,
  if◌then◌else◌, length, replicate,
}

-- `message_t`. The four `int`s are only copied. `mp_data` is the block at `mpData` of `mDataSize` bytes,
-- `none` for the null pointer, which the model takes with size 0.
pub record Message : Type 0 where
  pub id : ℕ
  pub cmd : ℕ
  pub para0 : ℕ
  pub para1 : ℕ
  pub mp_data : Option (List ℕ)

-- `message_queue_t`
pub record MessageQueue : Type 0 where
  pub idle : List Message
  pub ready : List Message
  pub msg_cnt : ℕ
  pub msg_pool_cnt : ℕ
  pub waiting_flag : Bool

-- `MAX_MESSAGE_ELEMENTS`
abbrev pub max_message_elements : ℕ
max_message_elements = 16

-- A message of a pool whose memory was set to 0.
abbrev pub blank_message : Message
blank_message = record { id = 0; cmd = 0; para0 = 0; para1 = 0; mp_data = none }

-- A block of a size other than 0 is freed; one of size 0 stays.
unfoldable pub free_data : Option (List ℕ) → Option (List ℕ)
free_data none = none
free_data (some []) = some []
free_data (some (b ∷ bs)) = none

-- `MessageDeepCopyMessage`: whether it returns 0, and the destination. `allocated` says whether its
-- `malloc` succeeds.
unfoldable pub message_deep_copy_message : Bool → Message → Message → Bool × Message
message_deep_copy_message allocated dst src = elim src.mp_data [
  | none ↦ (true, record src { mp_data = free_data dst.mp_data })
  | some bs ↦
      if allocated
      then (true, record src { mp_data = some bs })
      else (false, record src { mp_data = none })
]

-- `MessageIncreaseIdleMessageList`, given whether its two allocations succeed.
unfoldable pub message_increase_idle_message_list : Bool → Bool → MessageQueue → Bool × MessageQueue
message_increase_idle_message_list pool_ok buffer_ok q =
    if not pool_ok
    then (false, q)
    else (let q' = record q { msg_pool_cnt = q.msg_pool_cnt + 1 } in
        if not buffer_ok
        then (false, q')
        else (true, record q' { idle = q.idle ++ replicate max_message_elements blank_message }))

-- The three allocations of a put: the pool, its buffer and the data.
pub record Allocations : Type 0 where
  pub pool_ok : Bool
  pub buffer_ok : Bool
  pub data_ok : Bool

-- The first idle message takes the new one and becomes ready; without memory for the data it stays
-- idle, with its fields changed.
unfoldable pub fill_idle :
    Bool → Message → Message → List Message → MessageQueue → Bool × MessageQueue
fill_idle data_ok msg entry rest q =
    let (copied, entry') = message_deep_copy_message data_ok entry msg in
    if copied
    then (true, record q { idle = rest; ready = q.ready ++ (entry' ∷ []); msg_cnt = q.msg_cnt + 1 })
    else (false, record q { idle = entry' ∷ rest })

-- `put_message_with_data`: whether it returns 0, and the queue. An increase that succeeds leaves an
-- idle message, so the last case does not arise.
unfoldable pub put_message_with_data : Allocations → Message → MessageQueue → Bool × MessageQueue
put_message_with_data a msg q = elim q.idle [
  | entry ∷ rest ↦ fill_idle a.data_ok msg entry rest q
  | [] ↦
      let (increased, q') = message_increase_idle_message_list a.pool_ok a.buffer_ok q in
      if not increased
      then (false, q')
      else elim q'.idle [ entry ∷ rest ↦ fill_idle a.data_ok msg entry rest q' | [] ↦ (false, q') ]
]

unfoldable pub put_message : Allocations → Message → MessageQueue → Bool × MessageQueue
put_message a msg q = put_message_with_data a (record msg { mp_data = none }) q

-- `get_message`: the message, or `none` for its -1.
unfoldable pub get_message : MessageQueue → Option Message × MessageQueue
get_message q = elim q.ready [
  | [] ↦ (none, q)
  | entry ∷ rest ↦ (
    some entry,
    record q { ready = rest; idle = q.idle ++ (entry ∷ []); msg_cnt = q.msg_cnt - 1 },
  )
]

-- Whether a put that has accepted its message signals the condition.
unfoldable pub signals : Bool → MessageQueue → Bool
signals accepted q = accepted && q.waiting_flag

unfoldable pub get_message_count : MessageQueue → ℕ
get_message_count q = q.msg_cnt

-- The queue that `message_create` makes, once the mutex and the condition are there.
unfoldable pub message_create : Bool → Bool → Bool × MessageQueue
message_create pool_ok buffer_ok =
    message_increase_idle_message_list pool_ok buffer_ok
      (record { idle = []; ready = []; msg_cnt = 0; msg_pool_cnt = 0; waiting_flag = false })
