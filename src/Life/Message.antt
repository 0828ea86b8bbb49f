-- ===== src/Life/Message.antt =====
-- The blocks of a message queue of mm_foundations/srcs/mm_message.c: the pools of messages and the
-- copies of their data, from `message_create` to `message_destroy`.
pub mod Data
pub mod Destroyed
use pluto_project.Base.{
  ℕ, ◌+◌, ◌-◌, Bool, true, false, Option, none, some, List, [], ◌∷◌, ◌++◌, ◌==◌, length, replicate,
  if◌then◌else◌,
}
use pluto_project.Message.{max_message_elements}
use pluto_project.Life.{World, Outcome, returned, Prog, pure, bound, ◌>>=◌, ◌>>◌, acquire, release}

-- `mpData` and `mDataSize` of a `message_t` in a pool.
pub record Entry : Type 0 where
  pub mp_data : Option ℕ
  pub data_size : ℕ

-- A `MessagePool` on the list: its own block and its buffer.
pub record MessagePool : Type 0 where
  pub self : ℕ
  pub mp_buffer : ℕ

pub record QueueBlocks : Type 0 where
  pub idle : List Entry
  pub ready : List Entry
  pub msg_cnt : ℕ
  pub pools : List MessagePool

abbrev pub blank_entry : Entry
blank_entry = record { mp_data = none; data_size = 0 }

-- The data of an entry are freed unless their size is 0.
abbrev pub free_block : Option ℕ → ℕ → Prog Entry
free_block none n = pure (record { mp_data = none; data_size = n })
free_block (some p) n =
    if n == 0
    then pure (record { mp_data = some p; data_size = n })
    else (do release (some p); pure blank_entry)

unfoldable pub free_mp_data : Entry → Prog Entry
free_mp_data e = free_block e.mp_data e.data_size

abbrev pub copy_data : ℕ → Entry → Option ℕ → Bool × Entry
copy_data n e none = (false, record e { mp_data = none })
copy_data n e (some p) = (true, record { mp_data = some p; data_size = n })

-- `MessageDeepCopyMessage` of a message with data of some size, or without.
abbrev pub copy_from : Option ℕ → Entry → Prog (Bool × Entry)
copy_from none e = pure (true, e)
copy_from (some n) e = do p ← acquire; pure (copy_data n e p)

unfoldable pub deep_copy : Option ℕ → Entry → Prog (Bool × Entry)
deep_copy src dst = do e ← free_mp_data dst; copy_from src e

-- `MessageIncreaseIdleMessageList`
abbrev pub with_buffer : ℕ → QueueBlocks → Option ℕ → Prog (Bool × QueueBlocks)
with_buffer pool q none = do release (some pool); pure (false, q)
with_buffer pool q (some b) = pure (
  true,
  record q {
    idle = q.idle ++ replicate max_message_elements blank_entry;
    pools = q.pools ++ (record { self = pool; mp_buffer = b } ∷ []);
  },
)

abbrev pub with_pool : QueueBlocks → Option ℕ → Prog (Bool × QueueBlocks)
with_pool q none = pure (false, q)
with_pool q (some pool) = do b ← acquire; with_buffer pool q b

unfoldable pub increase : QueueBlocks → Prog (Bool × QueueBlocks)
increase q = do pool ← acquire; with_pool q pool

-- The first idle entry becomes ready, or stays idle without its data.
abbrev pub put_filled : QueueBlocks → List Entry → Bool × Entry → Bool × QueueBlocks
put_filled q rest r =
    if r.0
    then (true, record q { idle = rest; ready = q.ready ++ (r.1 ∷ []); msg_cnt = q.msg_cnt + 1 })
    else (false, record q { idle = r.1 ∷ rest })

-- `put_message_with_data` into an idle entry.
abbrev pub put_first : Option ℕ → QueueBlocks → List Entry → Prog (Bool × QueueBlocks)
put_first src q [] = pure (false, q)
put_first src q (e ∷ rest) = do r ← deep_copy src e; pure (put_filled q rest r)

abbrev pub put_after_increase : Option ℕ → Bool × QueueBlocks → Prog (Bool × QueueBlocks)
put_after_increase src r = if r.0 then put_first src r.1 r.1.idle else pure (false, r.1)

-- `put_message_with_data`, which asks for more entries if none is idle.
abbrev pub put_in_idle : Option ℕ → QueueBlocks → List Entry → Prog (Bool × QueueBlocks)
put_in_idle src q [] = do r ← increase q; put_after_increase src r
put_in_idle src q (e ∷ rest) = put_first src q (e ∷ rest)

unfoldable pub put_blocks : Option ℕ → QueueBlocks → Prog (Bool × QueueBlocks)
put_blocks src q = put_in_idle src q q.idle

-- `get_message`: the entry becomes idle, and keeps the data whose address the caller gets.
abbrev pub get_first : QueueBlocks → List Entry → QueueBlocks
get_first q [] = q
get_first q (e ∷ rest) = record q {
  ready = rest;
  idle = q.idle ++ (e ∷ []);
  msg_cnt = q.msg_cnt - 1;
}

unfoldable pub get_blocks : QueueBlocks → QueueBlocks
get_blocks q = get_first q q.ready

-- `list_for_each_entry_reverse` over the idle entries.
unfoldable pub free_backwards : List Entry → Prog (Unit {0})
free_backwards [] = pure tt
free_backwards (e ∷ es) = do free_backwards es; _ ← free_mp_data e; pure tt

unfoldable pub free_pools : List MessagePool → Prog (Unit {0})
free_pools [] = pure tt
free_pools (p ∷ ps) = do release (some p.mp_buffer); release (some p.self); free_pools ps

-- `message_destroy`: the ready entries go behind the idle ones first.
unfoldable pub message_destroy : QueueBlocks → Prog QueueBlocks
message_destroy q = do
  free_backwards (q.idle ++ q.ready)
  free_pools q.pools
  pure (record { idle = []; ready = []; msg_cnt = q.msg_cnt - length q.ready; pools = [] })

abbrev pub empty_queue : QueueBlocks
empty_queue = record { idle = []; ready = []; msg_cnt = 0; pools = [] }

-- `message_create`, once the mutex and the condition are there.
unfoldable pub create_queue : Prog (Bool × QueueBlocks)
create_queue = increase empty_queue
