-- ===== src/Life/Message/Destroyed.antt =====
-- What a queue of mm_message.c leaves live when it was destroyed.
use pluto_project.Base.{
  ℕ, ◌≡◌, refl, subst, Bool, true, false, Option, some, List, [], ◌∷◌, ◌++◌, arith, if◌then◌else◌,
}
use pluto_project.Life.{World, Prog, pure, ◌>>=◌}
use pluto_project.Life.Holds.{
  held, held-append, held-cons, Holds, Ok, Ok-bind, releases-Ok, regroup,
}
use pluto_project.Life.Message.{
  Entry, MessagePool, QueueBlocks, free_mp_data, deep_copy, increase, put_filled, put_first,
  put_after_increase, put_in_idle, put_blocks, get_first, get_blocks, free_backwards, free_pools,
  message_destroy, empty_queue, create_queue,
}
use pluto_project.Life.Message.Data.{
  data_of, pool_blocks, whole, Filled, AllFilled, HasData, AllFilled-append, held-data_of,
  held-whole, free_mp_data-Ok, Copied, deep_copy-Ok, Owns, increase-Ok,
}

-- A put of a message with data of some size or without any, or a get.
pub data BlockCall : Type 0 where
  puts : Option ℕ → BlockCall
  gets : BlockCall

abbrev pub block_call : BlockCall → QueueBlocks → Prog QueueBlocks
block_call (puts src) q = do r ← put_blocks src q; pure r.1
block_call gets q = pure (get_blocks q)

-- Calls, and then the end of the queue.
unfoldable pub calls_and_destroy : List BlockCall → QueueBlocks → Prog QueueBlocks
calls_and_destroy [] q = message_destroy q
calls_and_destroy (c ∷ cs) q = do q' ← block_call c q; calls_and_destroy cs q'

-- A queue from its making to its end; one that could not be made is not destroyed.
unfoldable pub queue_life : List BlockCall → Prog QueueBlocks
queue_life cs = do r ← create_queue; if r.0 then calls_and_destroy cs r.1 else pure r.1

-- No message has data of size 0.
abbrev pub AllHaveData : List BlockCall → Type 0
AllHaveData [] = Unit
AllHaveData (puts src ∷ cs) = HasData src × AllHaveData cs
AllHaveData (gets ∷ cs) = AllHaveData cs

module _ (rest : ℕ → ℕ) where
  abbrev Put : Bool × QueueBlocks → World → Type 0
  Put r w = Owns rest r.1 w

  put_first-Ok :
      (src : Option ℕ) (q : QueueBlocks) (es : List Entry) (w : World)
      → HasData src
      → q.idle ≡ es
      → Owns rest q w
      → Ok Put (put_first src q es w)
  put_first-Ok src q [] w has e o = o
  put_first-Ok src q (x ∷ xs) w has e o =
      let clear = subst AllFilled e o.idle_filled in
      let ps = data_of xs ++ (data_of q.ready ++ pool_blocks q.pools) in
      let all =
        subst (λ l. Holds (data_of l ++ (data_of q.ready ++ pool_blocks q.pools)) rest w) e
          o.holds in
      Ok-bind (Copied rest ps) Put (deep_copy src x w) _
        (deep_copy-Ok rest src x ps w has clear.0 all)
        λ r w' (good, h'). by_copied r w' clear.1 good h'
    where
      by_copied :
          (r : Bool × Entry) (w' : World)
          → AllFilled xs
          → Filled r.1.mp_data r.1.data_size
          → Holds (r.1.mp_data ∷ data_of xs ++ (data_of q.ready ++ pool_blocks q.pools)) rest w'
          → Put (put_filled q xs r) w'
      by_copied (false, entry') w' clear good h' = record {
        idle_filled = (good, clear);
        ready_filled = o.ready_filled;
        holds = h';
      }
      by_copied (true, entry') w' clear good h' = record {
        idle_filled = clear;
        ready_filled = AllFilled-append q.ready (entry' ∷ []) o.ready_filled (good, tt);
        holds = λ a. omega (
          arith,
          h' a,
          held-cons a entry'.mp_data (data_of xs ++ (data_of q.ready ++ pool_blocks q.pools)),
          held-append a (data_of xs) (data_of q.ready ++ pool_blocks q.pools),
          held-append a (data_of q.ready) (pool_blocks q.pools),
          held-whole a (record q { idle = xs; ready = q.ready ++ (entry' ∷ []) }),
          held-data_of a q.ready (entry' ∷ []),
        );
      }

  put_blocks-Ok :
      (src : Option ℕ) (q : QueueBlocks) (w : World)
      → HasData src
      → Owns rest q w
      → Ok Put (put_blocks src q w)
  unfolding put_blocks
  put_blocks-Ok src q w has o = by_idle q.idle refl
    where
      by_increased :
          (r : Bool × QueueBlocks) (w' : World) → Put r w' → Ok Put (put_after_increase src r w')
      by_increased (true, q') w' o' = put_first-Ok src q' q'.idle w' has refl o'
      by_increased (false, q') w' o' = o'

      by_idle : (es : List Entry) → q.idle ≡ es → Ok Put (put_in_idle src q es w)
      by_idle [] e =
          Ok-bind _ Put (increase q w) (put_after_increase src) (increase-Ok rest q w o)
            λ r w' (o', _). by_increased r w' o'
      by_idle (x ∷ xs) e = put_first-Ok src q (x ∷ xs) w has e o

  get_blocks-Ok : (q : QueueBlocks) (w : World) → Owns rest q w → Owns rest (get_blocks q) w
  unfolding get_blocks
  get_blocks-Ok q w o = by_ready q.ready refl
    where
      by_ready : (es : List Entry) → q.ready ≡ es → Owns rest (get_first q es) w
      by_ready [] e = o
      by_ready (x ∷ xs) e =
          let clear = subst AllFilled e o.ready_filled in
          record {
            idle_filled = AllFilled-append q.idle (x ∷ []) o.idle_filled (clear.0, tt);
            ready_filled = clear.1;
            holds = λ a. omega (
              arith,
              o.holds a,
              held-whole a q,
              same a e,
              held-whole a (record q { ready = xs; idle = q.idle ++ (x ∷ []) }),
              held-data_of a q.idle (x ∷ []),
              held-cons a x.mp_data (data_of xs),
            );
          }
        where
          same :
              (a : ℕ)
              → q.ready ≡ x ∷ xs
              → held a (data_of q.ready) ≡ held a (x.mp_data ∷ data_of xs)
          same a e' = rw e' refl

  free_backwards-Ok :
      (es : List Entry) (ps : List (Option ℕ)) (w : World)
      → AllFilled es
      → Holds (data_of es ++ ps) rest w
      → Ok (λ _ w'. Holds ps rest w') (free_backwards es w)
  unfolding free_backwards
  free_backwards-Ok [] ps w clear h = h
  free_backwards-Ok (x ∷ xs) ps w clear h =
      Ok-bind (λ _ w'. Holds (x.mp_data ∷ ps) rest w') (λ _ w'. Holds ps rest w')
        (free_backwards xs w) _
        (free_backwards-Ok xs (x.mp_data ∷ ps) w clear.1 (
          regroup (data_of (x ∷ xs) ++ ps) (data_of xs ++ (x.mp_data ∷ ps)) rest w
            (λ a. omega (
              arith,
              held-cons a x.mp_data (data_of xs ++ ps),
              held-append a (data_of xs) ps,
              held-append a (data_of xs) (x.mp_data ∷ ps),
              held-cons a x.mp_data ps,
            ))
            h))
        λ _ w' h'.
          Ok-bind _ (λ _ w''. Holds ps rest w'') (free_mp_data x w') _
            (free_mp_data-Ok rest x ps w' clear.0 h') λ e' w'' (freed, h''). h''

  free_pools-Ok :
      (pools : List MessagePool) (w : World)
      → Holds (pool_blocks pools) rest w
      → Ok (λ _ w'. Holds [] rest w') (free_pools pools w)
  unfolding free_pools
  free_pools-Ok [] w h = h
  free_pools-Ok (p ∷ ps) w h =
      releases-Ok (λ _ w'. Holds [] rest w') (some p.mp_buffer ∷ some p.self ∷ []) (pool_blocks ps)
        rest (free_pools ps) w h (free_pools-Ok ps)

  abbrev Gone : QueueBlocks → World → Type 0
  Gone q w = Holds [] rest w

  message_destroy-Ok : (q : QueueBlocks) (w : World) → Owns rest q w → Ok Gone (message_destroy q w)
  unfolding message_destroy
  message_destroy-Ok q w o =
      Ok-bind (λ _ w'. Holds (pool_blocks q.pools) rest w') Gone
        (free_backwards (q.idle ++ q.ready) w) _
        (free_backwards-Ok (q.idle ++ q.ready) (pool_blocks q.pools) w
          (AllFilled-append q.idle q.ready o.idle_filled o.ready_filled)
          (regroup (whole q) (data_of (q.idle ++ q.ready) ++ pool_blocks q.pools) rest w
            (λ a. omega (
              arith,
              held-whole a q,
              held-append a (data_of (q.idle ++ q.ready)) (pool_blocks q.pools),
              held-data_of a q.idle q.ready,
            ))
            o.holds))
        λ _ w' h'.
          Ok-bind (λ _ w''. Holds [] rest w'') Gone (free_pools q.pools w') _
            (free_pools-Ok q.pools w' h') λ _ w'' h''. h''

  calls_and_destroy-Ok :
      (cs : List BlockCall) (q : QueueBlocks) (w : World)
      → AllHaveData cs
      → Owns rest q w
      → Ok Gone (calls_and_destroy cs q w)
  unfolding calls_and_destroy
  calls_and_destroy-Ok [] q w has o = message_destroy-Ok q w o
  calls_and_destroy-Ok (puts src ∷ cs) q w (has, later) o =
      Ok-bind (λ q' w'. Owns rest q' w') Gone (block_call (puts src) q w) _
        (Ok-bind Put (λ q' w'. Owns rest q' w') (put_blocks src q w) _ (put_blocks-Ok src q w has o)
          λ r w' o'. o')
        λ q' w' o'. calls_and_destroy-Ok cs q' w' later o'
  calls_and_destroy-Ok (gets ∷ cs) q w has o =
      calls_and_destroy-Ok cs (get_blocks q) w has (get_blocks-Ok q w o)

  -- A message queue that is made, used by puts and gets of messages without data of size 0, each of
  -- whose allocations may fail, and destroyed, in whichever state, leaves live what was live before it
  -- and nothing else, and gives back nothing that is not live.
  pub queue_life-Gone :
      (cs : List BlockCall) (w : World)
      → AllHaveData cs
      → Holds [] rest w
      → Ok Gone (queue_life cs w)
  unfolding queue_life create_queue
  queue_life-Gone cs w has h =
      Ok-bind _ Gone (increase empty_queue w) _
        (increase-Ok rest empty_queue w (record { idle_filled = tt; ready_filled = tt; holds = h }))
        λ r w' (o, empty). by_result r w' o empty
    where
      none_held :
          (q : QueueBlocks) (w' : World) → q ≡ empty_queue → Owns rest q w' → Holds [] rest w'
      none_held q w' e o = subst (λ l. Holds (whole l) rest w') e o.holds

      by_result :
          (r : Bool × QueueBlocks) (w' : World)
          → Owns rest r.1 w'
          → (r.0 ≡ false → r.1 ≡ empty_queue)
          → let more : Prog QueueBlocks = if r.0 then calls_and_destroy cs r.1 else pure r.1 in
            Ok Gone (more w')
      by_result (true, q) w' o empty = calls_and_destroy-Ok cs q w' has o
      by_result (false, q) w' o empty = none_held q w' (empty refl) o
