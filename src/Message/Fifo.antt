-- ===== src/Message/Fifo.antt =====
-- The message queue of mm_message.c delivers messages in order, and counts them.
use pluto_project.Base.{
  ℕ, zero, suc, ◌+◌, ◌-◌, ◌*◌, ◌≡◌, ◌≢◌, refl, ap, sym, subst, ◌∙◌, Bool, true, false, Option, none,
  some, List, [], ◌∷◌, ◌++◌, arith, length, append-nil, ◌⊎◌, length-append, replicate, inl, inr,
  Bool-cases, not, if◌then◌else◌,
}
use pluto_project.Message.{
  Message, MessageQueue, Allocations, blank_message, free_data, message_deep_copy_message,
  message_increase_idle_message_list, fill_idle, put_message_with_data, get_message,
}

-- No message in the list has a block of size 0, which a copy would leave behind.
abbrev pub AllClear : List Message → Type 0
AllClear [] = Unit
AllClear (m ∷ ms) = (m.mp_data ≢ some []) × AllClear ms

-- The count is that of the ready messages, and no message is lost: there are 16 for each pool that
-- was got.
pub record IsCounted (pools : ℕ) (q : MessageQueue) : Type 0 where
  pub counted : q.msg_cnt ≡ length q.ready
  pub kept : length q.idle + length q.ready ≡ 16 * pools

-- What a put adds to the messages that are ready.
abbrev pub accepted : Bool → Message → List Message
accepted done msg = if done then msg ∷ [] else []

-- A queue in use: counted, and clear of blocks of size 0.
pub record InUse (q : MessageQueue) : Type 0 where
  pub pools : ℕ
  pub in_pools : IsCounted pools q
  pub clear_idle : AllClear q.idle
  pub clear_ready : AllClear q.ready

AllClear-append : (xs ys : List Message) → AllClear xs → AllClear ys → AllClear (xs ++ ys)
AllClear-append [] ys p q = q
AllClear-append (x ∷ xs) ys p q = (p.0, AllClear-append xs ys p.1 q)

pub none_clear : {A : Type 0} (xs : List A) → none ≢ some xs
none_clear xs e = ground arith

blank_clear : (n : ℕ) → AllClear (replicate n blank_message)
blank_clear zero = tt
blank_clear (suc n) = (none_clear [], blank_clear n)

-- The copy of a message, by its data and by those of the place where it goes.
module _ (src : Message) where
  abbrev copy : Bool → Option (List ℕ) → Option (List ℕ) → Bool × Message
  copy ok from to = elim from [
    | none ↦ (true, record src { mp_data = free_data to })
    | some bs ↦
        if ok
        then (true, record src { mp_data = some bs })
        else (false, record src { mp_data = none })
  ]

  -- What comes of it: the message itself, or a place without data.
  abbrev Copied : Option (List ℕ) → Bool × Message → Type 0
  Copied from r =
      ((r.0 ≡ true) × (r.1 ≡ record src { mp_data = from }))
      ⊎ ((r.0 ≡ false) × (r.1.mp_data ≡ none))

  copy_lem : (ok : Bool) (from to : Option (List ℕ)) → to ≢ some [] → Copied from (copy ok from to)
  unfolding free_data
  copy_lem ok none none h = inl (refl, refl)
  copy_lem ok none (some []) h = absurd (h refl)
  copy_lem ok none (some (b ∷ bs)) h = inl (refl, refl)
  copy_lem true (some bs) to h = inl (refl, refl)
  copy_lem false (some bs) to h = inr (refl, refl)

deep_copy-Copied :
    (ok : Bool) (dst src : Message)
    → dst.mp_data ≢ some []
    → Copied src src.mp_data (message_deep_copy_message ok dst src)
unfolding message_deep_copy_message
deep_copy-Copied ok dst src h = copy_lem src ok src.mp_data dst.mp_data h

-- What a put does to a queue in use.
abbrev Puts : Message → MessageQueue → Bool × MessageQueue → Type 0
Puts msg q r = (r.1.ready ≡ q.ready ++ accepted r.0 msg) × InUse r.1

fill_idle-Puts :
    (ok : Bool) (msg entry : Message) (rest : List Message) (q : MessageQueue)
    → msg.mp_data ≢ some []
    → InUse q
    → q.idle ≡ entry ∷ rest
    → Puts msg q (fill_idle ok msg entry rest q)
unfolding fill_idle
fill_idle-Puts ok msg entry rest q fresh u e =
    let clear = subst AllClear e u.clear_idle in
    let k = u.in_pools.kept in
    let c = u.in_pools.counted in
    let n = ap length e in
    elim (deep_copy-Copied ok entry msg clear.0) [
      | inl (done, same) ↦
          rw (done, same)
            (
              refl,
              record {
                pools = u.pools;
                in_pools = record {
                  counted = omega (arith, length-append q.ready (msg ∷ []));
                  kept = omega (arith, length-append q.ready (msg ∷ []));
                };
                clear_idle = clear.1;
                clear_ready = AllClear-append q.ready (msg ∷ []) u.clear_ready (fresh, tt);
              },
            )
      | inr (failed, empty) ↦ rw failed (
        sym (append-nil q.ready),
        record {
          pools = u.pools;
          in_pools = record { counted = c; kept = omega arith };
          clear_idle = ((λ x. none_clear [] (sym empty ∙ x)), clear.1);
          clear_ready = u.clear_ready;
        },
      )
    ]

-- More idle messages, or none, and nothing else that shows.
pub increased_InUse :
    (pool_ok buffer_ok : Bool) (q : MessageQueue)
    → InUse q
    → let r = message_increase_idle_message_list pool_ok buffer_ok q in
      (r.1.ready ≡ q.ready) × InUse r.1
unfolding message_increase_idle_message_list
increased_InUse false buffer_ok q u = (refl, u)
increased_InUse true false q u = (
  refl,
  record {
    pools = u.pools;
    in_pools = record { counted = u.in_pools.counted; kept = u.in_pools.kept };
    clear_idle = u.clear_idle;
    clear_ready = u.clear_ready;
  },
)
increased_InUse true true q u =
    let k = u.in_pools.kept in
    (
      refl,
      record {
        pools = u.pools + 1;
        in_pools = record {
          counted = u.in_pools.counted;
          kept = omega (arith, length-append q.idle (replicate 16 blank_message));
        };
        clear_idle =
            AllClear-append q.idle (replicate 16 blank_message) u.clear_idle (blank_clear 16);
        clear_ready = u.clear_ready;
      },
    )

-- The rest of a put, by the idle messages there are.
module _ (a : Allocations) (msg : Message) (q : MessageQueue) where
  abbrev increased : Bool × MessageQueue
  increased = message_increase_idle_message_list a.pool_ok a.buffer_ok q

  abbrev put_increased : List Message → Bool × MessageQueue
  put_increased idle = elim idle [
    | entry ∷ rest ↦ fill_idle a.data_ok msg entry rest increased.1
    | [] ↦ (false, increased.1)
  ]

  abbrev put_idle : List Message → Bool × MessageQueue
  put_idle idle = elim idle [
    | entry ∷ rest ↦ fill_idle a.data_ok msg entry rest q
    | [] ↦ if not increased.0 then (false, increased.1) else put_increased increased.1.idle
  ]

  put_increased-Puts :
      (idle : List Message)
      → msg.mp_data ≢ some []
      → InUse q
      → increased.1.idle ≡ idle
      → Puts msg q (put_increased idle)
  put_increased-Puts [] fresh u e =
      let (same, u') = increased_InUse a.pool_ok a.buffer_ok q u in
      (same ∙ sym (append-nil q.ready), u')
  put_increased-Puts (entry ∷ rest) fresh u e =
      let (same, u') = increased_InUse a.pool_ok a.buffer_ok q u in
      let (ready, u'') = fill_idle-Puts a.data_ok msg entry rest increased.1 fresh u' e in
      (
        ready
            ∙ ap
                (λ (l : List Message).
                  l ++ accepted (fill_idle a.data_ok msg entry rest increased.1).0 msg)
                same,
        u'',
      )

  put_idle-Puts :
      (idle : List Message)
      → msg.mp_data ≢ some []
      → InUse q
      → q.idle ≡ idle
      → Puts msg q (put_idle idle)
  put_idle-Puts (entry ∷ rest) fresh u e = fill_idle-Puts a.data_ok msg entry rest q fresh u e
  put_idle-Puts [] fresh u e =
      let (same, u') = increased_InUse a.pool_ok a.buffer_ok q u in
      elim (Bool-cases increased.0) [
        | inr failed ↦ rw failed (same ∙ sym (append-nil q.ready), u')
        | inl more ↦ rw more (put_increased-Puts increased.1.idle fresh u refl)
      ]

-- A put, by its three allocations and with data that are not empty, puts the message behind those
-- that are ready if it returns 0, and else leaves these as they are; the queue stays in use.
pub put_message_with_data-InUse :
    (a : Allocations) (msg : Message) (q : MessageQueue)
    → msg.mp_data ≢ some []
    → InUse q
    → ((put_message_with_data a msg q).1.ready
        ≡ q.ready ++ accepted (put_message_with_data a msg q).0 msg)
      × InUse (put_message_with_data a msg q).1
unfolding put_message_with_data
put_message_with_data-InUse a msg q fresh u = put_idle-Puts a msg q q.idle fresh u refl

-- What a get hands out.
abbrev pub delivered : Option Message → List Message
delivered none = []
delivered (some m) = m ∷ []

pub get_message-InUse :
    (q : MessageQueue)
    → InUse q
    → (q.ready ≡ delivered (get_message q).0 ++ (get_message q).1.ready) × InUse (get_message q).1
unfolding get_message
get_message-InUse q u = by_ready q.ready refl
  where
    got : List Message → Option Message × MessageQueue
    got l = elim l [
      | [] ↦ (none, q)
      | entry ∷ rest ↦ (
        some entry,
        record q { ready = rest; idle = q.idle ++ (entry ∷ []); msg_cnt = q.msg_cnt - 1 },
      )
    ]

    by_ready :
        (l : List Message)
        → q.ready ≡ l
        → (q.ready ≡ delivered (got l).0 ++ (got l).1.ready) × InUse (got l).1
    by_ready [] e = (refl, u)
    by_ready (entry ∷ rest) e =
        let clear = subst AllClear e u.clear_ready in
        let k = u.in_pools.kept in
        let c = u.in_pools.counted in
        let n = ap length e in
        (
          e,
          record {
            pools = u.pools;
            in_pools = record {
              counted = omega arith;
              kept = omega (arith, length-append q.idle (entry ∷ []));
            };
            clear_idle = AllClear-append q.idle (entry ∷ []) u.clear_idle (clear.0, tt);
            clear_ready = clear.1;
          },
        )
