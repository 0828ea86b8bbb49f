-- ===== src/Life/Message/Data.antt =====
-- What the entries of a queue of mm_message.c hold, and the copies of data into them.
use pluto_project.Base.{
  ℕ, zero, suc, ◌+◌, ◌≡◌, ◌≢◌, refl, sym, subst, Bool, false, Option, none, some, List, [], ◌∷◌,
  ◌++◌, arith, replicate, ≢→==,
}
use pluto_project.Life.{World, pure}
use pluto_project.Life.Holds.{
  held, held-append, held-cons, Holds, Ok, Ok-bind, releases-Ok, acquire-Ok,
}
use pluto_project.Life.Message.{
  Entry, MessagePool, QueueBlocks, blank_entry, free_block, free_mp_data, copy_data, copy_from,
  deep_copy, with_buffer, with_pool, increase,
}

abbrev pub data_of : List Entry → List (Option ℕ)
data_of [] = []
data_of (e ∷ es) = e.mp_data ∷ data_of es

abbrev pub pool_blocks : List MessagePool → List (Option ℕ)
pool_blocks [] = []
pool_blocks (p ∷ ps) = some p.mp_buffer ∷ some p.self ∷ pool_blocks ps

abbrev pub whole : QueueBlocks → List (Option ℕ)
whole q = data_of q.idle ++ (data_of q.ready ++ pool_blocks q.pools)

-- An entry has no data, or more than none.
abbrev pub Filled : Option ℕ → ℕ → Type 0
Filled none n = Unit
Filled (some p) n = n ≢ 0

abbrev pub AllFilled : List Entry → Type 0
AllFilled [] = Unit
AllFilled (e ∷ es) = Filled e.mp_data e.data_size × AllFilled es

-- A message to put has no data, or more than none.
abbrev pub HasData : Option ℕ → Type 0
HasData none = Unit
HasData (some n) = n ≢ 0

pub AllFilled-append : (xs ys : List Entry) → AllFilled xs → AllFilled ys → AllFilled (xs ++ ys)
AllFilled-append [] ys p q = q
AllFilled-append (x ∷ xs) ys p q = (p.0, AllFilled-append xs ys p.1 q)

blank-AllFilled : (n : ℕ) → AllFilled (replicate n blank_entry)
blank-AllFilled zero = tt
blank-AllFilled (suc n) = (tt, blank-AllFilled n)

blank_held : (a n : ℕ) → held a (data_of (replicate n blank_entry)) ≡ 0
blank_held a zero = refl
blank_held a (suc n) = blank_held a n

pub held-data_of :
    (a : ℕ) (xs ys : List Entry)
    → held a (data_of (xs ++ ys)) ≡ held a (data_of xs) + held a (data_of ys)
held-data_of a [] ys = omega arith
held-data_of a (x ∷ xs) ys = omega (
  arith,
  held-data_of a xs ys,
  held-cons a x.mp_data (data_of (xs ++ ys)),
  held-cons a x.mp_data (data_of xs),
)

held-pool_blocks :
    (a : ℕ) (xs ys : List MessagePool)
    → held a (pool_blocks (xs ++ ys)) ≡ held a (pool_blocks xs) + held a (pool_blocks ys)
held-pool_blocks a [] ys = omega arith
held-pool_blocks a (x ∷ xs) ys = omega (arith, held-pool_blocks a xs ys)

pub held-whole :
    (a : ℕ) (q : QueueBlocks)
    → held a (whole q)
      ≡ held a (data_of q.idle) + held a (data_of q.ready) + held a (pool_blocks q.pools)
held-whole a q = omega (
  arith,
  held-append a (data_of q.idle) (data_of q.ready ++ pool_blocks q.pools),
  held-append a (data_of q.ready) (pool_blocks q.pools),
)

module _ (rest : ℕ → ℕ) where
  pub free_mp_data-Ok :
      (e : Entry) (ps : List (Option ℕ)) (w : World)
      → Filled e.mp_data e.data_size
      → Holds (e.mp_data ∷ ps) rest w
      → Ok (λ e' w'. (e'.mp_data ≡ none) × Holds ps rest w') (free_mp_data e w)
  unfolding free_mp_data
  free_mp_data-Ok e ps w filled h = by_block e.mp_data e.data_size filled h
    where
      by_block :
          (p : Option ℕ) (n : ℕ)
          → Filled p n
          → Holds (p ∷ ps) rest w
          → Ok (λ e' w'. (e'.mp_data ≡ none) × Holds ps rest w') (free_block p n w)
      by_block none n f h' = (refl, h')
      by_block (some p) n f h' = rw (≢→== n 0 f) (
          releases-Ok (λ e' w'. (e'.mp_data ≡ none) × Holds ps rest w') (some p ∷ []) ps rest
            (pure blank_entry) w h' λ w' h''. (refl, h''))

  -- A copy leaves an entry that holds its data, if it has any.
  abbrev pub Copied : List (Option ℕ) → Bool × Entry → World → Type 0
  Copied ps r w = Filled r.1.mp_data r.1.data_size × Holds (r.1.mp_data ∷ ps) rest w

  pub deep_copy-Ok :
      (src : Option ℕ) (e : Entry) (ps : List (Option ℕ)) (w : World)
      → HasData src
      → Filled e.mp_data e.data_size
      → Holds (e.mp_data ∷ ps) rest w
      → Ok (Copied ps) (deep_copy src e w)
  unfolding deep_copy
  deep_copy-Ok src e ps w has filled h =
      Ok-bind _ (Copied ps) (free_mp_data e w) _ (free_mp_data-Ok e ps w filled h)
        λ e' w' (freed, h'). by_source src e' w' has freed h'
    where
      without : (e' : Entry) → e'.mp_data ≡ none → Filled e'.mp_data e'.data_size
      without e' freed = rw freed tt

      by_source :
          (s : Option ℕ) (e' : Entry) (w' : World)
          → HasData s
          → e'.mp_data ≡ none
          → Holds ps rest w'
          → Ok (Copied ps) (copy_from s e' w')
      by_source none e' w' hs freed h' =
          (without e' freed, subst (λ p. Holds (p ∷ ps) rest w') (sym freed) h')
      by_source (some n) e' w' hs freed h' = acquire-Ok (Copied ps) ps rest _ w' h' by_block
        where
          by_block :
              (p : Option ℕ) (w'' : World)
              → Holds (p ∷ ps) rest w''
              → Copied ps (copy_data n e' p) w''
          by_block none w'' h'' = (tt, h'')
          by_block (some p) w'' h'' = (hs, h'')

  -- A queue holds its data and its pools.
  pub record Owns (q : QueueBlocks) (w : World) : Type 0 where
    pub idle_filled : AllFilled q.idle
    pub ready_filled : AllFilled q.ready
    pub holds : Holds (whole q) rest w

  pub increase-Ok :
      (q : QueueBlocks) (w : World)
      → Owns q w
      → Ok (λ r w'. Owns r.1 w' × (r.0 ≡ false → r.1 ≡ q)) (increase q w)
  unfolding increase
  increase-Ok q w o = acquire-Ok Q (whole q) rest _ w o.holds by_pool
    where
      Q : Bool × QueueBlocks → World → Type 0
      Q r w' = Owns r.1 w' × (r.0 ≡ false → r.1 ≡ q)

      still : (w' : World) → Holds (whole q) rest w' → Q (false, q) w'
      still w' h' = (
        record { idle_filled = o.idle_filled; ready_filled = o.ready_filled; holds = h' },
        λ _. refl,
      )

      by_buffer :
          (pool : ℕ) (b : Option ℕ) (w' : World)
          → Holds (b ∷ some pool ∷ whole q) rest w'
          → Ok Q (with_buffer pool q b w')
      by_buffer pool none w' h' =
          releases-Ok Q (some pool ∷ []) (whole q) rest (pure (false, q)) w' h' still
      by_buffer pool (some b) w' h' = (
        record {
          idle_filled =
              AllFilled-append q.idle (replicate 16 blank_entry) o.idle_filled (blank-AllFilled 16);
          ready_filled = o.ready_filled;
          holds = λ a.
              let new : List MessagePool = record { self = pool; mp_buffer = b } ∷ [] in
              let more = replicate 16 blank_entry in
              omega (
                arith,
                h' a,
                held-whole a q,
                held-whole a (record q { idle = q.idle ++ more; pools = q.pools ++ new }),
                held-data_of a q.idle more,
                blank_held a 16,
                held-pool_blocks a q.pools new,
              );
        },
        λ e. absurd (cc e),
      )

      by_pool : (p : Option ℕ) (w' : World) → Holds (p ∷ whole q) rest w' → Ok Q (with_pool q p w')
      by_pool none w' h' = still w' h'
      by_pool (some pool) w' h' = acquire-Ok Q (some pool ∷ whole q) rest _ w' h' (by_buffer pool)
