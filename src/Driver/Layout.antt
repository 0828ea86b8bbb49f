-- ===== src/Driver/Layout.antt =====
-- How Mp4MuxerOpen of Mp4MuxerDrv.c divides the memory `mov_inf_cache` among the tables.
use pluto_project.Base.{ℕ, ◌+◌, ◌≤◌, ◌<◌, ◌≡◌, ◌≢◌, ◌⊎◌, inl, inr, refl, arith}
use native.Mathlib.Decide.{dec_lt}
use pluto_project.Mp4.Room.{IsTable, IsSafe, no_slack}
use pluto_project.Mp4.{MovContext, stts_id}
use pluto_project.Driver.Mp4.{
  open_context, table_start, table_end, table_size, tiny_page_start, tiny_page_size,
  total_cache_size,
}

before_same : (id : ℕ) → id < stts_id → table_end id 0 < table_start id 1
unfolding table_start table_end table_size
before_same id h = ground arith

before_other :
    (id k id' k' : ℕ)
    → IsTable id k
    → IsTable id' k'
    → id < id'
    → table_end id k < table_start id' k'
unfolding table_start table_end table_size
before_other id k id' k' t t' h = ground arith

-- The words of one table, in order, are those of no other.
abbrev pub AreDisjoint : ℕ → ℕ → ℕ → ℕ → Type 0
AreDisjoint a b c d = (b < c) ⊎ (d < a)

inside :
    (id k : ℕ)
    → IsTable id k
    → (table_start id k < table_end id k) × (table_end id k < tiny_page_start)
unfolding table_start table_end table_size tiny_page_start
inside id k t = ground arith

spare : tiny_page_start + tiny_page_size ≡ total_cache_size
unfolding tiny_page_start table_start
spare = refl

apart :
    (id k id' k' : ℕ)
    → IsTable id k
    → IsTable id' k'
    → ((id ≡ id') → (k ≢ k'))
    → AreDisjoint (table_start id k) (table_end id k) (table_start id' k') (table_end id' k')
apart id k id' k' t t' differ = elim (dec_lt id id') [
  | yes h ↦ inl (before_other id k id' k' t t' h)
  | no h ↦ elim (dec_lt id' id) [
    | yes h' ↦ inr (before_other id' k' id k t' t h')
    | no h' ↦ elim (dec_lt k k') [
      | yes l ↦
          let first : k ≡ 0 = omega arith in
          let second : k' ≡ 1 = omega arith in
          let same : id' ≡ id = omega arith in
          rw (first, second, same) (inl (before_same id (omega arith)))
      | no l ↦
          let ne = differ (omega arith) in
          let first : k' ≡ 0 = ground arith in
          let second : k ≡ 1 = ground arith in
          let same : id' ≡ id = omega arith in
          rw (first, second, same) (inr (before_same id (omega arith)))
    ]
  ]
]

-- The pointers of an opened muxer.
module _ (raw_time : ℕ) (words keyframes : ℕ → ℕ) where
  abbrev opened : MovContext
  opened = open_context raw_time words keyframes

  -- In a muxer that was just opened, every table is empty and starts before it ends, it ends before the
  -- spare pages at the end of the memory, and no two tables share a word.
  pub open_context_lem :
      (id k id' k' : ℕ)
      → IsTable id k
      → IsTable id' k'
      → ((id ≡ id') → (k ≢ k'))
      → (opened.write_ptr id k ≡ opened.start_ptr id k)
        × (opened.start_ptr id k < opened.end_ptr id k)
        × (opened.end_ptr id k < tiny_page_start)
        × (tiny_page_start + tiny_page_size ≡ total_cache_size)
        × AreDisjoint
            (opened.start_ptr id k)
            (opened.end_ptr id k)
            (opened.start_ptr id' k')
            (opened.end_ptr id' k')
  unfolding open_context
  open_context_lem id k id' k' t t' differ =
      let bounds = inside id k t in (refl, bounds.0, bounds.1, spare, apart id k id' k' t t' differ)

-- Each table is in order, and the pointers of an opened muxer are in its tables.
pub ordered : (id k : ℕ) → IsTable id k → table_start id k ≤ table_end id k
ordered id k t = let b = inside id k t in omega arith

pub open_context-IsSafe :
    (raw_time : ℕ) (words keyframes : ℕ → ℕ)
    → IsSafe table_start table_end words ordered no_slack (open_context raw_time words keyframes)
unfolding open_context
open_context-IsSafe raw_time words keyframes = record {
  starts = refl;
  ends = refl;
  room = λ id k t. let b = inside id k t in (omega arith, omega arith);
  outside = λ p o. refl;
}
