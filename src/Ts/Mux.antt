-- ===== src/Ts/Mux.antt =====
-- The stream that mpeg2ts_write_packet of Mpeg2tsMuxer.c writes, packet by packet: the tables and the
-- two streams interleaved.
pub mod Stream
pub mod Sequence
use native.Mathlib.Decide.{ℕ_discrete}
use pluto_project.Base.{
  ℕ, zero, suc, ◌+◌, ◌-◌, ◌*◌, ◌/◌, ◌%◌, ◌^◌, ◌≤◌, ◌<◌, ◌≡◌, ◌≢◌, refl, ap, sym, subst, ◌∙◌, inl,
  inr, ◌⊎◌, true, false, Option, none, some, List, [], ◌∷◌, ◌++◌, arith, bit_or, ltb, leb, ◌==◌,
  if◌then◌else◌, ◌>>=◌, length, take, drop, get_or, bind_some, take-append-drop, append_assoc,
  length-append, update, update_hit, update_miss, Bool-cases, ==_iff,
}
use pluto_project.Base.Bytes.{bit_or_disjoint}
use pluto_project.Base.Calls.{Calls, flatten, flatten-append}
use pluto_project.Ts.{
  AvFormatContext, AvPacket, Memory, count_up, ts_package_sz, video_stream_idx, audio_stream_idx,
}
use pluto_project.Ts.Psi.{
  pat_bytes, pmt_bytes, pmt_section, write_program_association_table, write_program_map_table,
}
use pluto_project.Ts.Psi.Checked.{length-pmt}
use pluto_project.Ts.Unit.{stream_head, write_access_unit, mpeg2ts_write_packet}
use pluto_project.Ts.Unit.Access.{IsSendable, Sent, write_access_unit-Sent}
use pluto_project.Ts.Unit.Counters.{IsReady}
use pluto_project.Ts.Demux.{Packet, parse_packet, parse_plain, demux, Reads, Reads-cons, GoOn}

-- The counters by PID, as a receiver follows them.
abbrev pub follow : (ℕ → ℕ) → List Packet → ℕ → ℕ
follow next [] = next
follow next (p ∷ ps) = follow (update next p.pid ((p.counter + 1) % 16)) ps

-- No packet of any PID is missing: each has the counter that follows the one before it on its PID.
abbrev pub IsContinuous : (ℕ → ℕ) → List Packet → Type 0
IsContinuous next [] = Unit
IsContinuous next (p ∷ ps) =
    (p.counter ≡ next p.pid) × IsContinuous (update next p.pid ((p.counter + 1) % 16)) ps

-- The receiver has the counters that the context will use next, for its tracks.
pub record IsInStep (ctx : AvFormatContext) (next : ℕ → ℕ) : Type 0 where
  pub pat : next 0 ≡ ctx.pat_continuity_counter
  pub pmt : next 0x1e0 ≡ ctx.pmt_continuity_counter
  pub stream : (i : ℕ) → i < ctx.track_cnt → next (ctx.track_pid i) ≡ ctx.ts_continuity_counter i

-- The PIDs of the tables and of the tracks differ.
pub record AreApart (ctx : AvFormatContext) : Type 0 where
  pub not_pat : (i : ℕ) → i < ctx.track_cnt → ctx.track_pid i ≢ 0
  pub not_pmt : (i : ℕ) → i < ctx.track_cnt → ctx.track_pid i ≢ 0x1e0
  pub streams :
      (i j : ℕ) → i ≢ j → i < ctx.track_cnt → j < ctx.track_cnt → ctx.track_pid i ≢ ctx.track_pid j

parsed_length :
    (bytes : List ℕ) (p : Packet) → parse_packet bytes ≡ some p → length bytes ≡ ts_package_sz
unfolding parse_packet
parsed_length bytes p e = elim (Bool-cases (length bytes == ts_package_sz)) [
  | inl whole ↦ (==_iff (length bytes) ts_package_sz).0 whole
  | inr part ↦ elim (Bool-cases (get_or bytes 0 0 == 0x47)) [
    | inl synced ↦ absurd (cc (rw (synced, part) at e))
    | inr other ↦ absurd (cc (rw other at e))
  ]
]

pub Reads-append :
    (a b : List ℕ) (ps qs : List Packet) → Reads a ps → Reads b qs → Reads (a ++ b) (ps ++ qs)
unfolding demux
Reads-append [] b [] qs ra rb = rb
Reads-append (x ∷ a) b [] qs ra rb = absurd (cc ra)
Reads-append a b (p ∷ ps) qs ra rb =
    let front = take ts_package_sz a in
    let back = drop ts_package_sz a in
    let (x, ex, e1) =
      bind_some (parse_packet front) (λ y. demux (length ps) back >>= (λ ys. some (y ∷ ys)))
        (p ∷ ps) ra in
    let (xs, exs, e2) = bind_some (demux (length ps) back) (λ ys. some (x ∷ ys)) (p ∷ ps) e1 in
    let head : x ≡ p = cc e2 in
    let tail : xs ≡ ps = cc e2 in
    let whole : front ++ (back ++ b) ≡ a ++ b =
      sym (append_assoc front back b) ∙ ap (λ t. t ++ b) (take-append-drop ts_package_sz a) in
    subst (λ t. Reads t (p ∷ ps ++ qs)) whole
      (Reads-cons front (back ++ b) p (ps ++ qs) (parsed_length front x ex) (ex ∙ ap some head)
        (Reads-append back b ps qs (exs ∙ ap some tail) rb))

pub IsContinuous-append :
    (ps qs : List Packet) (next : ℕ → ℕ)
    → IsContinuous next ps
    → IsContinuous (follow next ps) qs
    → IsContinuous next (ps ++ qs)
IsContinuous-append [] qs next h k = k
IsContinuous-append (p ∷ ps) qs next (e, h) k = (e, IsContinuous-append ps qs _ h k)

pub follow-append :
    (ps qs : List Packet) (next : ℕ → ℕ) → follow next (ps ++ qs) ≡ follow (follow next ps) qs
follow-append [] qs next = refl
follow-append (p ∷ ps) qs next = follow-append ps qs _

-- The packets that go on with a unit, to a receiver in step with it.
GoOn-IsContinuous :
    (pid c : ℕ) (ps : List Packet) (next : ℕ → ℕ)
    → c < 16
    → next pid ≡ c
    → GoOn pid c ps
    → IsContinuous next ps
      × (follow next ps pid ≡ (c + length ps) % 16)
      × ((q : ℕ) → pid ≢ q → follow next ps q ≡ next q)
GoOn-IsContinuous pid c [] next hc e g = (tt, e ∙ omega arith, λ q h. refl)
GoOn-IsContinuous pid c (p ∷ ps) next hc e (start, same, counter, g) =
    let after = update next p.pid ((p.counter + 1) % 16) in
    let here : after pid ≡ (c + 1) % 16 =
      ap after (sym same)
      ∙ update_hit next p.pid ((p.counter + 1) % 16)
      ∙ ap (λ (n : ℕ). (n + 1) % 16) counter in
    let rest = GoOn-IsContinuous pid ((c + 1) % 16) ps after (omega arith) here g in
    (
      (counter ∙ sym e ∙ ap next (sym same), rest.0),
      rest.1 ∙ omega arith,
      λ q h. rest.2 q h ∙ update_miss next p.pid ((p.counter + 1) % 16) q (λ w. h (sym same ∙ w)),
    )

-- A call that was muxed: it ends, and a receiver in step with the context reads packets without a
-- gap, and is in step again.
pub record Muxed (ctx : AvFormatContext) (next : ℕ → ℕ) (r : Option (Calls × AvFormatContext))
    : Type 0 where
  pub calls : Calls
  pub after : AvFormatContext
  pub packets : List Packet
  pub done : r ≡ some (calls, after)
  pub reads : Reads (flatten calls) packets
  pub continuous : IsContinuous next packets
  pub in_step : IsInStep after (follow next packets)
  pub same_pids : after.track_pid ≡ ctx.track_pid
  pub same_csd : after.track_csd ≡ ctx.track_csd
  pub same_cnt : after.track_cnt ≡ ctx.track_cnt

abbrev pub step_of : (ℕ → ℕ) → Packet → ℕ → ℕ
step_of next p = update next p.pid ((p.counter + 1) % 16)

module _ (pcr_of : ℕ → ℕ) (mem : Memory) (pkt : AvPacket) where
  pub unit-Muxed :
      (ctx : AvFormatContext) (next : ℕ → ℕ) (r : Option (Calls × AvFormatContext))
      → pkt.stream_idx < ctx.track_cnt
      → AreApart ctx
      → IsInStep ctx next
      → Sent mem pkt ctx r
      → Muxed ctx next r
  unit-Muxed ctx next r idx apart step sent =
      let id = ctx.track_pid pkt.stream_idx in
      let c = ctx.ts_continuity_counter pkt.stream_idx in
      let last = (c + 1 + length sent.packets) % 16 in
      let p = sent.first in
      let here : step_of next p id ≡ (c + 1) % 16 =
        ap (step_of next p) (sym sent.starts.1)
        ∙ update_hit next p.pid ((p.counter + 1) % 16)
        ∙ ap (λ (n : ℕ). (n + 1) % 16) sent.starts.2 in
      let total : ((c + 1) % 16 + length sent.packets) % 16 ≡ last = omega arith in
      let away : (q : ℕ) → id ≢ q → step_of next p q ≡ next q =
        λ q h. update_miss next p.pid ((p.counter + 1) % 16) q (λ w. h (sym sent.starts.1 ∙ w)) in
      let g =
        GoOn-IsContinuous id ((c + 1) % 16) sent.packets (step_of next p) (omega arith) here
          sent.go_on in
      record {
        calls = sent.calls;
        after = record ctx {
          ts_continuity_counter = update ctx.ts_continuity_counter pkt.stream_idx last;
        };
        packets = p ∷ sent.packets;
        done = sent.done;
        reads = sent.reads;
        continuous = (
          sent.starts.2 ∙ sym (step.stream pkt.stream_idx idx) ∙ ap next (sym sent.starts.1),
          g.0,
        );
        in_step = record {
          pat =
              g.2 0 (apart.not_pat pkt.stream_idx idx)
              ∙ away 0 (apart.not_pat pkt.stream_idx idx)
              ∙ step.pat;
          pmt =
              g.2 0x1e0 (apart.not_pmt pkt.stream_idx idx)
              ∙ away 0x1e0 (apart.not_pmt pkt.stream_idx idx)
              ∙ step.pmt;
          stream = λ i hi. elim (ℕ_discrete pkt.stream_idx i) [
            | yes same ↦
                subst
                  (λ j.
                    follow (step_of next p) sent.packets (ctx.track_pid j)
                    ≡ update ctx.ts_continuity_counter pkt.stream_idx last j)
                  same
                  (g.1 ∙ total ∙ sym (update_hit ctx.ts_continuity_counter pkt.stream_idx last))
            | no other ↦
                let far = apart.streams pkt.stream_idx i other idx hi in
                g.2 (ctx.track_pid i) far
                ∙ away (ctx.track_pid i) far
                ∙ step.stream i hi
                ∙ sym (update_miss ctx.ts_continuity_counter pkt.stream_idx last i other)
          ];
        };
        same_pids = refl;
        same_csd = refl;
        same_cnt = refl;
      }
