-- ===== src/Ts/Unit/Fragments.antt =====
-- The loop of `write_access_unit`: it ends, and its packets carry the data of the frame.
use native.Mathlib.Decide.{dec_lt}
use pluto_project.Base.{
  true, false, ℕ, zero, suc, ◌+◌, ◌-◌, ◌*◌, ◌/◌, ◌%◌, ◌^◌, ◌≤◌, ◌<◌, ◌≡◌, refl, ap, sym, ◌∙◌, ◌⊎◌,
  Option, some, List, [], ◌∷◌, ◌++◌, arith, bit_and, bit_or, ltb, leb, if◌then◌else◌, length, take,
  replicate, length-append, length-take, append_assoc, append-nil, lt→ltb, le→leb, lt→leb, ≢→==,
}
use pluto_project.Base.Bytes.{bit_and_low, bit_or_disjoint}
use pluto_project.Base.Calls.{Calls, flatten, flatten-append}
use pluto_project.Ts.{AvPacket, Memory, read, ts_package_sz}
use pluto_project.Ts.Unit.{Cursor, write_av_ts_packet, fragment_header, write_fragments}
use pluto_project.Ts.Demux.{
  Packet, parse_plain, parse_padded, parse_packet, Reads, demux, Reads-cons, GoOn, payloads,
}

pub length-read : (mem : Memory) (p n : ℕ) → length (read mem p n) ≡ n
length-read mem p zero = refl
length-read mem p (suc n) = ap suc (length-read mem (p + 1) n)

pub read-append :
    (mem : Memory) (p m n : ℕ) → read mem p m ++ read mem (p + m) n ≡ read mem p (m + n)
read-append mem p zero n =
    let e : p + 0 ≡ p = omega arith in let e' : 0 + n ≡ n = omega arith in rw (e, e') refl
read-append mem p (suc m) n =
    let e : p + suc m ≡ p + 1 + m = omega arith in
    let e' : suc m + n ≡ suc (m + n) = omega arith in rw (e, e', read-append mem (p + 1) m n) refl

-- The second block follows the first one in memory, or there is only the first.
abbrev pub IsPlaced : AvPacket → Type 0
IsPlaced pkt = (pkt.data1 ≡ pkt.data0 + pkt.size0) ⊎ ((pkt.size1 ≡ 0) × (0 < pkt.size0))

-- The cursor stands in the data, with all that follows left to write.
pub record IsInside (pkt : AvPacket) (at : Cursor) : Type 0 where
  pub from : pkt.data0 ≤ at.ptr
  pub to : at.ptr + at.left ≡ pkt.data0 + pkt.size0 + pkt.size1

pub record Wrote (mem : Memory) (at : Cursor) (size : ℕ) (r : Option (Calls × Cursor))
    : Type 0 where
  pub out : Calls
  pub done : r ≡ some (out, record { left = at.left - size; ptr = at.ptr + size })
  pub bytes : flatten out ≡ read mem at.ptr size

pub write_av_ts_packet-Wrote :
    (mem : Memory) (pkt : AvPacket) (size : ℕ) (at : Cursor)
    → IsPlaced pkt
    → IsInside pkt at
    → 0 < at.left
    → size ≤ at.left
    → Wrote mem at size (write_av_ts_packet mem pkt size at)
unfolding write_av_ts_packet
write_av_ts_packet-Wrote mem pkt size at placed inside some_left fits =
    let enough = le→leb size at.left fits in
    elim (dec_lt at.ptr (pkt.data0 + pkt.size0)) [
      | yes in0 ↦
          let low = le→leb pkt.data0 at.ptr inside.from in
          let high = lt→ltb at.ptr (pkt.data0 + pkt.size0) in0 in
          elim (dec_lt (pkt.data0 + pkt.size0) (at.ptr + size)) [
            | yes over ↦
                let next : pkt.data1 ≡ pkt.data0 + pkt.size0 = ground arith in
                let room = pkt.data0 + pkt.size0 - at.ptr in
                let split = lt→leb (at.ptr + size) (pkt.data0 + pkt.size0) over in
                let start : pkt.data1 ≡ at.ptr + room = omega arith in
                let stop : pkt.data1 + (size - room) ≡ at.ptr + size = omega arith in
                let total : room + (size - room) ≡ size = omega arith in
                rw (enough, low, high, split)
                  (record {
                    out = read mem at.ptr room ∷ read mem pkt.data1 (size - room) ∷ [];
                    done = rw stop refl;
                    bytes =
                        rw (append-nil, start, read-append mem at.ptr room (size - room), total)
                          refl;
                  })
            | no within ↦
                let one = le→leb (at.ptr + size) (pkt.data0 + pkt.size0) (omega arith) in
                rw (enough, low, high, one)
                  (record { out = read mem at.ptr size ∷ []; done = refl; bytes = append-nil _ })
          ]
      | no past ↦
          let next : pkt.data1 ≡ pkt.data0 + pkt.size0 = ground arith in
          let low = le→leb pkt.data0 at.ptr inside.from in
          let high : ltb at.ptr (pkt.data0 + pkt.size0) ≡ false = ground arith in
          let one : leb (at.ptr + size) (pkt.data1 + pkt.size1) ≡ true =
            le→leb _ _ (omega (arith, inside.to)) in
          rw (enough, low, high, one)
            (record { out = read mem at.ptr size ∷ []; done = refl; bytes = append-nil _ })
    ]

high_bits : (a c : ℕ) → a < 16 → c < 16 → bit_or (a * 2 ^ 4) c % 256 ≡ a * 16 + c
high_bits a c ha hc = omega (arith, bit_or_disjoint 4 a c)

whole_header :
    (pid c left : ℕ)
    → 184 ≤ left
    → fragment_header pid c left
      ≡ 0x47 ∷ pid / 2 ^ 8 % 256 ∷ bit_and pid 0xff ∷ bit_or 0x10 c % 256 ∷ []
unfolding fragment_header
whole_header pid c left h =
    let last : ltb left (ts_package_sz - 4) ≡ false = ground arith in rw last refl

padded_header :
    (pid c left q : ℕ)
    → left + suc q ≡ 184
    → 0 < left
    → fragment_header pid c left
      ≡ 0x47
        ∷ pid / 2 ^ 8 % 256
        ∷ bit_and pid 0xff
        ∷ bit_or 0x30 c % 256
        ∷ q
        ∷ take q ((if leb 2 (suc q) then 0 else 0xff) ∷ replicate 182 0xff)
unfolding fragment_header
padded_header pid c left q h pos =
    let last : ltb left (ts_package_sz - 4) ≡ true = lt→ltb _ _ (omega arith) in
    let padding : ts_package_sz - 4 - left ≡ suc q = omega arith in
    let room : suc q + 4 ≡ suc (suc (suc (suc (suc q)))) = omega arith in
    let field : suc q - 1 ≡ q = omega arith in rw (last, padding, room, field) refl

-- A packet that goes on with a unit.
abbrev fragment : ℕ → ℕ → List ℕ → Packet
fragment pid c body = record { start = 0; pid = pid; counter = c; payload = body }

module _ (pid c left : ℕ) (hp : pid < 2 ^ 13) (hc : c < 16) where
  start_clear : pid / 2 ^ 8 % 256 / 64 % 2 ≡ 0
  start_clear = omega arith

  pid_read : pid / 2 ^ 8 % 256 % 32 * 256 + bit_and pid 0xff ≡ pid
  pid_read = omega (arith, bit_and_low 8 pid)

  whole_fragment :
      (body : List ℕ)
      → 184 ≤ left
      → length body ≡ 184
      → (length (fragment_header pid c left ++ body) ≡ ts_package_sz)
        × (parse_packet (fragment_header pid c left ++ body) ≡ some (fragment pid c body))
  whole_fragment body h len =
      let bits : bit_or 0x10 c % 256 ≡ 16 + c = high_bits 1 c (omega arith) hc in
      let control : (16 + c) / 16 % 4 ≡ 1 = omega arith in
      let counter : (16 + c) % 16 ≡ c = omega arith in
      let parsed = parse_plain (pid / 2 ^ 8 % 256) (bit_and pid 0xff) (16 + c) body len control in
      rw (whole_header pid c left h, bits)
        (omega arith, parsed ∙ rw (start_clear, pid_read, counter) refl)

  padded_fragment :
      (body : List ℕ)
      → left < 184
      → 0 < left
      → length body ≡ left
      → (length (fragment_header pid c left ++ body) ≡ ts_package_sz)
        × (parse_packet (fragment_header pid c left ++ body) ≡ some (fragment pid c body))
  padded_fragment body h pos len =
      let q = 183 - left in
      let bits : bit_or 0x30 c % 256 ≡ 48 + c = high_bits 3 c (omega arith) hc in
      let control : (48 + c) / 16 % 4 ≡ 3 = omega arith in
      let counter : (48 + c) % 16 ≡ c = omega arith in
      let first : ℕ = if leb 2 (suc q) then 0 else 0xff in
      let field = take q (first ∷ replicate 182 0xff) in
      let room : length field ≡ q = omega (arith, length-take q (first ∷ replicate 182 0xff)) in
      let parsed =
        parse_padded (pid / 2 ^ 8 % 256) (bit_and pid 0xff) (48 + c) q field body room (omega arith)
          control in
      rw (padded_header pid c left q (omega arith) pos, bits)
        (omega (arith, length-append field body), parsed ∙ rw (start_clear, pid_read, counter) refl)

-- How much data the loop puts into its next packet.
abbrev pub room_of : ℕ → ℕ
room_of left = if ltb left (ts_package_sz - 4) then left else ts_package_sz - 4

any_fragment :
    (pid c left : ℕ) (body : List ℕ)
    → pid < 2 ^ 13
    → c < 16
    → 0 < left
    → length body ≡ room_of left
    → (length (fragment_header pid c left ++ body) ≡ ts_package_sz)
      × (parse_packet (fragment_header pid c left ++ body) ≡ some (fragment pid c body))
any_fragment pid c left body hp hc pos len = elim (dec_lt left 184) [
  | yes h ↦ padded_fragment pid c left hp hc body h pos (ground arith)
  | no h ↦ whole_fragment pid c left hp hc body (omega arith) (ground arith)
]

-- The loop is done: its packets can be read, go on with the unit, and carry what was left.
pub record Finished (mem : Memory) (pid c : ℕ) (at : Cursor) (r : Option (Calls × ℕ)) : Type 0 where
  pub calls : Calls
  pub packets : List Packet
  pub done : r ≡ some (calls, (c + length packets) % 16)
  pub reads : Reads (flatten calls) packets
  pub go_on : GoOn pid c packets
  pub carries : payloads packets ≡ read mem at.ptr at.left
  pub number : length packets ≡ (at.left + 183) / 184

-- The cursor after `n` bytes.
abbrev pub advance : ℕ → Cursor → Cursor
advance n at = record { left = at.left - n; ptr = at.ptr + n }

next_counter : (c : ℕ) → c < 16 → (if leb 0x0f c then 0 else c + 1) ≡ (c + 1) % 16
next_counter c h = ground arith

module _ (mem : Memory) (pkt : AvPacket) (pid : ℕ) (placed : IsPlaced pkt) (hp : pid < 2 ^ 13) where
  -- One round of the loop and the rounds after it.
  one_more :
      (fuel c : ℕ) (at : Cursor)
      → c < 16
      → 0 < at.left
      → (w : Wrote mem at (room_of at.left) (write_av_ts_packet mem pkt (room_of at.left) at))
      → Finished mem pid
          ((c + 1) % 16)
          (advance (room_of at.left) at)
          (write_fragments fuel mem pkt pid ((c + 1) % 16) (advance (room_of at.left) at))
      → Finished mem pid c at (write_fragments (suc fuel) mem pkt pid c at)
  unfolding write_fragments
  one_more fuel c at hc pos w rest =
      let header = fragment_header pid c at.left in
      let size = room_of at.left in
      let len : length (flatten w.out) ≡ size = ap length w.bytes ∙ length-read mem at.ptr size in
      let ok = any_fragment pid c at.left (flatten w.out) hp hc pos len in
      let more = ≢→== at.left 0 (λ e. absurd (omega arith)) in
      let total : flatten (header ∷ w.out ++ rest.calls)
          ≡ (header ++ flatten w.out) ++ flatten rest.calls =
        ap (λ t. header ++ t) (flatten-append w.out rest.calls)
        ∙ sym (append_assoc header (flatten w.out) (flatten rest.calls)) in
      let count : ((c + 1) % 16 + length rest.packets) % 16 ≡ (c + suc (length rest.packets)) % 16 =
        omega arith in
      let split : size + (at.left - size) ≡ at.left = ground arith in
      record {
        calls = header ∷ w.out ++ rest.calls;
        packets = fragment pid c (flatten w.out) ∷ rest.packets;
        done = rw (more, w.done, next_counter c hc, rest.done) (rw count refl);
        reads = rw total (
            Reads-cons (header ++ flatten w.out) (flatten rest.calls) _ rest.packets ok.0 ok.1
              rest.reads);
        go_on = (refl, refl, refl, rest.go_on);
        carries =
            rw (w.bytes, rest.carries)
              (read-append mem at.ptr size (at.left - size) ∙ ap (read mem at.ptr) split);
        number = ground (arith, rest.number);
      }

  -- From a cursor in data that lies in one piece, or in a first block alone, one round more than there are
  -- bytes left is enough for the loop: it ends, and its packets can be read, go on with the unit, and carry
  -- what was left, 184 bytes in each but the last.
  pub write_fragments-Finished :
      (fuel c : ℕ) (at : Cursor)
      → at.left < fuel
      → c < 16
      → IsInside pkt at
      → Finished mem pid c at (write_fragments fuel mem pkt pid c at)
  unfolding write_fragments
  write_fragments-Finished zero c at h hc inside = absurd (omega arith)
  write_fragments-Finished (suc fuel) c at h hc inside = elim (dec_lt 0 at.left) [
    | yes pos ↦
        let room_ok : (room_of at.left ≤ at.left) × (0 < room_of at.left) = ground arith in
        let w = write_av_ts_packet-Wrote mem pkt (room_of at.left) at placed inside pos room_ok.0 in
        one_more fuel c at hc pos w (
          write_fragments-Finished fuel ((c + 1) % 16) _ (omega (arith, room_ok.0, room_ok.1))
            (omega arith)
            (record {
              from = omega (arith, inside.from);
              to = omega (arith, inside.to, room_ok.0);
            }))
    | no none_left ↦
        let stop : at.left ≡ 0 = omega arith in
        record {
          calls = [];
          packets = [];
          done = rw stop (ap (λ n. some ([], n)) (omega arith));
          reads = unfold demux in refl;
          go_on = tt;
          carries = rw stop refl;
          number = rw stop refl;
        }
  ]
