-- ===== src/Ts/Psi/Checked.antt =====
-- The program tables of Mpeg2tsMuxer.c as a receiver checks them.
use pluto_project.Base.{
  ℕ, zero, suc, ◌+◌, ◌-◌, ◌*◌, ◌/◌, ◌%◌, ◌^◌, ◌≤◌, ◌<◌, ◌≡◌, refl, ap, sym, ◌∙◌, List, [], ◌∷◌,
  ◌++◌, arith, bit_and, bit_or, ◌==◌, if◌then◌else◌, length, take, drop, get_or, replicate,
  length-append, length-replicate, take-append,
}
use pluto_project.Base.Bytes.{bit_and_low, bit_or_disjoint}
use pluto_project.Ts.{AvFormatContext, ts_package_sz}
use pluto_project.Ts.Crc.{
  init_crc_table, crc32, crc_loop, crc_step, crc_entries, crc_entry, crc_rounds, crc_round,
}
use pluto_project.Ts.Crc.Rounds.{AreBytes}
use pluto_project.Ts.Crc.Residue.{crc32-residue}
use pluto_project.Ts.Psi.{
  fill_ff, pat_bytes, write_program_association_table, stream_descriptions, pmt_section,
  network_bytes, pmt_bytes, write_program_map_table,
}

-- The section of a packet that starts one: from byte 5 on, as long as its header says.
unfoldable pub section : List ℕ → List ℕ
section packet = take (3 + (get_or packet 6 0 % 16 * 256 + get_or packet 7 0)) (drop 5 packet)

-- A stream as a program map lists it: its type and its PID.
unfoldable pub listed_streams : ℕ → List ℕ → List (ℕ × ℕ)
listed_streams zero bytes = []
listed_streams (suc n) bytes =
    (get_or bytes 0 0, get_or bytes 1 0 % 32 * 256 + get_or bytes 2 0)
    ∷ listed_streams n (drop 5 bytes)

-- The streams of the context: the first is H.264, the others AAC.
unfoldable pub own_streams : (ℕ → ℕ) → ℕ → ℕ → List (ℕ × ℕ)
own_streams pid i zero = []
own_streams pid i (suc n) = (if i == 0 then 0x1b else 0x0f, pid i) ∷ own_streams pid (i + 1) n

length-stream_descriptions : (pid : ℕ → ℕ) (i n : ℕ) → length (stream_descriptions pid i n) ≡ 5 * n
unfolding stream_descriptions
length-stream_descriptions pid i zero = refl
length-stream_descriptions pid i (suc n) = omega (arith, length-stream_descriptions pid (i + 1) n)

AreBytes-stream_descriptions : (pid : ℕ → ℕ) (i n : ℕ) → AreBytes (stream_descriptions pid i n)
unfolding stream_descriptions
AreBytes-stream_descriptions pid i zero = tt
AreBytes-stream_descriptions pid i (suc n) = (
  ground arith,
  (
    omega arith,
    (
      omega (arith, bit_and_low 8 (pid i)),
      (omega arith, (omega arith, AreBytes-stream_descriptions pid (i + 1) n)),
    ),
  ),
)

listed-own :
    (pid : ℕ → ℕ) (i n : ℕ) (rest : List ℕ)
    → ((j : ℕ) → pid j < 2 ^ 13)
    → listed_streams n (stream_descriptions pid i n ++ rest) ≡ own_streams pid i n
unfolding stream_descriptions listed_streams own_streams
listed-own pid i zero rest h = refl
listed-own pid i (suc n) rest h =
    let bound = h i in
    let e : bit_or 224 (pid i / 256) % 256 % 32 * 256 + bit_and (pid i) 255 ≡ pid i =
      omega (arith, bit_or_disjoint 5 7 (pid i / 256), bit_and_low 8 (pid i)) in
    rw (e, listed-own pid (i + 1) n rest h) refl

-- What a receiver finds in a packet that holds a program map.
pub record IsMapOf (ctx : AvFormatContext) (packet : List ℕ) : Type 0 where
  pub whole : length packet ≡ ts_package_sz
  pub checked : crc32 init_crc_table (section packet) ≡ 0
  pub streams :
      listed_streams ctx.track_cnt (drop 12 (section packet))
      ≡ own_streams ctx.track_pid 0 ctx.track_cnt

length-pmt_whole :
    (ctx : AvFormatContext)
    → length (pmt_section ctx ++ network_bytes (crc32 ctx.crc_table (pmt_section ctx)))
      ≡ 16 + 5 * ctx.track_cnt
unfolding pmt_section network_bytes
length-pmt_whole ctx = omega (
  arith,
  length-append (stream_descriptions ctx.track_pid 0 ctx.track_cnt)
      (network_bytes (crc32 ctx.crc_table (pmt_section ctx))),
  length-stream_descriptions ctx.track_pid 0 ctx.track_cnt,
)

section_pmt :
    (ctx : AvFormatContext)
    → ctx.track_cnt ≤ 2
    → section (pmt_bytes ctx)
      ≡ pmt_section ctx ++ network_bytes (crc32 ctx.crc_table (pmt_section ctx))
unfolding section pmt_bytes pmt_section
section_pmt ctx two =
    let whole = pmt_section ctx ++ network_bytes (crc32 ctx.crc_table (pmt_section ctx)) in
    let high : (9 + 5 * ctx.track_cnt + 4) / 256 ≡ 0 = omega arith in
    let len : 3
          + (bit_or 176 ((9 + 5 * ctx.track_cnt + 4) / 256) % 256 % 16 * 256
              + bit_and (9 + 5 * ctx.track_cnt + 4) 255)
        ≡ 16 + 5 * ctx.track_cnt =
      rw high (omega (arith, bit_and_low 8 (9 + 5 * ctx.track_cnt + 4))) in
    ap
      (λ k.
        take k
          (whole ++ replicate (ts_package_sz - suc (suc (suc (suc (suc (length whole)))))) 0xff))
      (len ∙ sym (length-pmt_whole ctx))
    ∙ take-append whole _

length-fill_ff :
    (bytes : List ℕ) → length bytes ≤ ts_package_sz → length (fill_ff bytes) ≡ ts_package_sz
length-fill_ff bytes h =
    let fill = ts_package_sz - length bytes in
    omega
      (arith, length-append {A = ℕ} bytes (replicate fill 0xff), length-replicate {A = ℕ} fill 0xff)

pub length-pmt :
    (ctx : AvFormatContext) → ctx.track_cnt ≤ 2 → length (pmt_bytes ctx) ≡ ts_package_sz
unfolding pmt_bytes
length-pmt ctx two =
    length-fill_ff
      (0x47 ∷ 0x41 ∷ 0xe0 ∷ bit_or 0x10 ctx.pmt_continuity_counter % 256 ∷ 0x00 ∷ pmt_section ctx
        ++ network_bytes (crc32 ctx.crc_table (pmt_section ctx)))
      (omega (arith, length-pmt_whole ctx))

listed_pmt :
    (ctx : AvFormatContext) (rest : List ℕ)
    → ((i : ℕ) → ctx.track_pid i < 2 ^ 13)
    → listed_streams ctx.track_cnt (drop 12 (pmt_section ctx ++ rest))
      ≡ own_streams ctx.track_pid 0 ctx.track_cnt
unfolding pmt_section
listed_pmt ctx rest pids = listed-own ctx.track_pid 0 ctx.track_cnt rest pids

AreBytes-pmt_section : (ctx : AvFormatContext) → AreBytes (pmt_section ctx)
unfolding pmt_section
AreBytes-pmt_section ctx =
    let streams = AreBytes-stream_descriptions ctx.track_pid 0 ctx.track_cnt in
    let low = bit_and_low 8 (9 + 5 * ctx.track_cnt + 4) in ground arith

-- The program map that is written for at most two streams is one TS packet; the section that its
-- length field delimits passes the CRC check, and lists the PIDs of the streams, which have 13
-- bits.
pub write_program_map_table-IsMapOf :
    (ctx : AvFormatContext)
    → ctx.crc_table ≡ init_crc_table
    → ctx.track_cnt ≤ 2
    → ((i : ℕ) → ctx.track_pid i < 2 ^ 13)
    → (packet : List ℕ) × ((write_program_map_table ctx).0 ≡ packet ∷ []) × IsMapOf ctx packet
unfolding write_program_map_table
write_program_map_table-IsMapOf ctx table two pids =
    let crc = crc32 ctx.crc_table (pmt_section ctx) in
    let found = section_pmt ctx two in
    (
      pmt_bytes ctx,
      refl,
      record {
        whole = length-pmt ctx two;
        checked =
            ap (crc32 init_crc_table) found
            ∙ ap
                (λ t.
                  crc32 init_crc_table
                    (pmt_section ctx ++ network_bytes (crc32 t (pmt_section ctx))))
                table
            ∙ crc32-residue (pmt_section ctx) (AreBytes-pmt_section ctx);
        streams =
            ap (λ bytes. listed_streams ctx.track_cnt (drop 12 bytes)) found
            ∙ listed_pmt ctx (network_bytes crc) pids;
      },
    )

-- The PID of a packet.
unfoldable pub pid_of : List ℕ → ℕ
pid_of packet = get_or packet 1 0 % 32 * 256 + get_or packet 2 0

pat_checked : (counter : ℕ) → crc32 init_crc_table (section (pat_bytes counter)) ≡ 0
unfolding section pat_bytes crc32 crc_loop crc_step init_crc_table crc_entries crc_entry crc_rounds
    crc_round
pat_checked counter = refl

-- The association table is one TS packet of the PID 0; its section passes the CRC check, and the
-- PID that it gives for the map is the one of the packet that the map is written to.
pub association_lem :
    (ctx : AvFormatContext)
    → (packet : List ℕ) × ((write_program_association_table ctx).0 ≡ packet ∷ [])
      × (length packet ≡ ts_package_sz)
      × (pid_of packet ≡ 0)
      × (crc32 init_crc_table (section packet) ≡ 0)
      × (get_or (section packet) 10 0 % 32 * 256 + get_or (section packet) 11 0
          ≡ pid_of (pmt_bytes ctx))
unfolding write_program_association_table section pat_bytes pmt_bytes pid_of
association_lem ctx = (
  pat_bytes ctx.pat_continuity_counter,
  refl,
  refl,
  refl,
  pat_checked ctx.pat_continuity_counter,
  refl,
)
