-- ===== src/Ts/Demux.antt =====
-- What a receiver reads in a transport stream: packets of 188 bytes, each with a header, an optional
-- adaptation field and a payload. It is written from the format, against the code of Mpeg2tsMuxer.c.
use pluto_project.Base.{
  ℕ, zero, suc, ◌+◌, ◌*◌, ◌/◌, ◌%◌, ◌≡◌, refl, ap, sym, ◌∙◌, Option, none, some, List, [], ◌∷◌,
  ◌++◌, arith, true, leb, le→leb, ◌==◌, ◌&&◌, if◌then◌else◌, ◌>>=◌, length, take, drop, get_or,
  take-append, drop-append, length-append,
}
use pluto_project.Ts.{ts_package_sz}

pub record Packet : Type 0 where
  pub start : ℕ
  pub pid : ℕ
  pub counter : ℕ
  pub payload : List ℕ

-- The packet in 188 bytes, by the place where its payload starts.
unfoldable pub packet_from : List ℕ → ℕ → Option Packet
packet_from bytes at =
    if leb at ts_package_sz
    then some (record {
      start = get_or bytes 1 0 / 64 % 2;
      pid = get_or bytes 1 0 % 32 * 256 + get_or bytes 2 0;
      counter = get_or bytes 3 0 % 16;
      payload = drop at bytes;
    })
    else none

-- There is a payload alone (1), or one after an adaptation field (3).
unfoldable pub parse_packet : List ℕ → Option Packet
parse_packet bytes =
    let control = get_or bytes 3 0 / 16 % 4 in
    if get_or bytes 0 0 == 0x47 && length bytes == ts_package_sz
    then (if control == 1
        then packet_from bytes 4
        else if control == 3
        then packet_from bytes (5 + get_or bytes 4 0)
        else none)
    else none

-- `n` packets, and no byte more.
unfoldable pub demux : ℕ → List ℕ → Option (List Packet)
demux zero [] = some []
demux zero (b ∷ bytes) = none
demux (suc n) bytes = do
  p ← parse_packet (take ts_package_sz bytes)
  ps ← demux n (drop ts_package_sz bytes)
  some (p ∷ ps)

-- The bytes are exactly those packets.
abbrev pub Reads : List ℕ → List Packet → Type 0
Reads bytes ps = demux (length ps) bytes ≡ some ps

-- Packets that go on with a unit: none starts one, all have its PID, and the counter goes up by 1,
-- modulo 16.
abbrev pub GoOn : ℕ → ℕ → List Packet → Type 0
GoOn pid counter [] = Unit
GoOn pid counter (p ∷ ps) =
    (p.start ≡ 0) × (p.pid ≡ pid) × (p.counter ≡ counter) × GoOn pid ((counter + 1) % 16) ps

-- The payloads, put together.
abbrev pub payloads : List Packet → List ℕ
payloads [] = []
payloads (p ∷ ps) = p.payload ++ payloads ps

pub Reads-cons :
    (block rest : List ℕ) (p : Packet) (ps : List Packet)
    → length block ≡ ts_package_sz
    → parse_packet block ≡ some p
    → Reads rest ps
    → Reads (block ++ rest) (p ∷ ps)
unfolding demux
Reads-cons block rest p ps len parsed reads =
    let front : take ts_package_sz (block ++ rest) ≡ block =
      ap (λ n. take n (block ++ rest)) (sym len) ∙ take-append block rest in
    let back : drop ts_package_sz (block ++ rest) ≡ rest =
      ap (λ n. drop n (block ++ rest)) (sym len) ∙ drop-append block rest in
    rw (front, back, parsed, reads) refl

-- A packet without an adaptation field.
pub parse_plain :
    (b1 b2 b3 : ℕ) (body : List ℕ)
    → length body ≡ 184
    → b3 / 16 % 4 ≡ 1
    → parse_packet (0x47 ∷ b1 ∷ b2 ∷ b3 ∷ body)
      ≡ some (record {
        start = b1 / 64 % 2;
        pid = b1 % 32 * 256 + b2;
        counter = b3 % 16;
        payload = body;
      })
unfolding parse_packet packet_from
parse_plain b1 b2 b3 body len control = rw (len, control) refl

-- A packet with an adaptation field of `q` bytes.
pub parse_padded :
    (b1 b2 b3 q : ℕ) (field body : List ℕ)
    → length field ≡ q
    → q + length body ≡ 183
    → b3 / 16 % 4 ≡ 3
    → parse_packet (0x47 ∷ b1 ∷ b2 ∷ b3 ∷ q ∷ (field ++ body))
      ≡ some (record {
        start = b1 / 64 % 2;
        pid = b1 % 32 * 256 + b2;
        counter = b3 % 16;
        payload = body;
      })
unfolding parse_packet packet_from
parse_padded b1 b2 b3 q field body len total control =
    let all : length (field ++ body) ≡ 183 = omega (arith, length-append field body) in
    let room : leb (5 + q) ts_package_sz ≡ true = le→leb _ _ (omega arith) in
    let at : 5 + q ≡ suc (suc (suc (suc (suc (length field))))) = omega arith in
    rw (all, control, room, at) (rw (drop-append field body) refl)
