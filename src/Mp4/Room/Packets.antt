-- ===== src/Mp4/Room/Packets.antt =====
-- A file of packets of mov_write_packet of Mp4Muxer.c, in the memory of its tables.
use pluto_project.Base.{ℕ, ◌≤◌, ◌≡◌, some, List, [], ◌∷◌}
use pluto_project.Mp4.Packet.{Packet}

-- Each packet is of a stream that there is.
abbrev pub AreOfTables : List Packet → Type 0
AreOfTables [] = Unit
AreOfTables (pkt ∷ pkts) = ((k : ℕ) × (pkt.stream_idx ≡ some k) × (k ≤ 1)) × AreOfTables pkts
