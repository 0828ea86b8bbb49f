-- ===== src/Driver/Ts/File.antt =====
-- A session of the TS muxer down to the file: the calls of mpeg2ts_write_packet (Mpeg2tsMuxer.c) go
-- through the write-back cache (mm_cache_simple.c), and `mpeg2ts_write_trailer` ends the file.
use pluto_project.Base.{ℕ, ◌≡◌, refl, some, List, [], ◌∷◌}
use pluto_project.Base.Int.{ℤ}
use pluto_project.Base.Calls.{Calls, flatten}
use pluto_project.Stream.{Device, seek_end, Reliable}
use pluto_project.Writer.{FsCacheWriter}
use pluto_project.Cache.Transparent.{contents, write_all}
use pluto_project.Cache.Writer.{Live, simple_writer}
use pluto_project.Ts.{AvFormatContext, AvPacket, Memory}
use pluto_project.Ts.Demux.{Packet, Reads}
use pluto_project.Ts.Mux.{IsContinuous}
use pluto_project.Ts.Mux.Sequence.{write_packets}
use pluto_project.Driver.Ts.{filesize_of, mpeg2ts_write_trailer}

-- The buffers go to the writer in order; the muxer ignores what each call returns.
abbrev pub give : (pb : FsCacheWriter) → Calls → pb.State → pb.State
give pb [] s = s
give pb (b ∷ bufs) s = give pb bufs (pb.cache_write b s).1

module _ (d : Device) (rel : Reliable d) where
  -- The file after the trailer: `bytes` stand behind what was written before, the answer is the
  -- position of the end as an `int`, and the cache holds nothing more.
  pub record Ended (before : d.File) (bytes : List ℕ) (size : ℤ) (s : Live d rel) : Type 0 where
    pub file : s.0.stream.fp ≡ (d.fseeko 0 seek_end (d.fwrite bytes before).2).1
    pub answer : size ≡ filesize_of (d.ftello s.0.stream.fp)
    pub empty : s.0.valid_len ≡ 0

  pub give-write_all :
      (bufs : Calls) (s : Live d rel) → (give (simple_writer d rel) bufs s).0 ≡ write_all d bufs s.0
  unfolding write_all
  give-write_all [] s = refl
  give-write_all (b ∷ bufs) s = give-write_all bufs ((simple_writer d rel).cache_write b s).1

  -- A session: all frames are muxed, their calls go through the cache, and the trailer ends the file.
  pub record TsFile (pcr_of : ℕ → ℕ) (mem : Memory) (pkts : List AvPacket) (ctx : AvFormatContext)
      (next : ℕ → ℕ) (s : Live d rel) : Type 0 where
    pub calls : Calls
    pub after : AvFormatContext
    pub packets : List Packet
    pub done : write_packets pcr_of mem pkts ctx ≡ some (calls, after)
    pub ended :
        (let r = mpeg2ts_write_trailer (simple_writer d rel) (give (simple_writer d rel) calls s) in
          Ended (contents d s.0) (flatten calls) r.0 r.1)
    pub reads : Reads (flatten calls) packets
    pub continuous : IsContinuous next packets
