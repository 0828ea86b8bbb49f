-- ===== src/Mp4/Samples.antt =====
-- Packets in Mp4Muxer.c: what `mov_write_packet` keeps of the data and of the samples.
pub mod Data
pub mod Trailer
pub mod Chunks
pub mod Durations
mod Tests
