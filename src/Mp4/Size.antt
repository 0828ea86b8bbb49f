-- ===== src/Mp4/Size.antt =====
-- Every box writer of Mp4Muxer.c puts out a well-formed box: its size field, computed before by the
-- `movGet...TagSize` function, is the number of bytes that it writes.
mod Box
mod Tables
mod Sample
mod Track
mod Trak
mod Traks
mod Movie
pub use Box.{IsBox, size-IsBox}
pub use Track.{HasTables}
pub use Sample.{IsWritable, avcc-IsBox}
pub use Trak.{HasShortTitle, Titled, trak-IsBox}
pub use Movie.{moov-IsBox}
