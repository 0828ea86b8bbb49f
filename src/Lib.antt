-- ===== src/Lib.antt =====
-- Verification of the Pluto project's media library: the write-back cache that stands between the
-- muxers and the file, the MP4 and the MPEG-2 TS muxer with their drivers, the message queue and the
-- semaphore.
--
-- The program's parts. A muxer gives bytes to a cache writer (`FsCacheWriter`, a struct of function
-- pointers), the cache gives blocks to an output stream (`mm_stream_info_t`), and the stream calls
-- the C library. The MP4 muxer writes a file header with room for the movie box, then the data of
-- each packet into `mdat`, while it keeps sample tables in memory, and at the end the movie box
-- `moov` made from those tables. The TS muxer writes packets of 188 bytes: before each video frame two
-- tables that say what the stream holds, and for each frame a header and its data. The drivers take the
-- calls of the application, and keep the stream, the cache writer and the settings for both.
--
-- Stream models what the cache calls of mm_media/stream/mm_stream_file.c (`mm_write_stream_file`,
-- `mm_seek_stream_file`, `mm_tell_stream_file`, `mm_truncate_stream_file`) and `mm_stream_info_t`.
-- The C library's `FILE` is a parameter, `Device`; `Reliable` is what its documentation says of a
-- file on which no write fails. Stream/Memory has a file in memory and a full disk for the tests.
-- Stream/Descriptor models the stream over a file descriptor of that file (`mm_seek_fd_file` and so
-- on); the kernel's calls are a parameter, `Descriptor`, and `IsPosix` what POSIX says of them for a
-- file that can be sought in. Its Window is what the stream should be, and holds the proofs.
-- Writer is the interface `FsCacheWriter` of mm_media/cache/mm_cache.h, with the laws `Positioned`.
-- Cache models mm_media/cache/mm_cache_simple.c and `file_cache_write` of mm_media/cache/mm_cache.c:
-- `cache_write` is `FsCacheSimpleWrite`, and so on; the context is the record `CacheSimple`.
-- Mp4 models mm_media/muxer/mp4_muxer/Mp4Muxer.h, and its children Mp4Muxer.c: Put the output of
-- bytes, Avc the codec data of H.264, Tables, Sample, Track and Movie the boxes from the sample
-- tables up to `moov`, Packet `mov_write_packet` and `mov_write_trailer`. The functions have the
-- source's names in lower case (`movGetStcoTagSize` is `mov_get_stco_tag_size`).
-- Size, Words, Samples, Layout and Room are the proofs about them, Room that the entries of the sample
-- tables are stored inside of the tables.
-- Ts models mm_media/muxer/mpeg2ts_muxer/Mpeg2tsMuxer.h, and its children Mpeg2tsMuxer.c: Crc the
-- checksum, Psi the two tables, Unit `write_av_ts_packet`, `write_access_unit` and
-- `mpeg2ts_write_packet`. Demux is a receiver, written from the format, with which the rest of Ts
-- reads what was written: Psi/Checked the tables, Unit/Access one frame, Unit/Pts and Unit/Adts its headers, Mux a sequence
-- of calls.
-- Driver models mm_media/muxer/muxers/muxer_writer.c and what the drivers share, Driver/Mp4
-- mm_media/muxer/mp4_muxer/Mp4MuxerDrv.c and Driver/Ts
-- mm_media/muxer/mpeg2ts_muxer/Mpeg2tsMuxerDrv.c. The streams and cache writers that they make are an
-- interface, `Files`. Driver/Reached and Driver/Ts/Reached are the states that calls in any order
-- reach. Driver/Ts/File runs the TS muxer over the cache down to the file.
-- Message models mm_foundations/srcs/mm_message.c: the queue of messages between threads, each
-- function being what it does under the mutex, with lists for the lists of mm_list.h; Message/Wait has
-- its waits, each as its pieces between the sleeps on the condition.
-- Semaphore models mm_foundations/srcs/mm_semaphore.c, a thread in `mm_sem_down` being one round of
-- its loop at a time.
-- Semaphore/Awake counts the threads that sleep on its condition.
-- Life models what the functions that make and destroy objects take from the C library and give back,
-- with every allocation and every opening of a file that may fail: Stream mm_stream.c and the rest of
-- mm_stream_file.c, Cache the creation of cache writers, Files, Mp4 and Ts the drivers from their opening
-- to their closing, Handle the muxers' handles, Message the blocks of the message queue and Semaphore
-- the condition and mutex of a semaphore. There an object is the numbers of the blocks that it points
-- to: a second model beside those above.
--
-- How code becomes definitions. A function that writes is the list of the buffers that it gives to
-- `cache_write`, with the context that it leaves (`Emit`); the trailer and the header, which also
-- seek, are lists of operations (`Op`). A struct is a record without the fields that the code never
-- reads; the memory of the sample tables is a function from places to 32-bit words, with pointers
-- as places. An allocation that may fail is a Boolean argument. Sizes wrap at 32 bits where the
-- source has `uint32_t`; `mdat_size`, an `int32_t` whose overflow is undefined, is a number without
-- a bound, and theorems that need one say so. The rounds of `descrLength` have fuel 5, enough for
-- every 32-bit length; the loops over codec data have the length of the data as fuel. The loop over
-- a frame in TS packets has one round more than there are bytes, each round taking at least one. The
-- blocks of a TS frame are addresses in a memory, since their places matter; a failed `assert` and a
-- negative size are `none`.
--
-- What is not modelled: the creation and destruction of the message queue's mutex and condition,
-- which are calls of the thread library; the clock reference of a TS frame, a product of floats (a
-- parameter); mm_foundations/include/mm_list.h, a copy of the list
-- of the Linux kernel; logging, the tests and the clock (the text of the date in the default title is
-- a parameter). The null checks on `data1`, on the muxer's context and on the title are left out, as
-- are the log lines at full tables. A track with a timescale of 0, by which the
-- code divides and traps, is taken for one whose quotient is 0. What a TS frame leads to after a
-- negative size, a failed assertion or a read without a configuration is not followed: the call has no
-- result. An allocation whose result the code uses without a check is
-- modelled to stop the process where it fails.
mod Base
pub mod Stream
pub mod Ts
pub mod Life
pub mod Driver
pub mod Writer
pub mod Cache
pub mod Message
pub mod Semaphore
pub mod Mp4
