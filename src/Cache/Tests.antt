-- ===== src/Cache/Tests.antt =====
-- The cache of mm_media/cache at concrete inputs, and the theorems on it applied there.
use pluto_project.Base.{ℕ, zero, suc, ◌≡◌, ◌≢◌, refl, true, List, [], ◌∷◌, arith, replicate}
use pluto_project.Stream.{Device, Stream, seek_set}
use pluto_project.Stream.Memory.{MemoryFile, memory, memory-Reliable, full_disk}
use pluto_project.Writer.{Positioned}
use pluto_project.Cache.{
  CacheSimple, count, stopped, file_cache_write, cache_write, cache_flush, cache_seek, cache_tell,
  cache_truncate,
}
use pluto_project.Cache.Valid.{IsValid, cache_write-IsValid}
use pluto_project.Cache.Transparent.{
  IsClean, contents, flatten, write_all, write_all-flush, file_ops-flush,
}
use pluto_project.Cache.Errors.{AllShort, file_writes, eio_stops, short_writes-notify}
use pluto_project.Cache.Blocks.{BlocksTo, cache_write-BlocksTo}
use pluto_project.Cache.Writer.{simple_writer, simple_writer-Positioned}

abbrev blank : MemoryFile
blank = record { bytes = λ i. 0; at = 0; size = 0 }

abbrev output : {F : Type 0} → F → Stream F
output f = record { fp = f; write_err_cnt = 0; write_err_no = 0; has_callback = true; notified = 0 }

-- A cache of four bytes that holds two.
abbrev half_full : CacheSimple MemoryFile
half_full = record {
  stream = output blank;
  cache = 7 ∷ 8 ∷ 0 ∷ 0 ∷ [];
  cache_size = 4;
  valid_len = 2;
}

half_full-IsValid : IsValid half_full
half_full-IsValid = record { sized = refl; room = omega arith }

half_full-IsClean : IsClean half_full
half_full-IsClean = λ e. omega arith

abbrev half_lost : CacheSimple ℕ
half_lost = record { stream = output 0; cache = 7 ∷ 8 ∷ 0 ∷ 0 ∷ []; cache_size = 4; valid_len = 2 }

half_lost-IsValid : IsValid half_lost
half_lost-IsValid = record { sized = refl; room = omega arith }

abbrev five : List ℕ
five = 1 ∷ 2 ∷ 3 ∷ 4 ∷ 5 ∷ []

write_all-flush_example :
    ((cache_flush memory (write_all memory (five ∷ [] ∷ (6 ∷ []) ∷ []) half_full)).stream.fp
      ≡ (memory.fwrite (flatten (five ∷ [] ∷ (6 ∷ []) ∷ [])) (contents memory half_full)).2)
    × IsValid (write_all memory (five ∷ [] ∷ (6 ∷ []) ∷ []) half_full)
    × IsClean (write_all memory (five ∷ [] ∷ (6 ∷ []) ∷ []) half_full)
write_all-flush_example =
    write_all-flush memory memory-Reliable (five ∷ [] ∷ (6 ∷ []) ∷ []) half_full half_full-IsValid
      half_full-IsClean

file_ops-flush_example :
    ((cache_seek memory 9 seek_set half_full).0
      ≡ (memory.fseeko 9 seek_set (contents memory half_full)).0)
    × ((cache_seek memory 9 seek_set half_full).1.stream.fp
        ≡ (memory.fseeko 9 seek_set (contents memory half_full)).1)
    × ((cache_seek memory 9 seek_set half_full).1.valid_len ≡ 0)
    × ((cache_tell memory half_full).0 ≡ memory.ftello (contents memory half_full))
    × ((cache_tell memory half_full).1.stream.fp ≡ contents memory half_full)
    × ((cache_truncate memory 1 half_full).0 ≡ (memory.ftruncate 1 (contents memory half_full)).0)
    × ((cache_truncate memory 1 half_full).1.stream.fp
        ≡ (memory.ftruncate 1 (contents memory half_full)).1)
file_ops-flush_example =
    file_ops-flush memory memory-Reliable 9 1 seek_set half_full half_full-IsClean

cache_write-BlocksTo_example :
    BlocksTo full_disk 4 half_lost.stream (cache_write full_disk five half_lost).1.stream
cache_write-BlocksTo_example = cache_write-BlocksTo full_disk five half_lost half_lost-IsValid

simple_writer-Positioned_example : Positioned (simple_writer memory memory-Reliable)
simple_writer-Positioned_example = simple_writer-Positioned memory memory-Reliable

cache_write-IsValid_example : IsValid (cache_write full_disk five half_lost).1
cache_write-IsValid_example = cache_write-IsValid full_disk five {c = half_lost} half_lost-IsValid

-- A card with an I/O error: no write takes a byte.
abbrev bad_card : Device
bad_card = record full_disk { fwrite = λ bs f. (0, 5, f) }

eio_stops_example :
    let (n, t) = file_cache_write bad_card five (output 0) in
    (n ≡ count 0)
    × (t.write_err_cnt ≡ 1)
    × (file_writes bad_card (five ∷ five ∷ []) t ≡ t)
    × (file_cache_write bad_card five (file_writes bad_card (five ∷ five ∷ []) t) ≡ (stopped, t))
eio_stops_example =
    eio_stops bad_card five (five ∷ five ∷ []) five (output 0) (λ e. omega arith) (λ e. omega arith)
      refl

-- Twelve short writes, of which the last is reported.
abbrev twelve : List (List ℕ)
twelve = replicate 12 five

five_short : ◌≢◌ {A = ℕ} 0 5
five_short e = omega arith

no_io_error : ◌≢◌ {A = ℕ} 28 5
no_io_error e = omega arith

all_short : (n : ℕ) → AllShort full_disk (replicate n five) 0
all_short zero = tt
all_short (suc n) = (five_short, no_io_error, all_short n)

short_writes-notify_example :
    ((file_writes full_disk twelve (output 0)).write_err_cnt ≡ 12)
    × ((file_writes full_disk twelve (output 0)).notified ≡ 1)
short_writes-notify_example =
    short_writes-notify full_disk twelve (output 0) five_short refl (all_short 12)
