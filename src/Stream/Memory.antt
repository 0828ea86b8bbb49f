-- ===== src/Stream/Memory.antt =====
-- Two files that the tests run on: one in memory that takes every byte, and one on a full disk.
use pluto_project.Base.{
  ℕ, zero, suc, ◌+◌, ◌≡◌, refl, true, false, some, List, [], ◌∷◌, ◌++◌, arith, length, ◌==◌,
  if◌then◌else◌,
}
use Prim.Native.Nat.{max}
use pluto_project.Stream.{Device, Whence, seek_set, seek_cur, seek_end, Reliable}

-- The bytes by their places, the position and the size.
pub record MemoryFile : Type 0 where
  pub bytes : ℕ → ℕ
  pub at : ℕ
  pub size : ℕ

abbrev put_byte_at : (ℕ → ℕ) → ℕ → ℕ → ℕ → ℕ
put_byte_at f i b j = if i == j then b else f j

abbrev pub write_bytes : List ℕ → MemoryFile → MemoryFile
write_bytes [] f = f
write_bytes (b ∷ bs) f =
    write_bytes bs
      (record { bytes = put_byte_at f.bytes f.at b; at = f.at + 1; size = max f.size (f.at + 1) })

abbrev place_of : ℕ → Whence → MemoryFile → ℕ
place_of o seek_set f = o
place_of o seek_cur f = f.at + o
place_of o seek_end f = f.size + o

abbrev read_bytes : ℕ → ℕ → (ℕ → ℕ) → List ℕ
read_bytes zero at f = []
read_bytes (suc n) at f = f at ∷ read_bytes n (at + 1) f

abbrev pub memory : Device
memory = record {
  File = MemoryFile;
  fwrite = λ bs f. (length bs, 0, write_bytes bs f);
  fread = λ n f. (read_bytes n f.at f.bytes, record f { at = f.at + n });
  fseeko = λ o w f. (true, record f { at = place_of o w f });
  ftello = λ f. some f.at;
  ftruncate = λ n f. (true, record f { size = n });
  fallocate = λ mode o n f. (true, f);
}

write_bytes-append :
    (xs ys : List ℕ) (f : MemoryFile) → write_bytes (xs ++ ys) f ≡ write_bytes ys (write_bytes xs f)
write_bytes-append [] ys f = refl
write_bytes-append (x ∷ xs) ys f = write_bytes-append xs ys _

at-write_bytes : (bs : List ℕ) (f : MemoryFile) → (write_bytes bs f).at ≡ f.at + length bs
at-write_bytes [] f = omega arith
at-write_bytes (b ∷ bs) f = omega (
  arith,
  at-write_bytes bs
      (record { bytes = put_byte_at f.bytes f.at b; at = f.at + 1; size = max f.size (f.at + 1) }),
)

pub memory-Reliable : Reliable memory
memory-Reliable = record {
  position = λ f. f.at;
  fwrite_all = λ bs f. refl;
  fwrite-nil = λ f. refl;
  fwrite-append = write_bytes-append;
  position-fwrite = at-write_bytes;
  position-fseeko = λ o f. refl;
  ftello-position = λ f. refl;
}

-- ENOSPC of errno.h: no write takes a byte.
abbrev pub full_disk : Device
full_disk = record {
  File = ℕ;
  fwrite = λ bs f. (0, 28, f);
  fread = λ n f. ([], f);
  fseeko = λ o w f. (true, o);
  ftello = λ f. some f;
  ftruncate = λ n f. (true, f);
  fallocate = λ mode o n f. (false, f);
}
