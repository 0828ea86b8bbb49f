-- ===== src/Stream/Descriptor/Posix.antt =====
-- What POSIX documents of the calls that mm_stream_file.c makes on the descriptor of a file that can
-- be sought in.
use pluto_project.Base.{
  ◌^◌, ℕ, ◌+◌, ◌-◌, ◌≤◌, ◌≡◌, Option, none, some, List, ◌++◌, length, take, drop, replicate,
}
use pluto_project.Base.Int.{ℤ, moved_by}
use pluto_project.Stream.{Whence, seek_set, seek_cur, seek_end}
use pluto_project.Stream.Descriptor.{Descriptor}

-- A file after bytes were put at a place, with zeros up to that place where it was shorter.
abbrev pub overwrite : ℕ → List ℕ → List ℕ → List ℕ
overwrite p bs c = take p (c ++ replicate (p - length c) 0) ++ (bs ++ drop (p + length bs) c)

-- Where `lseek` goes to in a file of a size, from a position; `none` is a place before the file.
abbrev pub place : ℕ → ℕ → ℤ → Whence → Option ℕ
place position size o seek_set = moved_by 0 o
place position size o seek_cur = moved_by position o
place position size o seek_end = moved_by size o

pub record IsPosix (d : Descriptor) : Type 0 where
  pub contents : d.File → List ℕ
  pub position : d.File → ℕ
  -- A seek gives the new position, and a seek before the file changes nothing.
  pub lseek_place :
      (o : ℤ) (w : Whence) (f : d.File)
      → (d.lseek o w f).0 ≡ place (position f) (length (contents f)) o w
  pub lseek_position :
      (o : ℤ) (w : Whence) (f : d.File) (p : ℕ)
      → place (position f) (length (contents f)) o w ≡ some p
      → position (d.lseek o w f).1 ≡ p
  pub lseek_contents : (o : ℤ) (w : Whence) (f : d.File) → contents (d.lseek o w f).1 ≡ contents f
  -- A write puts the bytes that it counts at the position, and a failing one puts none.
  pub write_counted :
      (bs : List ℕ) (f : d.File) (n : ℕ)
      → (d.write bs f).0 ≡ some n
      → (n ≤ length bs)
        × (contents (d.write bs f).1 ≡ overwrite (position f) (take n bs) (contents f))
        × (position (d.write bs f).1 ≡ position f + n)
  pub write_failed :
      (bs : List ℕ) (f : d.File)
      → (d.write bs f).0 ≡ none
      → (contents (d.write bs f).1 ≡ contents f) × (position (d.write bs f).1 ≡ position f)
  -- A read gives bytes from the position on.
  pub read_counted :
      (n : ℕ) (f : d.File) (bs : List ℕ)
      → (d.read n f).0 ≡ some bs
      → (length bs ≤ n)
        × (bs ≡ take (length bs) (drop (position f) (contents f)))
        × (position (d.read n f).1 ≡ position f + length bs)
  pub read_failed :
      (n : ℕ) (f : d.File) → (d.read n f).0 ≡ none → position (d.read n f).1 ≡ position f
  -- No read of more than SSIZE_MAX bytes is made: Linux refuses it.
  pub read_refused : (n : ℕ) (f : d.File) → 2 ^ 63 ≤ n → (d.read n f).0 ≡ none
  pub read_contents : (n : ℕ) (f : d.File) → contents (d.read n f).1 ≡ contents f
