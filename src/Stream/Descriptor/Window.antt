-- ===== src/Stream/Descriptor/Window.antt =====
-- The stream over a file descriptor of mm_stream_file.c, as the part of a file from `offset` on with a
-- position of its own: what its calls should do.
pub mod Seeks
pub mod Moves
pub mod Runs
pub mod Back
use pluto_project.Base.{
  ℕ, suc, ◌+◌, ◌-◌, ◌/◌, ◌^◌, ◌≤◌, ◌<◌, ◌≡◌, ◌⊎◌, inl, inr, refl, sym, ap, ◌∙◌, Bool, true, false,
  Option, none, some, List, [], ◌∷◌, arith, length, take, drop, ltb, ◌==◌, u32, if◌then◌else◌,
  Bool-cases, Option-cases, ◌>>=◌, subst,
}
use Prim.Native.Nat.{max}
use pluto_project.Base.Int.{ℤ, pos, negsuc, sub_ℕ, moved_by}
use pluto_project.Stream.{Whence, seek_set, seek_cur, seek_end}
use pluto_project.Stream.Descriptor.{
  Descriptor, FdStream, from_offset, seek_to, mm_seek_fd_file, read_done, mm_read_fd_file,
  seek_passes, write_done, mm_write_fd_file, mm_get_fd_size_file,
}
use pluto_project.Stream.Descriptor.Posix.{IsPosix, overwrite, place}

-- The bytes of the file, and the position in it.
pub record View : Type 0 where
  pub bytes : List ℕ
  pub at : ℕ

-- A call on the stream, or a seek of someone else who shares the open file.
pub data FdCall : Type 0 where
  seek : ℤ → Whence → FdCall
  write : ℕ → List ℕ → FdCall
  read : ℕ → FdCall
  get_size : FdCall
  elsewhere : ℤ → Whence → FdCall

pub data Reply : Type 0 where
  sought : Bool → Reply
  written : Option ℕ → Reply
  got : Option (List ℕ) → Reply
  sized : ℤ → Reply
  nothing : Reply

-- Where a seek goes: `none` for a place before the file, and never before the part that is shown.
abbrev pub target : ℕ → View → ℤ → Whence → Option ℕ
target offset v o seek_set = moved_by offset o
target offset v o seek_cur = moved_by v.at o
target offset v o seek_end = moved_by (length v.bytes) o

abbrev pub go : ℕ → View → Option ℕ → Reply × View
go offset v none = (sought false, v)
go offset v (some p) = (sought true, record v { at = if ltb p offset then offset else p })

-- What a call does to the view, and answers.
abbrev pub Does : ℕ → FdCall → View → Reply × View → Type 0
Does offset (seek o w) v r = r ≡ go offset v (target offset v o w)
Does offset (write size bs) v r =
    (r ≡ (written none, v))
    ⊎ (n : ℕ) × (n ≤ length bs)
      × (r ≡ (
        written (some (n / size)),
        record { bytes = overwrite v.at (take n bs) v.bytes; at = v.at + n },
      ))
Does offset (read n) v r =
    (r ≡ (got none, v))
    ⊎ (bs : List ℕ) × (length bs ≤ n)
      × (bs ≡ take (length bs) (drop v.at v.bytes))
      × (r ≡ (got (some bs), record v { at = v.at + length bs }))
Does offset get_size v r = r ≡ (sized (sub_ℕ (length v.bytes) offset), v)
Does offset (elsewhere o w) v r = r ≡ (nothing, v)

abbrev pub view_of : List ℕ → ℕ → View
view_of l n = record { bytes = l; at = n }

pub views : {a b : List ℕ} {m n : ℕ} → a ≡ b → m ≡ n → view_of a m ≡ view_of b n
views p q = rw (p, q) refl

pub zero_plus : (n : ℕ) → 0 + n ≡ n
zero_plus n = omega arith

pub plus_zero : (n : ℕ) → n + 0 ≡ n
plus_zero n = omega arith

abbrev pub with_reply : Reply → View → Reply × View
with_reply a v = (a, v)

pub both : {a b : Reply} {v w : View} → a ≡ b → v ≡ w → with_reply a v ≡ with_reply b w
both p q = rw (p, q) refl

pub moved-from_offset : (base : ℕ) (o : ℤ) → moved_by 0 (from_offset base o) ≡ moved_by base o
unfolding from_offset
moved-from_offset base (pos n) = ap some (zero_plus (base + n))
moved-from_offset base (negsuc n) = elim (Bool-cases (ltb n base)) [
  | inl enough ↦ rw enough (ground arith)
  | inr less ↦ rw less (ground arith)
]

module _ (d : Descriptor) where
  unfoldable pub call : FdCall → FdStream d.File → Option (Reply × FdStream d.File)
  call (seek o w) s = let (done, s') = mm_seek_fd_file d o w s in some (sought done, s')
  call (write size bs) s = let (n, s') = mm_write_fd_file d size bs s in some (written n, s')
  call (read n) s = elim (mm_read_fd_file d n s) [ none ↦ none | some r ↦ some (got r.0, r.1) ]
  call get_size s = let (n, s') = mm_get_fd_size_file d s in some (sized n, s')
  call (elsewhere o w) s = some (nothing, record s { fd = (d.lseek o w s.fd).1 })

module _ (d : Descriptor) (P : IsPosix d) where
  abbrev pub view : FdStream d.File → View
  view s = record { bytes = P.contents s.fd; at = s.cur_offset }

  -- A stream on the same file, at the same place.
  abbrev pub Keeps : FdStream d.File → FdStream d.File → Type 0
  Keeps s s' = (s'.offset ≡ s.offset) × (s.offset ≤ s'.cur_offset)

  -- A call does what it should, and does not leave the part that is shown.
  abbrev pub Goes : FdCall → FdStream d.File → Reply × FdStream d.File → Type 0
  Goes c s r = Does s.offset c (view s) (r.0, view r.1) × Keeps s r.1

-- The calls one after another, and the replies.
unfoldable pub calls_of :
    (d : Descriptor) → List FdCall → FdStream d.File → Option (List Reply × FdStream d.File)
calls_of d [] s = some ([], s)
calls_of d (c ∷ cs) s =
    call d c s >>= λ r. calls_of d cs r.1 >>= λ rest. some (r.0 ∷ rest.0, rest.1)

-- What calls do to the view, one after another.
abbrev pub Do : ℕ → List FdCall → View → List Reply → View → Type 0
Do offset [] v rs v' = (rs ≡ []) × (v' ≡ v)
Do offset (c ∷ cs) v rs v' =
    (r : Reply × View) × (rest : List Reply) × (rs ≡ r.0 ∷ rest)
    × Does offset c v r
    × Do offset cs r.1 rest v'
