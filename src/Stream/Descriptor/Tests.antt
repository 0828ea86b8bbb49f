-- ===== src/Stream/Descriptor/Tests.antt =====
-- The stream over a file descriptor of mm_stream_file.c on a file in memory, and the theorems on it
-- applied there.
use pluto_project.Base.{
  if◌then◌else◌, ltb, Bool-cases, inl, inr, ◌^◌, ◌<◌, false, ℕ, zero, suc, ◌+◌, ◌≤◌, ◌≡◌, refl, ap,
  true, false, Option, none, some, List, [], ◌∷◌, arith, length, take, drop, length-take, take_all,
}
use pluto_project.Base.Int.{pos, negsuc}
use pluto_project.Stream.{seek_set, seek_cur, seek_end}
use pluto_project.Stream.Descriptor.{
  Descriptor, FdStream, read_done, seek_to, seek_passes, write_done, mm_get_fd_size_file,
  mm_write_fd_file, mm_seek_fd_file, int_size, mm_read_fd_file, mm_tell_fd_file,
}
use pluto_project.Stream.Descriptor.Posix.{IsPosix, overwrite, place}
use pluto_project.Stream.Descriptor.Window.{
  FdCall, seek, write, read, get_size, elsewhere, Reply, sought, written, got, sized, nothing, call,
  calls_of, Do, view,
}
use pluto_project.Stream.Descriptor.Window.Runs.{calls_of-Do}
use pluto_project.Stream.Descriptor.Window.Back.{IsWhole, write-read}

pub record OpenFile : Type 0 where
  pub bytes : List ℕ
  pub at : ℕ

abbrev landed : OpenFile → Option ℕ → Option ℕ × OpenFile
landed f none = (none, f)
landed f (some p) = (some p, record f { at = p })

abbrev read_in : ℕ → OpenFile → Option (List ℕ) × OpenFile
read_in n f = let bs = take n (drop f.at f.bytes) in (some bs, record f { at = f.at + length bs })

abbrev in_memory : Descriptor
in_memory = record {
  File = OpenFile;
  lseek = λ o w f. landed f (place f.at (length f.bytes) o w);
  read = λ n f. if ltb n (2 ^ 63) then read_in n f else (none, f);
  write = λ bs f.
      (some (length bs), record { bytes = overwrite f.at bs f.bytes; at = f.at + length bs });
  ftruncate = λ n f. (true, record f { bytes = take n f.bytes });
  fallocate = λ mode offset len f. (true, f);
}

landed_place : (f : OpenFile) (r : Option ℕ) → (landed f r).0 ≡ r
landed_place f none = refl
landed_place f (some p) = refl

landed_bytes : (f : OpenFile) (r : Option ℕ) → (landed f r).1.bytes ≡ f.bytes
landed_bytes f none = refl
landed_bytes f (some p) = refl

take_counted : (n : ℕ) (l : List ℕ) → take n l ≡ take (length (take n l)) l
take_counted zero l = refl
take_counted (suc n) [] = refl
take_counted (suc n) (x ∷ l) = ap (λ k. x ∷ k) (take_counted n l)

wrote :
    (f : OpenFile) (bs : List ℕ) (n : ℕ)
    → length bs ≡ n
    → (n ≤ length bs)
      × (overwrite f.at bs f.bytes ≡ overwrite f.at (take n bs) f.bytes)
      × (f.at + length bs ≡ f.at + n)
wrote f bs n k = let all = take_all n bs (omega arith) in (omega arith, rw all refl, omega arith)

some_same : {A : Type 0} {a b : A} → some a ≡ some b → a ≡ b
some_same e = cc

read_some :
    (f : OpenFile) (n : ℕ) (bs : List ℕ)
    → take n (drop f.at f.bytes) ≡ bs
    → (length bs ≤ n)
      × (bs ≡ take (length bs) (drop f.at f.bytes))
      × (f.at + length (take n (drop f.at f.bytes)) ≡ f.at + length bs)
read_some f n bs k =
    rw⁻¹ k
      (omega (arith, length-take n (drop f.at f.bytes)), take_counted n (drop f.at f.bytes), refl)

read_counted :
    (n : ℕ) (f : OpenFile) (bs : List ℕ)
    → (in_memory.read n f).0 ≡ some bs
    → (length bs ≤ n)
      × (bs ≡ take (length bs) (drop f.at f.bytes))
      × ((in_memory.read n f).1.at ≡ f.at + length bs)
read_counted n f bs e = elim (Bool-cases (ltb n (2 ^ 63))) [
  | inl fits ↦ by_fits fits e
  | inr huge ↦ absurd (cc (rw huge at e))
]
  where
    by_fits :
        ltb n (2 ^ 63) ≡ true
        → (in_memory.read n f).0 ≡ some bs
        → (length bs ≤ n)
          × (bs ≡ take (length bs) (drop f.at f.bytes))
          × ((in_memory.read n f).1.at ≡ f.at + length bs)
    by_fits fits = rw fits (λ h. read_some f n bs (some_same h))

read_failed :
    (n : ℕ) (f : OpenFile) → (in_memory.read n f).0 ≡ none → (in_memory.read n f).1.at ≡ f.at
read_failed n f e = elim (Bool-cases (ltb n (2 ^ 63))) [
  | inl fits ↦ absurd (cc (rw fits at e))
  | inr huge ↦ rw huge refl
]

read_refused : (n : ℕ) (f : OpenFile) → 2 ^ 63 ≤ n → (in_memory.read n f).0 ≡ none
read_refused n f h = let huge : ltb n (2 ^ 63) ≡ false = ground arith in rw huge refl

read_bytes : (n : ℕ) (f : OpenFile) → (in_memory.read n f).1.bytes ≡ f.bytes
read_bytes n f = elim (Bool-cases (ltb n (2 ^ 63))) [
  | inl fits ↦ rw fits refl
  | inr huge ↦ rw huge refl
]

gives :
    (n : ℕ) (f : OpenFile) → n < 2 ^ 31 → (in_memory.read n f).0 ≡ some (take n (drop f.at f.bytes))
gives n f h = let fits : ltb n (2 ^ 63) ≡ true = ground arith in rw fits refl

in_memory-IsPosix : IsPosix in_memory
in_memory-IsPosix = record {
  contents = λ f. f.bytes;
  position = λ f. f.at;
  lseek_place = λ o w f. landed_place f _;
  lseek_position = λ o w f p e. rw e refl;
  lseek_contents = λ o w f. landed_bytes f _;
  write_counted = λ bs f n e. wrote f bs n (some_same e);
  write_failed = λ bs f e. absurd (ground arith);
  read_counted = read_counted;
  read_failed = read_failed;
  read_refused = read_refused;
  read_contents = read_bytes;
}

-- A stream on the last three bytes of five, whose descriptor someone left at the end.
abbrev tail : FdStream OpenFile
tail = record {
  fd = record { bytes = 1 ∷ 2 ∷ 3 ∷ 4 ∷ 5 ∷ []; at = 5 };
  offset = 2;
  cur_offset = 2;
  file_end_offset = 0;
  file_size = 0;
}

abbrev visit : List FdCall
visit =
    write 1 (7 ∷ 8 ∷ [])
    ∷ elsewhere (pos 0) seek_set
    ∷ seek (negsuc 0) seek_cur
    ∷ read 9
    ∷ seek (negsuc 5) seek_end
    ∷ get_size
    ∷ []

abbrev replies : Option (List Reply × FdStream OpenFile) → List Reply
replies none = []
replies (some r) = r.0

answers_of_example_calls :
    replies (calls_of in_memory visit tail)
    ≡ written (some 2)
      ∷ nothing
      ∷ sought true
      ∷ got (some (8 ∷ 5 ∷ []))
      ∷ sought false
      ∷ sized (pos 3)
      ∷ []
unfolding calls_of call int_size mm_read_fd_file read_done mm_seek_fd_file seek_to mm_write_fd_file
    seek_passes write_done mm_get_fd_size_file
answers_of_example_calls = refl

calls_of-Do_example :
    (r : List Reply × FdStream OpenFile) × (calls_of in_memory visit tail ≡ some r)
    × Do 2 visit (view in_memory in_memory-IsPosix tail) r.0 (view in_memory in_memory-IsPosix r.1)
    × (2 ≤ r.1.cur_offset)
calls_of-Do_example = calls_of-Do in_memory in_memory-IsPosix visit tail (omega arith)

in_memory-IsWhole : IsWhole in_memory in_memory-IsPosix
unfolding in_memory-IsPosix
in_memory-IsWhole = record { takes = λ bs f. refl; gives = gives }

write-read_example :
    let (n, s1) = mm_write_fd_file in_memory 1 (7 ∷ 8 ∷ []) tail in
    let (done, s2) = mm_seek_fd_file in_memory (mm_tell_fd_file in_memory tail) seek_set s1 in
    (s3 : FdStream OpenFile) × (mm_read_fd_file in_memory 2 s2 ≡ some (some (7 ∷ 8 ∷ []), s3))
write-read_example =
    write-read in_memory in_memory-IsPosix 1 (7 ∷ 8 ∷ []) tail in_memory-IsWhole (omega arith)
      (omega arith) (λ e. ground (arith, e))
