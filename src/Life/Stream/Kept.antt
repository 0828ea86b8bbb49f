-- ===== src/Life/Stream/Kept.antt =====
-- What a stream of mm_stream.c and mm_stream_file.c holds, from its making to its end.
use pluto_project.Base.{
  ℕ, ◌≡◌, refl, subst, arith, append-nil, Bool, true, false, if◌then◌else◌, Option, none, some,
  List, [], ◌∷◌, ◌++◌, ◌==◌, ◌&&◌, Bool-cases, inl, inr,
}
use pluto_project.Life.{World, Prog, pure, bound, ◌>>◌, release}
use pluto_project.Life.Holds.{Holds, Ok, Ok-bind, Ok-imp, releases-Ok, acquire-Ok, release-Holds}
use pluto_project.Life.Stream.{
  SourceType, source_fd, source_fp, source_filepath, source_callback, DataSource, Destroyer,
  instream, outstream, StreamHandle, new_stream, with_fp, with_fdopen, create_instream_handle_file,
  create_outstream_handle_file, is_supported, create_file, stream_or_free, in_block,
  stream_handle_create, file_destory_instream_handle, destory_outstream_handle_file, destory_by,
  stream_handle_destroy,
}

-- What a stream holds besides its own block.
abbrev pub stream_files : StreamHandle → List (Option ℕ)
stream_files s = s.fp ∷ s.under ∷ s.fd ∷ s.file_path ∷ s.align_buf ∷ []

abbrev pub stream_blocks : Option StreamHandle → List (Option ℕ)
stream_blocks none = []
stream_blocks (some s) = stream_files s ++ (some s.self ∷ [])

-- The caller's descriptor, where an output stream takes it over.
abbrev descriptor_of : SourceType → ℕ → List (Option ℕ)
descriptor_of source_fd fd = some fd ∷ []
descriptor_of source_fp fd = []
descriptor_of source_filepath fd = []
descriptor_of source_callback fd = []

abbrev pub given : DataSource → List (Option ℕ)
given src =
    if src.is_local && src.io_direction == 1
    then descriptor_of src.source_type src.descriptor
    else []

-- Whether `destory` closes the stream's `FILE`, if it has one.
abbrev Closes : Destroyer → SourceType → Option ℕ → Option ℕ → Type 0
Closes outstream t fp under = Unit
Closes instream source_filepath fp under = under ≡ none
Closes instream source_fd fp under = (fp ≡ none) × (under ≡ none)
Closes instream source_fp fp under = (fp ≡ none) × (under ≡ none)
Closes instream source_callback fp under = (fp ≡ none) × (under ≡ none)

abbrev pub IsStream : Option StreamHandle → Type 0
IsStream none = Unit
IsStream (some s) = Closes s.destory s.source_type s.fp s.under

module _ (ps : List (Option ℕ)) (rest : ℕ → ℕ) where
  abbrev pub Streams : Option StreamHandle → World → Type 0
  Streams r w = IsStream r × Holds (stream_blocks r ++ ps) rest w

  -- The same, `kept` being what is held if there is no stream.
  abbrev pub Made : List (Option ℕ) → Option StreamHandle → World → Type 0
  Made kept none w = Holds kept rest w
  Made kept (some s) w = Streams (some s) w

  -- A stream's block, and what the making of its file came to.
  abbrev Filed : List (Option ℕ) → ℕ → Option StreamHandle → World → Type 0
  Filed kept self none w = Holds (some self ∷ kept) rest w
  Filed kept self (some s) w = Streams (some s) w

  instream-Filed :
      (self : ℕ) (t : SourceType) (w : World)
      → Holds (some self ∷ ps) rest w
      → Ok (Filed ps self) (create_instream_handle_file (new_stream self t) w)
  unfolding create_instream_handle_file
  instream-Filed self source_fp w h = h
  instream-Filed self source_callback w h = h
  instream-Filed self source_filepath w h =
      acquire-Ok (Filed ps self) (some self ∷ ps) rest _ w h by_file
    where
      by_file :
          (p : Option ℕ) (w' : World)
          → Holds (p ∷ some self ∷ ps) rest w'
          → Filed ps self (with_fp instream p (new_stream self source_filepath)) w'
      by_file none w' h' = h'
      by_file (some p) w' h' = (refl, h')
  instream-Filed self source_fd w h = acquire-Ok (Filed ps self) (some self ∷ ps) rest _ w h by_dup
    where
      by_dup :
          (p : Option ℕ) (w' : World)
          → Holds (p ∷ some self ∷ ps) rest w'
          → Filed ps self
              (some (record (new_stream self source_fd) { destory = instream; fd = p }))
              w'
      by_dup none w' h' = ((refl, refl), h')
      by_dup (some p) w' h' = ((refl, refl), h')

  outstream_path-Filed :
      (self fd : ℕ) (w : World)
      → Holds (some self ∷ ps) rest w
      → Ok (Filed ps self) (create_outstream_handle_file fd (new_stream self source_filepath) w)
  unfolding create_outstream_handle_file
  outstream_path-Filed self fd w h = acquire-Ok (Filed ps self) (some self ∷ ps) rest _ w h by_file
    where
      by_file :
          (p : Option ℕ) (w' : World)
          → Holds (p ∷ some self ∷ ps) rest w'
          → Filed ps self (with_fp outstream p (new_stream self source_filepath)) w'
      by_file none w' h' = h'
      by_file (some p) w' h' = (tt, h')

  outstream_fd-Filed :
      (self fd : ℕ) (w : World)
      → Holds (some self ∷ some fd ∷ ps) rest w
      → Ok
          (Filed (some fd ∷ ps) self)
          (create_outstream_handle_file fd (new_stream self source_fd) w)
  unfolding create_outstream_handle_file
  outstream_fd-Filed self fd w h =
      acquire-Ok (Filed (some fd ∷ ps) self) (some self ∷ some fd ∷ ps) rest _ w h by_file
    where
      by_file :
          (p : Option ℕ) (w' : World)
          → Holds (p ∷ some self ∷ some fd ∷ ps) rest w'
          → Filed (some fd ∷ ps) self (with_fdopen fd p (new_stream self source_fd)) w'
      by_file none w' h' = h'
      by_file (some p) w' h' = (tt, λ a. omega (arith, h' a))

  abbrev source : Bool → SourceType → ℕ → ℕ → DataSource
  source l t n fd = record { is_local = l; source_type = t; io_direction = n; descriptor = fd }

  -- A file in one direction or the other, with the descriptor that the second takes over.
  by_direction :
      (self n fd : ℕ) (t : SourceType) (w : World)
      → (Holds (some self ∷ ps) rest w
          → Ok (Filed ps self) (create_instream_handle_file (new_stream self t) w))
      → (Holds (some self ∷ descriptor_of t fd ++ ps) rest w
          → Ok
              (Filed (descriptor_of t fd ++ ps) self)
              (create_outstream_handle_file fd (new_stream self t) w))
      → is_supported t ≡ true
      → Holds (some self ∷ given (source true t n fd) ++ ps) rest w
      → Ok
          (Filed (given (source true t n fd) ++ ps) self)
          (create_file (source true t n fd) (new_stream self t) w)
  unfolding create_file
  by_direction self n fd t w reads writes known = elim (Bool-cases (n == 1)) [
    | inl out ↦ let other : (n == 0) ≡ false = ground arith in rw (known, other, out) writes
    | inr not_out ↦ elim (Bool-cases (n == 0)) [
      | inl in_ ↦ rw (known, in_, not_out) reads
      | inr neither ↦ rw (known, neither, not_out) (λ h. h)
    ]
  ]

  by_source :
      (self : ℕ) (l : Bool) (t : SourceType) (n fd : ℕ) (w : World)
      → Holds (some self ∷ given (source l t n fd) ++ ps) rest w
      → Ok
          (Filed (given (source l t n fd) ++ ps) self)
          (create_file (source l t n fd) (new_stream self t) w)
  unfolding create_file
  by_source self false source_fd n fd w h = h
  by_source self false source_filepath n fd w h = h
  by_source self l source_fp n fd w h = h
  by_source self l source_callback n fd w h = h
  by_source self true source_fd n fd w h =
      by_direction self n fd source_fd w (instream-Filed self source_fd w)
        (outstream_fd-Filed self fd w) refl h
  by_source self true source_filepath n fd w h =
      by_direction self n fd source_filepath w (instream-Filed self source_filepath w)
        (outstream_path-Filed self fd w) refl h

  -- Whichever of its allocations fail, a stream is made with all that it holds, the caller's descriptor
  -- included, or nothing is kept.
  pub stream_handle_create-Made :
      (src : DataSource) (w : World)
      → Holds (given src ++ ps) rest w
      → Ok (Made (given src ++ ps)) (stream_handle_create src w)
  unfolding stream_handle_create
  stream_handle_create-Made src w h = acquire-Ok (Made kept) kept rest _ w h by_block
    where
      kept : List (Option ℕ)
      kept = given src ++ ps

      by_file :
          (self : ℕ) (s : Option StreamHandle) (w' : World)
          → Filed kept self s w'
          → Ok (Made kept) (stream_or_free self s w')
      by_file self none w' h' =
          releases-Ok (Made kept) (some self ∷ []) kept rest (pure none) w' h' λ w'' h''. h''
      by_file self (some s) w' f = f

      by_block :
          (p : Option ℕ) (w' : World)
          → Holds (p ∷ kept) rest w'
          → Ok (Made kept) (in_block src p w')
      by_block none w' h' = tt
      by_block (some self) w' h' =
          Ok-bind (Filed kept self) (Made kept)
            (create_file src (new_stream self src.source_type) w') _
            (by_source self src.is_local src.source_type src.io_direction src.descriptor w' h')
            (by_file self)

  -- A stream that takes over no descriptor.
  pub stream_handle_create-Streams :
      (src : DataSource) (w : World)
      → given src ≡ []
      → Holds ps rest w
      → Ok Streams (stream_handle_create src w)
  stream_handle_create-Streams src w own h =
      Ok-imp (Made ps) Streams (stream_handle_create src w)
        (subst (λ l. Holds (l ++ ps) rest w → Ok (Made (l ++ ps)) (stream_handle_create src w)) own
          (stream_handle_create-Made src w) h)
        any
    where
      any : (r : Option StreamHandle) (w' : World) → Made ps r w' → Streams r w'
      any none w' h' = (tt, h')
      any (some s) w' m = m

  -- Its end gives back all that it holds.
  destory_by-Holds :
      (self : ℕ) (d : Destroyer) (s : StreamHandle) (w : World)
      → Closes d s.source_type s.fp s.under
      → Holds (stream_files s ++ (some self ∷ ps)) rest w
      → Ok (λ _ w'. Holds (some self ∷ ps) rest w') (destory_by d s w)
  unfolding destory_outstream_handle_file file_destory_instream_handle release
  destory_by-Holds self outstream s w closes h =
      releases-Ok (λ _ w'. Holds (some self ∷ ps) rest w')
        (s.fp ∷ s.under ∷ s.fd ∷ s.file_path ∷ []) (s.align_buf ∷ some self ∷ ps) rest
        (release s.align_buf) w h (release-Holds s.align_buf (some self ∷ ps) rest)
  destory_by-Holds self instream s w closes h = by_type s.source_type closes
    where
      others : Prog (Unit {0})
      others = do release s.fd; release s.file_path; release s.align_buf

      left : List (Option ℕ)
      left = s.fd ∷ s.file_path ∷ s.align_buf ∷ some self ∷ ps

      others-Holds :
          (w' : World)
          → Holds left rest w'
          → Ok (λ _ w''. Holds (some self ∷ ps) rest w'') (others w')
      others-Holds w' h' =
          releases-Ok (λ _ w''. Holds (some self ∷ ps) rest w'') (s.fd ∷ s.file_path ∷ [])
            (s.align_buf ∷ some self ∷ ps) rest (release s.align_buf) w' h'
            (release-Holds s.align_buf (some self ∷ ps) rest)

      over_none : s.under ≡ none → Holds (s.fp ∷ none ∷ left) rest w
      over_none e = subst (λ p. Holds (s.fp ∷ p ∷ left) rest w) e h

      without : (s.fp ≡ none) × (s.under ≡ none) → Holds left rest w
      without (e, e') = subst (λ p. Holds (p ∷ none ∷ left) rest w) e (over_none e')

      by_type :
          (t : SourceType)
          → Closes instream t s.fp s.under
          → let closed : Prog (Unit {0}) = elim t [
            | source_filepath ↦ release s.fp
            | _ ↦ pure tt
          ] in
            Ok (λ _ w'. Holds (some self ∷ ps) rest w') (bound (closed w) λ _. others)
      by_type source_filepath e =
          releases-Ok (λ _ w''. Holds (some self ∷ ps) rest w'') (s.fp ∷ none ∷ []) left rest others
            w (over_none e) others-Holds
      by_type source_fd e = others-Holds w (without e)
      by_type source_fp e = others-Holds w (without e)
      by_type source_callback e = others-Holds w (without e)

  pub stream_handle_destroy-Ok :
      (s : Option StreamHandle) (w : World)
      → Streams s w
      → Ok (λ _ w'. Holds ps rest w') (stream_handle_destroy s w)
  unfolding stream_handle_destroy
  stream_handle_destroy-Ok none w (made, h) = h
  stream_handle_destroy-Ok (some s) w (closes, h) =
      Ok-bind (λ _ w'. Holds (some s.self ∷ ps) rest w') (λ _ w'. Holds ps rest w')
        (destory_by s.destory s w) _ (destory_by-Holds s.self s.destory s w closes h)
        λ _ w' h'. release-Holds (some s.self) ps rest w' h'

-- The end of a stream, if one was made; the result is what the caller still has of `given`.
unfoldable pub end_stream : DataSource → Option StreamHandle → Prog (List (Option ℕ))
end_stream src none = do stream_handle_destroy none; pure (given src)
end_stream src (some s) = do stream_handle_destroy (some s); pure []

-- A stream that is destroyed after it was made, whichever allocation or file fails, gives back nothing
-- that is not live, and leaves live what was live before it and nothing else, but for the caller's
-- descriptor: an output stream that was made over one has closed it, and where it could not be made
-- the descriptor is still the caller's.
pub stream_handle_destroy-create :
    (src : DataSource) (rest : ℕ → ℕ) (w : World)
    → Holds (given src) rest w
    → Ok (λ left w'. Holds left rest w') (bound (stream_handle_create src w) (end_stream src))
unfolding end_stream stream_handle_destroy
stream_handle_destroy-create src rest w h =
    Ok-bind (Made [] rest (given src)) _ (stream_handle_create src w) (end_stream src)
      (subst (λ l. Holds l rest w → Ok (Made [] rest l) (stream_handle_create src w))
        (append-nil (given src)) (stream_handle_create-Made [] rest src w) h)
      by_result
  where
    by_result :
        (r : Option StreamHandle) (w' : World)
        → Made [] rest (given src) r w'
        → Ok (λ left w''. Holds left rest w'') (end_stream src r w')
    by_result none w' h' = h'
    by_result (some s) w' m =
        Ok-bind (λ _ w''. Holds [] rest w'') _ (stream_handle_destroy (some s) w') (λ _. pure [])
          (stream_handle_destroy-Ok [] rest (some s) w' m) λ _ w'' h''. h''
