-- ===== src/Mp4/Size/Box.antt =====
-- What a box is: a size, a tag and a body, the size counting all three.
use pluto_project.Base.{refl, ap, ◌∙◌, arith, ℕ, ◌+◌, ◌≡◌, List, [], ◌∷◌, length}
use pluto_project.Mp4.{MovContext}
use pluto_project.Mp4.Put.{Calls, size_of, size_of-append, length-be32, ◌⨾◌, put_be32, put_tag}

abbrev pub IsBox : ℕ → List ℕ → Calls → Type 0
IsBox size tag calls =
    (body : Calls) × (calls ≡ put_be32 size ⨾ put_tag tag ⨾ body) × (size_of body + 8 ≡ size)

-- What a writer leaves alone: all but the read pointers and the title.
pub record Kept (m m' : MovContext) : Type 0 where
  pub tracks : m'.tracks ≡ m.tracks
  pub nb_streams : m'.nb_streams ≡ m.nb_streams
  pub title : m'.title_info ≡ m.title_info

size-put_tag : (tag : List ℕ) → size_of (put_tag tag) ≡ length tag
size-put_tag [] = refl
size-put_tag (c ∷ tag) = omega (arith, size-put_tag tag)

-- A box is as long as its size says.
pub size-IsBox :
    (size : ℕ) (tag : List ℕ) (calls : Calls)
    → length tag ≡ 4
    → IsBox size tag calls
    → size_of calls ≡ size
size-IsBox size tag calls four (body, is, counted) =
    ap size_of is
    ∙ omega (arith, length-be32 size, size_of-append (put_tag tag) body, size-put_tag tag)
