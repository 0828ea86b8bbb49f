-- ===== src/Mp4/Put.antt =====
-- The byte-level output of Mp4Muxer.c (`put_buffer_cache` and its kin): each function is the list
-- of `cache_write` calls that it makes, a list of buffers.
use Prim.Native.Char.{code}
use Prim.Native.String.{String}
use pluto_project.Base.{
  ℕ, zero, suc, ◌+◌, ◌*◌, ◌/◌, ◌%◌, ◌^◌, ◌≡◌, refl, List, [], ◌∷◌, ◌++◌, arith, bit_and, bit_or,
  u32, length,
}
use pluto_project.Mp4.{MovContext}
pub use pluto_project.Base.Calls.{Calls, size_of, size_of-append}

-- One piece of output after another.
infixr 6 ◌⨾◌
abbrev pub ◌⨾◌ : Calls → Calls → Calls
a ⨾ b = a ++ b

-- Code that reads and changes the context while it writes.
abbrev pub Emit : Type 0
Emit = MovContext → Calls × MovContext

abbrev pub emit : Calls → Emit
emit calls mov = (calls, mov)

infixr 5 ◌>>◌
abbrev pub ◌>>◌ : Emit → Emit → Emit
◌>>◌ m k mov = let (a, mov') = m mov in let (b, mov'') = k mov' in (a ++ b, mov'')

-- The characters of a C string.
abbrev pub codes : String → List ℕ
codes String.[] = []
codes (String.◌∷◌ c s) = code c ∷ codes s

-- The four bytes of a word in memory (little-endian).
unfoldable pub word_bytes : ℕ → List ℕ
word_bytes v = v % 256 ∷ v / 2 ^ 8 % 256 ∷ v / 2 ^ 16 % 256 ∷ v / 2 ^ 24 % 256 ∷ []

-- `BSWAP32`, and the same two statements in `put_be32_cache`.
unfoldable pub bswap32 : ℕ → ℕ
bswap32 v =
    let v1 = bit_or (bit_and (u32 (v * 2 ^ 8)) 0xFF00_FF00) (bit_and (v / 2 ^ 8) 0x00FF_00FF) in
    bit_or (v1 / 2 ^ 16) (u32 (v1 * 2 ^ 16))

abbrev pub put_buffer : List ℕ → Calls
put_buffer buf = buf ∷ []

abbrev pub put_byte : ℕ → Calls
put_byte b = (b % 256 ∷ []) ∷ []

unfoldable pub le32 : ℕ → List ℕ
unfolding word_bytes
le32 v = word_bytes (u32 v)

abbrev pub put_le32 : ℕ → Calls
put_le32 v = put_buffer (le32 v)

unfoldable pub be32 : ℕ → List ℕ
unfolding word_bytes bswap32
be32 v = word_bytes (bswap32 (u32 v))

abbrev pub put_be32 : ℕ → Calls
put_be32 v = put_buffer (be32 v)

abbrev pub put_be16 : ℕ → Calls
put_be16 v = put_byte (v / 2 ^ 8) ⨾ put_byte v

abbrev pub put_be24 : ℕ → Calls
put_be24 v = put_be16 (v / 2 ^ 8) ⨾ put_byte v

-- A tag is put byte by byte up to the end mark of its string.
abbrev pub put_tag : List ℕ → Calls
put_tag [] = []
put_tag (c ∷ tag) = put_byte c ⨾ put_tag tag

pub length-be32 : (v : ℕ) → length (be32 v) ≡ 4
unfolding be32
length-be32 v = refl

pub length-le32 : (v : ℕ) → length (le32 v) ≡ 4
unfolding le32
length-le32 v = refl

pub ruleset word_sizes = (arith, length-be32, length-le32)
