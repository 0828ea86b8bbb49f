-- ===== src/Base/Calls.antt =====
-- The calls of a writing function: the buffers that the code gives to `cache_write`, in order.
use Prim.Native.Nat.{ℕ, ◌+◌}
use mathlib.Core.Path.{◌≡◌, refl}
use mathlib.Core.List.{List, [], ◌∷◌, ◌++◌, append_assoc}
use native.Mathlib.Omega.{arith}
use pluto_project.Base.Lists.{length}

abbrev pub Calls : Type 0
Calls = List (List ℕ)

abbrev pub size_of : Calls → ℕ
size_of [] = 0
size_of (buf ∷ calls) = length buf + size_of calls

-- The bytes of the buffers, one after another.
abbrev pub flatten : Calls → List ℕ
flatten [] = []
flatten (b ∷ bufs) = b ++ flatten bufs

pub size_of-append : (a b : Calls) → size_of (a ++ b) ≡ size_of a + size_of b
size_of-append [] b = omega arith
size_of-append (x ∷ a) b = omega (arith, size_of-append a b)

pub flatten-append : (a b : Calls) → flatten (a ++ b) ≡ flatten a ++ flatten b
flatten-append [] b = refl
flatten-append (x ∷ a) b = rw (flatten-append a b, append_assoc) refl
