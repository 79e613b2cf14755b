-- ===== src/Base/Bytes.antt =====
-- Byte strings as lists of numbers, and the integers that `struct` and `int.from_bytes` put there.
use Prim.Native.Nat.{ℕ, ◌+◌, ◌*◌, ◌/◌, ◌%◌, ◌^◌, ◌<◌}
use mathlib.Core.Path.{◌≡◌, refl}
use mathlib.Core.Bool.{true}
use mathlib.Core.List.{List, [], ◌∷◌, ◌++◌}
use mathlib.Core.Option.{Option, none, some}
use native.Mathlib.Omega.{arith}
use cyber_companion.Base.Tests.{ltb, leb, if◌then◌else◌, le→leb}
use cyber_companion.Base.Lists.{length, take, drop}

abbrev pub Bytes : Type 0
Bytes = List ℕ

-- The four bytes of a word, the most significant first.
unfoldable pub be32 : ℕ → Bytes
be32 n = n / 16777216 % 256 ∷ n / 65536 % 256 ∷ n / 256 % 256 ∷ n % 256 ∷ []

unfoldable pub le16 : ℕ → Bytes
le16 n = n % 256 ∷ n / 256 % 256 ∷ []

unfoldable pub le32 : ℕ → Bytes
le32 n = n % 256 ∷ n / 256 % 256 ∷ n / 65536 % 256 ∷ n / 16777216 % 256 ∷ []

-- `struct.pack(">I", n)`; `none` is the `struct.error` of a number that does not fit.
unfoldable pub pack_u32 : ℕ → Option Bytes
unfolding be32
pack_u32 n = if ltb n (2 ^ 32) then some (be32 n) else none

unfoldable pub pack_le16 : ℕ → Option Bytes
unfolding le16
pack_le16 n = if ltb n (2 ^ 16) then some (le16 n) else none

unfoldable pub pack_le32 : ℕ → Option Bytes
unfolding le32
pack_le32 n = if ltb n (2 ^ 32) then some (le32 n) else none

-- `int.from_bytes(b, "big")`, for any length.
unfoldable pub from_be : Bytes → ℕ → ℕ
from_be [] acc = acc
from_be (b ∷ bs) acc = from_be bs (acc * 256 + b)

-- `int.from_bytes(data[:4], "big")`
unfoldable pub word : Bytes → ℕ
unfolding from_be
word bs = from_be (take 4 bs) 0

pub word-be32 : (n : ℕ) (rest : Bytes) → n < 2 ^ 32 → word (be32 n ++ rest) ≡ n
unfolding word be32
word-be32 n rest h = omega arith

pub drop-be32 : (n : ℕ) (rest : Bytes) → drop 4 (be32 n ++ rest) ≡ rest
unfolding be32
drop-be32 n rest = refl

pub fits-be32 : (n : ℕ) (rest : Bytes) → leb 4 (length (be32 n ++ rest)) ≡ true
unfolding be32
fits-be32 n rest = le→leb 4 _ (omega arith)

pub pack_u32-some : (n : ℕ) → n < 2 ^ 32 → pack_u32 n ≡ some (be32 n)
unfolding pack_u32
pack_u32-some n h = ground arith

pub pack_u32-fits : (n : ℕ) {bs : Bytes} → pack_u32 n ≡ some bs → (n < 2 ^ 32) × (bs ≡ be32 n)
unfolding pack_u32
pack_u32-fits n h = (ground arith, ground arith)
