-- ===== src/Prelude/Words.antt =====
-- Little-endian words in byte lists, as encoding/binary writes and reads them.
use Prim.Native.Nat.{ℕ, ◌+◌, ◌*◌, ◌/◌, ◌%◌, ◌^◌, ◌<◌}
use mathlib.Core.Path.{◌≡◌}
use mathlib.Core.List.{List, [], ◌∷◌, ◌++◌}
use native.Mathlib.Omega.{arith}

abbrev pub IsByte : ℕ → Type 0
IsByte b = b < 256

abbrev pub IsU16 : ℕ → Type 0
IsU16 v = v < 2 ^ 16

abbrev pub IsU32 : ℕ → Type 0
IsU32 v = v < 2 ^ 32

abbrev pub IsU64 : ℕ → Type 0
IsU64 v = v < 2 ^ 64

-- `PutUint16`, `PutUint32` and `PutUint64` on an integer of that width.
abbrev pub put_u16 : ℕ → List ℕ
put_u16 v = (v % 256) ∷ (v / 256 % 256) ∷ []

abbrev pub put_u32 : ℕ → List ℕ
put_u32 v = (v % 256) ∷ (v / 256 % 256) ∷ (v / 65536 % 256) ∷ (v / 16777216 % 256) ∷ []

abbrev pub put_u64 : ℕ → List ℕ
put_u64 v = put_u32 (v % 2 ^ 32) ++ put_u32 (v / 2 ^ 32 % 2 ^ 32)

-- `Uint16`, `Uint32` on the front of a slice. Short slices do not occur in the callers, which
-- test the length; there the missing bytes read as 0.
abbrev pub get_u16 : List ℕ → ℕ
get_u16 (a ∷ b ∷ r) = a + 256 * b
get_u16 _ = 0

abbrev pub get_u32 : List ℕ → ℕ
get_u32 (a ∷ b ∷ c ∷ d ∷ r) = a + 256 * b + 65536 * c + 16777216 * d
get_u32 _ = 0

abbrev pub get_u64 : List ℕ → ℕ
get_u64 (a ∷ b ∷ c ∷ d ∷ e ∷ f ∷ g ∷ h ∷ r) =
    get_u32 (a ∷ b ∷ c ∷ d ∷ []) + 2 ^ 32 * get_u32 (e ∷ f ∷ g ∷ h ∷ [])
get_u64 _ = 0

pub get_u16-put_u16 : (v : ℕ) (r : List ℕ) → IsU16 v → get_u16 (put_u16 v ++ r) ≡ v
get_u16-put_u16 v r h = omega arith

pub get_u32-put_u32 : (v : ℕ) (r : List ℕ) → IsU32 v → get_u32 (put_u32 v ++ r) ≡ v
get_u32-put_u32 v r h = omega arith

pub get_u64-put_u64 : (v : ℕ) (r : List ℕ) → IsU64 v → get_u64 (put_u64 v ++ r) ≡ v
get_u64-put_u64 v r h = omega arith
