-- ===== src/Core/Keys.antt =====
-- internal/core/keys.go: datastore and surface keys, their ids, and the escaping of names. A string
-- is the list of its bytes. Every error of this file wraps ErrBadKey; the constructors of
-- `KeyError` tell the messages apart.
pub mod Escape
pub mod Ids
mod Tests
use time_shade_db.Prelude.{ℕ, ◌+◌, ◌-◌, ◌*◌, ◌/◌, ◌%◌, ltb, leb, ◌==◌, if◌then◌else◌}
use time_shade_db.Prelude.{◌≡◌, refl, Bool, true, false, ◌&&◌, ◌||◌, List, [], ◌∷◌, ◌++◌, length}

pub data KeyError : Type 0 where
  bad_field : KeyError
  bad_parts : KeyError
  not_canonical : KeyError
  empty_name : KeyError
  truncated_escape : KeyError
  bad_escape : KeyError
  bad_character : KeyError

pub data Result {ℓ} (V : Type ℓ) : Type ℓ where
  err : KeyError → Result V
  ok : V → Result V

-- The early return of an error.
infixl 5 ◌>>=◌
abbrev pub ◌>>=◌ {ℓ κ} : {V : Type ℓ} {W : Type κ} → Result V → (V → Result W) → Result W
err e >>= next = err e
ok v >>= next = next v

pub ok-injective {ℓ} : {A : Type ℓ} (a b : A) → ok a ≡ ok b → a ≡ b
ok-injective a b h = cc

-- What a chain of two steps that ends well went through.
pub bind-ok {ℓ κ} :
    {V : Type ℓ} {W : Type κ} (first : Result V) (next : V → Result W) {w : W}
    → (first >>= next) ≡ ok w
    → (v : V) × (first ≡ ok v) × (next v ≡ ok w)
bind-ok (err e) next q = cc
bind-ok (ok v) next q = (v, refl, q)

pub record DatastoreKey : Type 0 where
  pub map_name : List ℕ
  pub surface : List ℕ
  pub force : List ℕ

pub record SurfaceKey : Type 0 where
  pub map_name : List ℕ
  pub surface : List ℕ

-- `MaxNameBytes`
abbrev pub max_name_bytes : ℕ
max_name_bytes = 200

-- `DatastoreKey.SurfaceKey`
unfoldable pub surface_key : DatastoreKey → SurfaceKey
surface_key k = record { map_name = k.map_name; surface = k.surface }

-- The test of one field in `Validate`.
abbrev pub is_bad_field : List ℕ → Bool
is_bad_field v = (length v == 0) || ltb max_name_bytes (length v)

-- `DatastoreKey.Validate`: the first bad field is the error.
unfoldable pub validate : DatastoreKey → Result (Unit {0})
validate k =
    if is_bad_field k.map_name
    then err bad_field
    else (if is_bad_field k.surface
        then err bad_field
        else (if is_bad_field k.force then err bad_field else ok tt))

-- `SurfaceKey.Validate`
unfoldable pub validate_surface : SurfaceKey → Result (Unit {0})
unfolding validate
validate_surface k =
    validate (record { map_name = k.map_name; surface = k.surface; force = b'-' ∷ [] })

-- The bytes that `EscapeName` keeps: [a-z0-9_-].
unfoldable pub is_kept : ℕ → Bool
is_kept c =
    (leb b'a' c && leb c b'z') || ((leb b'0' c && leb c b'9') || ((c == b'_') || (c == b'-')))

-- A digit of "0123456789ABCDEF".
unfoldable pub hex : ℕ → ℕ
hex n = if ltb n 10 then b'0' + n else b'A' + n - 10

unfoldable pub escape_byte : ℕ → List ℕ
escape_byte c = if is_kept c then c ∷ [] else b'~' ∷ hex (c / 16) ∷ hex (c % 16) ∷ []

unfoldable pub escape_name : List ℕ → List ℕ
escape_name [] = []
escape_name (c ∷ s) = escape_byte c ++ escape_name s

unfoldable pub unhex : ℕ → Result ℕ
unhex c =
    if leb b'0' c && leb c b'9'
    then ok (c - b'0')
    else (if leb b'A' c && leb c b'F' then ok (c - b'A' + 10) else err bad_escape)

-- `hi<<4 | lo` of two digits.
unfoldable pub unhex_pair : ℕ → ℕ → Result ℕ
unhex_pair h l = unhex h >>= λ hi. unhex l >>= λ lo. ok (hi * 16 + lo)

-- The loop of `UnescapeName`; what stands before `s` has been written to the output.
unfoldable pub unescape_loop : List ℕ → Result (List ℕ)
unescape_loop [] = ok []
unescape_loop (c ∷ []) =
    if is_kept c
    then ok (c ∷ [])
    else (if c == b'~' then err truncated_escape else err bad_character)
unescape_loop (c ∷ h ∷ []) =
    let rest = unescape_loop (h ∷ []) in
    if is_kept c
    then (rest >>= λ out. ok (c ∷ out))
    else (if c == b'~' then err truncated_escape else err bad_character)
unescape_loop (c ∷ h ∷ l ∷ s) =
    let rest = unescape_loop (h ∷ l ∷ s) in
    let behind = unescape_loop s in
    if is_kept c
    then (rest >>= λ out. ok (c ∷ out))
    else (if c == b'~'
        then (unhex_pair h l >>= λ b. behind >>= λ out. ok (b ∷ out))
        else err bad_character)

unfoldable pub unescape_name : List ℕ → Result (List ℕ)
unescape_name [] = err empty_name
unescape_name (c ∷ s) = unescape_loop (c ∷ s)

-- `DatastoreKey.ID` and `SurfaceKey.ID`
unfoldable pub datastore_id : DatastoreKey → List ℕ
datastore_id k =
    escape_name k.map_name ++ (b'.' ∷ (escape_name k.surface ++ (b'.' ∷ escape_name k.force)))

unfoldable pub surface_id : SurfaceKey → List ℕ
surface_id k = escape_name k.map_name ++ (b'.' ∷ escape_name k.surface)

abbrev pub cons_head : ℕ → List (List ℕ) → List (List ℕ)
cons_head c [] = (c ∷ []) ∷ []
cons_head c (p ∷ ps) = (c ∷ p) ∷ ps

-- `strings.Split(id, ".")`
unfoldable pub split_dot : List ℕ → List (List ℕ)
split_dot [] = [] ∷ []
split_dot (c ∷ s) = let ps = split_dot s in if c == b'.' then [] ∷ ps else cons_head c ps

-- `EscapeName(s) != p`
unfoldable pub same_bytes : List ℕ → List ℕ → Bool
same_bytes [] [] = true
same_bytes [] (y ∷ ys) = false
same_bytes (x ∷ xs) [] = false
same_bytes (x ∷ xs) (y ∷ ys) = (x == y) && same_bytes xs ys

-- One round of the loop in `parseID`.
unfoldable pub parse_part : List ℕ → Result (List ℕ)
parse_part p =
    unescape_name p >>= λ s. if same_bytes (escape_name s) p then ok s else err not_canonical

unfoldable pub parse_parts : List (List ℕ) → Result (List (List ℕ))
parse_parts [] = ok []
parse_parts (p ∷ ps) = parse_part p >>= λ s. parse_parts ps >>= λ out. ok (s ∷ out)

unfoldable pub parse_id : List ℕ → ℕ → Result (List (List ℕ))
parse_id id n = let raw = split_dot id in if length raw == n then parse_parts raw else err bad_parts

-- `parts[0]`, `parts[1]`, `parts[2]` of the n parts that `parse_id` returns.
abbrev pub datastore_of : List (List ℕ) → Result DatastoreKey
datastore_of (m ∷ s ∷ f ∷ []) =
    let k : DatastoreKey = record { map_name = m; surface = s; force = f } in
    validate k >>= λ u. ok k
datastore_of _ = err bad_parts

abbrev pub surface_of : List (List ℕ) → Result SurfaceKey
surface_of (m ∷ s ∷ []) =
    let k : SurfaceKey = record { map_name = m; surface = s } in validate_surface k >>= λ u. ok k
surface_of _ = err bad_parts

unfoldable pub parse_datastore_id : List ℕ → Result DatastoreKey
parse_datastore_id id = parse_id id 3 >>= datastore_of

unfoldable pub parse_surface_id : List ℕ → Result SurfaceKey
parse_surface_id id = parse_id id 2 >>= surface_of
