-- ===== src/Core/Keys/Tests.antt =====
-- The keys and their ids at concrete names.
use time_shade_db.Prelude.{ℕ, ◌≡◌, refl, List, [], ◌∷◌, ◌++◌, All, arith}
use time_shade_db.Prelude.Words.{IsByte}
use time_shade_db.Core.Keys.{
  DatastoreKey, SurfaceKey, Result, ok, err, not_canonical, is_bad_field, validate,
  validate_surface,
}
use time_shade_db.Core.Keys.{
  escape_name, unescape_name, datastore_id, surface_id, parse_datastore_id, parse_surface_id,
}
use time_shade_db.Core.Keys.Ids.{IsName, parse_datastore_id-datastore_id}
use time_shade_db.Core.Keys.Ids.{datastore_id-parse_datastore_id}

-- "s.1", whose dot is escaped
abbrev dotted : List ℕ
dotted = b's' ∷ b'.' ∷ b'1' ∷ []

abbrev plain : List ℕ
plain = b'm' ∷ b'-' ∷ []

abbrev test_key : DatastoreKey
test_key = record { map_name = plain; surface = dotted; force = plain }

abbrev test_surface : SurfaceKey
test_surface = record { map_name = plain; surface = dotted }

-- "s~2E1"
abbrev escaped : List ℕ
escaped = b's' ∷ b'~' ∷ b'2' ∷ b'E' ∷ b'1' ∷ []

abbrev test_id : List ℕ
test_id = plain ++ (b'.' ∷ (escaped ++ (b'.' ∷ plain)))

abbrev test_surface_id : List ℕ
test_surface_id = plain ++ (b'.' ∷ escaped)

escape_test : escape_name dotted ≡ escaped
unfolding escape_name time_shade_db.Core.Keys.escape_byte time_shade_db.Core.Keys.is_kept
    time_shade_db.Core.Keys.hex
escape_test = refl

-- A letter that need not be escaped is not accepted escaped.
canonical_test : parse_surface_id (b'~' ∷ b'6' ∷ b'D' ∷ b'.' ∷ plain) ≡ err not_canonical
unfolding parse_surface_id time_shade_db.Core.Keys.parse_id time_shade_db.Core.Keys.split_dot
    time_shade_db.Core.Keys.parse_parts time_shade_db.Core.Keys.parse_part unescape_name
    time_shade_db.Core.Keys.unescape_loop time_shade_db.Core.Keys.is_kept
    time_shade_db.Core.Keys.unhex_pair time_shade_db.Core.Keys.unhex
    time_shade_db.Core.Keys.same_bytes escape_name time_shade_db.Core.Keys.escape_byte
canonical_test = refl

dotted-IsByte : All IsByte dotted
dotted-IsByte = (omega arith, (omega arith, (omega arith, tt)))

dotted-IsName : IsName dotted
dotted-IsName = (dotted-IsByte, refl)

plain-IsName : IsName plain
plain-IsName = ((omega arith, (omega arith, tt)), refl)

parse_datastore_id-datastore_id_example : parse_datastore_id (datastore_id test_key) ≡ ok test_key
parse_datastore_id-datastore_id_example =
    parse_datastore_id-datastore_id test_key
      (record { map_is = plain-IsName; surface_is = dotted-IsName; force_is = plain-IsName })

test_id_accepted : parse_datastore_id test_id ≡ ok test_key
unfolding parse_datastore_id time_shade_db.Core.Keys.parse_id time_shade_db.Core.Keys.split_dot
    time_shade_db.Core.Keys.parse_parts time_shade_db.Core.Keys.parse_part unescape_name
    time_shade_db.Core.Keys.unescape_loop time_shade_db.Core.Keys.is_kept
    time_shade_db.Core.Keys.same_bytes escape_name time_shade_db.Core.Keys.escape_byte
    time_shade_db.Core.Keys.unhex_pair time_shade_db.Core.Keys.unhex time_shade_db.Core.Keys.hex
    validate
test_id_accepted = refl

test_surface_id_accepted : parse_surface_id test_surface_id ≡ ok test_surface
unfolding parse_surface_id time_shade_db.Core.Keys.parse_id time_shade_db.Core.Keys.split_dot
    time_shade_db.Core.Keys.parse_parts time_shade_db.Core.Keys.parse_part unescape_name
    time_shade_db.Core.Keys.unescape_loop time_shade_db.Core.Keys.is_kept
    time_shade_db.Core.Keys.same_bytes escape_name time_shade_db.Core.Keys.escape_byte
    time_shade_db.Core.Keys.unhex_pair time_shade_db.Core.Keys.unhex time_shade_db.Core.Keys.hex
    validate_surface
test_surface_id_accepted = refl

datastore_id-parse_datastore_id_example :
    (datastore_id test_key ≡ test_id) × (validate test_key ≡ ok tt)
datastore_id-parse_datastore_id_example =
    datastore_id-parse_datastore_id test_id test_key test_id_accepted
