-- ===== src/Domain/Assert.antt =====
-- The checks that the entities of packages/domain/src/index.ts share.
use auto_camera.Common.{
  ℕ, not, ◌||◌, Option, none, some, List, Text, ltb, length, any, is_blank, Result, ok, ◌>>◌,
  throw_if,
}
use auto_camera.Js.Date.{JsDate, invalid_date, at, is_canonical_date}
use auto_camera.Domain.Error.{Checked, invalid_timestamp, invalid_shot}
use auto_camera.Domain.Uuid.{Uuid, assert_uuid}

-- `IsoUtcTimestamp` is a branded string.
abbrev pub IsoUtcTimestamp : Type 0
IsoUtcTimestamp = Text

unfoldable pub assert_utc_timestamp : Text → Checked IsoUtcTimestamp
assert_utc_timestamp value = do throw_if (not (is_canonical_date value)) invalid_timestamp; ok value

unfoldable pub to_iso_utc : JsDate → Checked IsoUtcTimestamp
to_iso_utc invalid_date = Result.err invalid_timestamp
to_iso_utc (at iso) = ok iso

unfoldable pub assert_uuid_if_present : Option Uuid → Checked (Unit {0})
assert_uuid_if_present none = ok tt
assert_uuid_if_present (some value) = do assert_uuid value; ok tt

unfoldable pub assert_iso_if_present : Option IsoUtcTimestamp → Checked (Unit {0})
assert_iso_if_present none = ok tt
assert_iso_if_present (some value) = do assert_utc_timestamp value; ok tt

-- The items are texts by their type, so that the test by `typeof` is left out.
unfoldable pub assert_bounded_string_array : List Text → ℕ → ℕ → Checked (Unit {0})
assert_bounded_string_array value max_items max_item_length =
    throw_if
      (ltb max_items (length value)
        || any (λ item. is_blank item || ltb max_item_length (length item)) value)
      invalid_shot
