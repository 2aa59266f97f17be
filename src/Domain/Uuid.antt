-- ===== src/Domain/Uuid.antt =====
-- `isUuidV7`, `assertUuid` and `createUuidV7` of packages/domain/src/index.ts.
pub mod Laws
use Prim.Native.Nat.{bit_and, bit_or}
use auto_camera.Common.{
  ℕ, zero, suc, ◌+◌, ◌-◌, ◌*◌, ◌/◌, ◌%◌, ◌^◌, Bool, true, false, not, ◌&&◌, ◌||◌, List, [], ◌∷◌,
  ◌++◌, Text, text, leb, ltb, ◌==◌, length, get_or, take, drop, replicate, if◌then◌else◌, ok, ◌>>=◌,
  ◌>>◌, throw_if, reverse, ◌≡◌, refl,
}
use auto_camera.Js.Number.{JsNumber, int, pos, negsuc, is_safe_integer, num_lt, num_gt}
use auto_camera.Js.Date.{is_digit}
use auto_camera.Domain.Error.{Checked, invalid_uuid, invalid_timestamp}

-- `Uuid` is a branded string.
abbrev pub Uuid : Type 0
Uuid = Text

-- The classes of characters in `UUID_V7_PATTERN`, whose flag `i` lets letters stand in either case.
pub data CharClass : Type 0 where
  hex dash seven variant : CharClass

abbrev in_letters : ℕ → Bool
in_letters c = (leb b'a' c && leb c b'f') || (leb b'A' c && leb c b'F')

abbrev pub in_class : CharClass → ℕ → Bool
in_class hex c = is_digit c || in_letters c
in_class dash c = c == b'-'
in_class seven c = c == b'7'
in_class variant c = c == b'8' || c == b'9' || c == b'a' || c == b'A' || c == b'b' || c == b'B'

abbrev pub uuid_v7_pattern : List CharClass
uuid_v7_pattern =
    replicate 8 hex
    ++ (dash
        ∷ (replicate 4 hex
            ++ (dash
                ∷ (seven
                    ∷ (replicate 3 hex
                        ++ (dash ∷ (variant ∷ (replicate 3 hex ++ (dash ∷ replicate 12 hex)))))))))

-- `pattern.test(text)`, the pattern being anchored at both ends
unfoldable pub matches : List CharClass → Text → Bool
matches [] [] = true
matches (k ∷ ks) (c ∷ s) = in_class k c && matches ks s
matches _ _ = false

unfoldable pub is_uuid_v7 : Text → Bool
unfolding matches
is_uuid_v7 value = matches uuid_v7_pattern value

unfoldable pub assert_uuid : Text → Checked Uuid
unfolding is_uuid_v7
assert_uuid value = do throw_if (not (is_uuid_v7 value)) invalid_uuid; ok value

-- The loop over `bytes[5]` … `bytes[0]`: the last `count` bytes of `time`, most significant first.
abbrev pub time_bytes : ℕ → ℕ → List ℕ → List ℕ
time_bytes zero time bytes = bytes
time_bytes (suc count) time bytes = time_bytes count (time / 256) (time % 256 ∷ bytes)

-- `toString(16)` of one hexadecimal digit
abbrev pub hex_digit : ℕ → ℕ
hex_digit d = if ltb d 10 then b'0' + d else b'a' + (d - 10)

-- `byte.toString(16).padStart(2, '0')` of each byte, joined
abbrev pub hex_bytes : List ℕ → Text
hex_bytes [] = []
hex_bytes (byte ∷ bytes) = hex_digit (byte / 16) ∷ hex_digit (byte % 16) ∷ hex_bytes bytes

abbrev hyphenate : Text → Text
hyphenate h =
    take 8 h
    ++ (b'-'
        ∷ (take 4 (drop 8 h)
            ++ (b'-'
                ∷ (take 4 (drop 12 h) ++ (b'-' ∷ (take 4 (drop 16 h) ++ (b'-' ∷ drop 20 h)))))))

-- The sixteen bytes; `randomValues` is a list of bytes, at least ten.
abbrev pub uuid_bytes : ℕ → List ℕ → List ℕ
uuid_bytes time random =
    time_bytes 6 time []
    ++ (bit_or 0x70 (bit_and (get_or random 0 0) 0x0f)
        ∷ get_or random 1 0
        ∷ bit_or 0x80 (bit_and (get_or random 2 0) 0x3f)
        ∷ take 7 (drop 3 random))

unfoldable pub format_uuid : List ℕ → Text
format_uuid bytes = hyphenate (hex_bytes bytes)

abbrev in_time_range : JsNumber → Bool
in_time_range t = is_safe_integer t && not (num_lt t 0) && not (num_gt t 0xffffffffffff)

abbrev time_of : JsNumber → ℕ
time_of (int (pos n)) = n
time_of _ = 0

unfoldable pub create_uuid_v7 : JsNumber → List ℕ → Checked Uuid
unfolding format_uuid
create_uuid_v7 timestamp random = do
  throw_if (not (in_time_range timestamp)) invalid_timestamp
  throw_if (ltb (length random) 10) invalid_uuid
  ok (format_uuid (uuid_bytes (time_of timestamp) random))

create_uuid_v7_test :
    create_uuid_v7 (int (pos 0x0198a1b2c3d4)) (0xff ∷ 1 ∷ 0xff ∷ 3 ∷ 4 ∷ 5 ∷ 6 ∷ 7 ∷ 8 ∷ 9 ∷ [])
    ≡ ok (text "0198a1b2-c3d4-7f01-bf03-040506070809")
unfolding create_uuid_v7
create_uuid_v7_test = refl
