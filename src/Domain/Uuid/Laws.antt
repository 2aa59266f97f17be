-- ===== src/Domain/Uuid/Laws.antt =====
-- What `createUuidV7` returns.
use Prim.Native.Nat.{bit_and, bit_or}
use auto_camera.Common.{
  ℕ, zero, suc, ◌+◌, ◌-◌, ◌*◌, ◌/◌, ◌%◌, ◌^◌, ◌≤◌, ◌<◌, ◌≡◌, refl, Bool, true, ◌&&◌, List, [], ◌∷◌,
  Text, ltb, ◌==◌, length, All, arith, ok, take, drop, if◌then◌else◌,
}
use auto_camera.Js.Number.{int, pos}
use auto_camera.Domain.Uuid.{
  in_class, CharClass, hex, dash, seven, variant, matches, is_uuid_v7, hex_digit, uuid_v7_pattern,
  uuid_bytes, format_uuid, create_uuid_v7, Uuid,
}

-- Whether a test holds of every byte under a bound.
holds_under : (ℕ → Bool) → ℕ → Bool
holds_under test zero = true
holds_under test (suc bound) = holds_under test bound && test bound

byte_holds :
    (test : ℕ → Bool) (bound byte : ℕ)
    → byte < bound
    → holds_under test bound ≡ true
    → test byte ≡ true
unfolding holds_under
byte_holds test zero byte under all = elim under [ ]
byte_holds test (suc bound) byte under all = ground (arith, byte_holds test bound byte)

hex_digit-hex : (d : ℕ) → d < 16 → in_class hex (hex_digit d) ≡ true
hex_digit-hex d h = ground arith

-- The digit that a hexadecimal character stands for.
abbrev hex_value : ℕ → ℕ
hex_value c = if ltb c b'a' then c - b'0' else c - b'a' + 10

hex_value-hex_digit : (d : ℕ) → d < 16 → hex_value (hex_digit d) ≡ d
hex_value-hex_digit d h = ground arith

version_byte : (r : ℕ) → r < 256 → (bit_or 0x70 (bit_and r 0x0f) / 16 == 7) ≡ true
version_byte r h =
    byte_holds (λ r. bit_or 0x70 (bit_and r 0x0f) / 16 == 7) 256 r h (unfold holds_under in refl)

variant_byte :
    (r : ℕ) → r < 256 → in_class variant (hex_digit (bit_or 0x80 (bit_and r 0x3f) / 16)) ≡ true
variant_byte r h =
    byte_holds (λ r. in_class variant (hex_digit (bit_or 0x80 (bit_and r 0x3f) / 16))) 256 r h
      (unfold holds_under in refl)

abbrev pub IsByte : ℕ → Type 0
IsByte b = b < 256

-- A text that matches, character by character.
data Matched : List CharClass → Text → Type 0 where
  end : Matched [] []
  next :
      {ks : List CharClass} {s : Text} (k : CharClass) (c : ℕ)
      → in_class k c ≡ true
      → Matched ks s
      → Matched (k ∷ ks) (c ∷ s)

matches-Matched : {ks : List CharClass} {s : Text} → Matched ks s → matches ks s ≡ true
unfolding matches
matches-Matched end = refl
matches-Matched (next k c h m) = rw (h, matches-Matched m)

module _ {ks : List CharClass} {s : Text} where
  match_byte :
      (b : ℕ)
      → b < 256
      → Matched ks s
      → Matched (hex ∷ hex ∷ ks) (hex_digit (b / 16) ∷ hex_digit (b % 16) ∷ s)
  match_byte b h m =
      next hex _ (hex_digit-hex (b / 16) (omega arith))
        (next hex _ (hex_digit-hex (b % 16) (omega arith)) m)

  match_version :
      (r : ℕ)
      → r < 256
      → Matched ks s
      → let b = bit_or 0x70 (bit_and r 0x0f) in
        Matched (seven ∷ hex ∷ ks) (hex_digit (b / 16) ∷ hex_digit (b % 16) ∷ s)
  match_version r h m =
      let b = bit_or 0x70 (bit_and r 0x0f) in
      next seven _ (ground (arith, version_byte r h))
        (next hex _ (hex_digit-hex (b % 16) (omega arith)) m)

  match_variant :
      (r : ℕ)
      → r < 256
      → Matched ks s
      → let b = bit_or 0x80 (bit_and r 0x3f) in
        Matched (variant ∷ hex ∷ ks) (hex_digit (b / 16) ∷ hex_digit (b % 16) ∷ s)
  match_variant r h m =
      let b = bit_or 0x80 (bit_and r 0x3f) in
      next variant _ (variant_byte r h) (next hex _ (hex_digit-hex (b % 16) (omega arith)) m)

abbrev read_hex : ℕ → Text → ℕ
read_hex acc [] = acc
read_hex acc (c ∷ s) = read_hex (acc * 16 + hex_value c) s

-- The time that an identifier holds: its first eight and its next four hexadecimal digits.
unfoldable pub uuid_time : Uuid → ℕ
uuid_time id = read_hex (read_hex 0 (take 8 id)) (take 4 (drop 9 id))

-- A dash of the pattern.
match_dash : {ks : List CharClass} {s : Text} → Matched ks s → Matched (dash ∷ ks) (b'-' ∷ s)
match_dash m = next dash b'-' refl m

format_uuid-Matched :
    (t r0 r1 r2 r3 r4 r5 r6 r7 r8 r9 : ℕ) (rest : List ℕ)
    → All IsByte (r0 ∷ r1 ∷ r2 ∷ r3 ∷ r4 ∷ r5 ∷ r6 ∷ r7 ∷ r8 ∷ r9 ∷ [])
    → Matched uuid_v7_pattern
        (format_uuid (uuid_bytes t (r0 ∷ r1 ∷ r2 ∷ r3 ∷ r4 ∷ r5 ∷ r6 ∷ r7 ∷ r8 ∷ r9 ∷ rest)))
unfolding format_uuid
format_uuid-Matched t r0 r1 r2 r3 r4 r5 r6 r7 r8 r9 rest
      (h0, (h1, (h2, (h3, (h4, (h5, (h6, (h7, (h8, (h9, _)))))))))) =
    let low = λ (n : ℕ). (let h : n % 256 < 256 = omega arith in h) in
    match_byte _ (low _) (
      match_byte _ (low _) (
        match_byte _ (low _) (
          match_byte _ (low _) (
            match_dash (
              match_byte _ (low _) (
                match_byte _ (low t) (
                  match_dash (
                    match_version r0 h0 (
                      match_byte r1 h1 (
                        match_dash (
                          match_variant r2 h2 (
                            match_byte r3 h3 (
                              match_dash (
                                match_byte r4 h4 (
                                  match_byte r5 h5 (
                                    match_byte r6 h6 (
                                      match_byte r7 h7
                                        (match_byte r8 h8 (match_byte r9 h9 end)))))))))))))))))))

-- The same for any list of at least ten bytes.
is_uuid :
    (t : ℕ) (random : List ℕ)
    → 10 ≤ length random
    → All IsByte random
    → is_uuid_v7 (format_uuid (uuid_bytes t random)) ≡ true
unfolding is_uuid_v7
is_uuid t (r0 ∷ r1 ∷ r2 ∷ r3 ∷ r4 ∷ r5 ∷ r6 ∷ r7 ∷ r8 ∷ r9 ∷ rest) enough
      (h0, (h1, (h2, (h3, (h4, (h5, (h6, (h7, (h8, (h9, _)))))))))) =
    matches-Matched (
      format_uuid-Matched t r0 r1 r2 r3 r4 r5 r6 r7 r8 r9 rest
        (h0, (h1, (h2, (h3, (h4, (h5, (h6, (h7, (h8, (h9, tt)))))))))))
is_uuid t random enough bytes = absurd (omega arith)

read_hex-byte :
    (acc n : ℕ)
    → (acc * 16 + hex_value (hex_digit (n % 256 / 16))) * 16 + hex_value (hex_digit (n % 256 % 16))
      ≡ acc * 256 + n % 256
read_hex-byte acc n =
    rw
      (
        hex_value-hex_digit (n % 256 / 16) (omega arith),
        hex_value-hex_digit (n % 256 % 16) (omega arith),
      )
      (omega arith)

uuid_time-format_uuid :
    (t : ℕ) (random : List ℕ) → t < 2 ^ 48 → uuid_time (format_uuid (uuid_bytes t random)) ≡ t
unfolding format_uuid uuid_time
uuid_time-format_uuid t random fits = simp read_hex-byte (omega arith)

-- `createUuidV7` at a time of 48 bits and at least ten random bytes returns an identifier that
-- `isUuidV7` accepts and that holds the time.
pub create_uuid_v7-is_uuid_v7 :
    (t : ℕ) (random : List ℕ)
    → t < 2 ^ 48
    → 10 ≤ length random
    → All IsByte random
    → (id : Uuid) × (create_uuid_v7 (int (pos t)) random ≡ ok id)
      × (is_uuid_v7 id ≡ true)
      × (uuid_time id ≡ t)
unfolding create_uuid_v7
create_uuid_v7-is_uuid_v7 t random fits enough bytes = (
  format_uuid (uuid_bytes t random),
  ground (arith),
  is_uuid t random enough bytes,
  uuid_time-format_uuid t random fits,
)
