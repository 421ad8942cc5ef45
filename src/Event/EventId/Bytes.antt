-- ===== src/Event/EventId/Bytes.antt =====
-- `EventId::from_bytes`: the text is a UUID, and it determines the bytes.
use esp32_dust_extraction.Common.{
  ℕ, ◌+◌, ◌-◌, ◌*◌, ◌/◌, ◌%◌, ◌≤◌, ◌<◌, ◌≡◌, refl, ap, true, false, some, List, [], ◌∷◌, ◌++◌, Text,
  length, ltb, ◌==◌, if◌then◌else◌, arith, ◌∙◌,
}
use esp32_dust_extraction.Event.EventId.{
  is_hexadecimal, hex_digit, format_byte, format_from, separator_after, is_uuid_from, is_uuid,
  from_bytes, from_string,
}

-- A byte is a number below 256.
abbrev pub AreBytes : List ℕ → Type 0
AreBytes [] = Unit {0}
AreBytes (b ∷ bs) = (b < 256) × AreBytes bs

-- Where the text of byte `k` starts.
abbrev place : ℕ → ℕ
place k =
    2 * k
    + ((if ltb 3 k then 1 else 0)
        + (if ltb 5 k then 1 else 0)
        + ((if ltb 7 k then 1 else 0) + (if ltb 9 k then 1 else 0)))

hex_digit-hexadecimal : (d : ℕ) → d < 16 → is_hexadecimal (hex_digit d) ≡ true
unfolding hex_digit is_hexadecimal
hex_digit-hexadecimal d h = ground arith

length-format_from :
    (bs : List ℕ) (k : ℕ) → place k + length (format_from k bs) ≡ place (k + length bs)
unfolding format_from
length-format_from [] k = ground arith
length-format_from (b ∷ bs) k = ground (arith, length-format_from bs (k + 1))

is_uuid_from-format_from :
    (bs : List ℕ) (k : ℕ)
    → k + length bs ≤ 16
    → AreBytes bs
    → is_uuid_from (place k) (format_from k bs) ≡ true
unfolding is_uuid_from format_from
is_uuid_from-format_from [] k h bytes = refl
is_uuid_from-format_from (b ∷ bs) k h bytes = ground (
  arith,
  hex_digit-hexadecimal (b / 16) (omega arith),
  hex_digit-hexadecimal (b % 16) (omega arith),
  is_uuid_from-format_from bs (k + 1),
)

-- Every sequence of sixteen bytes becomes a text that `from_string` accepts unchanged.
pub from_string-from_bytes :
    (bs : List ℕ)
    → length bs ≡ 16
    → AreBytes bs
    → from_string (from_bytes bs).value ≡ some (from_bytes bs)
unfolding from_string from_bytes is_uuid
from_string-from_bytes bs sized bytes =
    ground (arith, length-format_from bs 0, is_uuid_from-format_from bs 0 (omega arith) bytes)

-- The value of a hexadecimal digit of either case, and the bytes that a text spells, its hyphens
-- passed over.
abbrev pub hex_value : ℕ → ℕ
hex_value c = if ltb c b'A' then c - b'0' else if ltb c b'a' then c - b'A' + 10 else c - b'a' + 10

abbrev pub read_bytes : Text → List ℕ
read_bytes [] = []
read_bytes (c ∷ []) = []
read_bytes (c ∷ d ∷ s) =
    let skipped = read_bytes (d ∷ s) in
    let spelled = (16 * hex_value c + hex_value d) ∷ read_bytes s in
    if c == b'-' then skipped else spelled

hex_value-hex_digit : (d : ℕ) → d < 16 → hex_value (hex_digit d) ≡ d
unfolding hex_digit
hex_value-hex_digit d h = ground arith

hex_digit-ne-hyphen : (d : ℕ) → d < 16 → (hex_digit d == b'-') ≡ false
unfolding hex_digit
hex_digit-ne-hyphen d h = ground arith

read_bytes-byte : (b : ℕ) (s : Text) → b < 256 → read_bytes (format_byte b ++ s) ≡ b ∷ read_bytes s
unfolding format_byte
read_bytes-byte b s h = ground (
  arith,
  hex_value-hex_digit (b / 16) (omega arith),
  hex_value-hex_digit (b % 16) (omega arith),
  hex_digit-ne-hyphen (b / 16) (omega arith),
)

format_from_head :
    (k : ℕ) (bs : List ℕ)
    → AreBytes bs
    → read_bytes (b'-' ∷ format_from k bs) ≡ read_bytes (format_from k bs)
unfolding format_from
format_from_head k [] bytes = refl
format_from_head k (b ∷ bs) bytes = refl

read_bytes-separator :
    (index k : ℕ) (bs : List ℕ)
    → AreBytes bs
    → read_bytes (separator_after index ++ format_from k bs) ≡ read_bytes (format_from k bs)
read_bytes-separator index k bs bytes = ground (arith, format_from_head k bs bytes)

read_bytes-format_from : (k : ℕ) (bs : List ℕ) → AreBytes bs → read_bytes (format_from k bs) ≡ bs
unfolding format_from
read_bytes-format_from k [] bytes = refl
read_bytes-format_from k (b ∷ bs) bytes =
    read_bytes-byte b _ bytes.0
    ∙ ap (◌∷◌ b)
        (read_bytes-separator k (k + 1) bs bytes.1 ∙ read_bytes-format_from (k + 1) bs bytes.1)

-- Reading the digits of the text that `from_bytes` makes of a sequence of bytes gives the bytes
-- back, so that different bytes have different texts.
pub read_bytes-from_bytes : (bs : List ℕ) → AreBytes bs → read_bytes (from_bytes bs).value ≡ bs
unfolding from_bytes
read_bytes-from_bytes bs bytes = read_bytes-format_from 0 bs bytes
