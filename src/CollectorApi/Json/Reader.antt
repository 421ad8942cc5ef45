-- ===== src/CollectorApi/Json/Reader.antt =====
-- A client's reader for the bodies of collector_api, and the printer that says what it reads: JSON
-- objects with at least one member, the members texts or Boolean values, with no blanks.
use esp32_dust_extraction.Common.{
  ℕ, zero, suc, ◌≤◌, ◌<◌, ◌≡◌, refl, Bool, true, false, Option, none, some, List, [], ◌∷◌, ◌++◌,
  map, Text, codes, length, length-append, arith, ◌==◌, if◌then◌else◌,
}
use esp32_dust_extraction.Common.Abort.{◌>>=◌}
use esp32_dust_extraction.CollectorApi.{escape_json, bool_name}
use esp32_dust_extraction.CollectorApi.Json.{read_literal, visible, read_literal-escape_json}

pub data Value : Type 0 where
  string : Text → Value
  boolean : Bool → Value

abbrev pub Member : Type 0
Member = Text × Value

-- The text of a value, of a member and of the members behind one, each in front of a rest. Byte 34
-- is the quotation mark, 44 the comma, 58 the colon, 123 and 125 are the braces.
unfoldable pub print_value : Value → Text → Text
print_value (string text) rest = 34 ∷ escape_json text ++ 34 ∷ rest
print_value (boolean b) rest = bool_name b ++ rest

unfoldable pub print_member : Member → Text → Text
print_member (key, value) rest = 34 ∷ escape_json key ++ 34 ∷ 58 ∷ print_value value rest

unfoldable pub print_members : List Member → Text → Text
print_members [] rest = 125 ∷ rest
print_members (m ∷ ms) rest = 44 ∷ print_member m (print_members ms rest)

unfoldable pub print_object : Member → List Member → Text
print_object m ms = 123 ∷ print_member m (print_members ms [])

-- What a client sees of a value and of a member.
abbrev pub seen_value : Value → Value
seen_value (string text) = string (map visible text)
seen_value (boolean b) = boolean b

abbrev pub seen : Member → Member
seen (key, value) = (map visible key, seen_value value)

-- What follows `prefix` in a text.
unfoldable pub after : Text → Text → Option Text
after [] text = some text
after (c ∷ prefix) [] = none
after (c ∷ prefix) (x ∷ text) = if x == c then after prefix text else none

abbrev with_rest : Value → Option Text → Option (Value × Text)
with_rest value none = none
with_rest value (some rest) = some (value, rest)

abbrev pub or_else {ℓ} : {A : Type ℓ} → Option A → Option A → Option A
or_else none second = second
or_else (some a) second = some a

unfoldable pub read_boolean : Text → Option (Value × Text)
unfolding after
read_boolean text =
    or_else (with_rest (boolean true) (after (codes "true") text))
      (with_rest (boolean false) (after (codes "false") text))

abbrev text_value : Text × Text → Option (Value × Text)
text_value (text, rest) = some (string text, rest)

unfoldable pub read_value : Text → Option (Value × Text)
unfolding read_boolean
read_value [] = none
read_value (c ∷ rest) =
    if c == 34 then read_literal false rest >>= text_value else read_boolean (c ∷ rest)

abbrev named : Text → Value × Text → Option (Member × Text)
named key (value, rest) = some ((key, value), rest)

-- The value behind a key.
unfoldable pub read_named : Text × Text → Option (Member × Text)
read_named (key, []) = none
read_named (key, c ∷ rest) = if c == 58 then read_value rest >>= named key else none

unfoldable pub read_member : Text → Option (Member × Text)
unfolding read_named
read_member [] = none
read_member (c ∷ rest) = if c == 34 then read_literal false rest >>= read_named else none

-- The members behind a first one, up to the closing brace, which ends the text.
unfoldable pub read_members : ℕ → Text → Option (List Member)
unfolding read_member
read_members zero text = none
read_members (suc n) [] = none
read_members (suc n) (c ∷ rest) =
    let more = read_member rest >>= λ (m, rest'). read_members n rest' >>= λ ms. some (m ∷ ms) in
    if c == 44 then more else if c == 125 then (elim rest [ [] ↦ some [] | _ ∷ _ ↦ none ]) else none

unfoldable pub read_object : Text → Option (List Member)
unfolding read_members
read_object [] = none
read_object (c ∷ rest) =
    if c == 123
    then (read_member rest >>= λ (m, rest').
        read_members (length rest) rest' >>= λ ms. some (m ∷ ms))
    else none

read_value-print_value :
    (v : Value) (rest : Text) → read_value (print_value v rest) ≡ some (seen_value v, rest)
unfolding read_value print_value bool_name after
read_value-print_value (string text) rest = rw (read_literal-escape_json text rest) refl
read_value-print_value (boolean true) rest = refl
read_value-print_value (boolean false) rest = refl

read_member-print_member :
    (m : Member) (rest : Text) → read_member (print_member m rest) ≡ some (seen m, rest)
unfolding read_member print_member
read_member-print_member (key, value) rest =
    rw
      (
        read_literal-escape_json key (58 ∷ print_value value rest),
        read_value-print_value value rest,
      )
      refl

read_members-print_members :
    (n : ℕ) (ms : List Member)
    → length ms < n
    → read_members n (print_members ms []) ≡ some (map seen ms)
unfolding read_members print_members
read_members-print_members zero ms h = absurd (omega arith)
read_members-print_members (suc n) [] h = refl
read_members-print_members (suc n) (m ∷ ms) h =
    rw
      (
        read_member-print_member m (print_members ms []),
        read_members-print_members n ms (omega arith),
      )
      refl

length-print_value : (v : Value) (rest : Text) → length rest ≤ length (print_value v rest)
unfolding print_value
length-print_value (string text) rest = omega (arith, length-append (escape_json text) (34 ∷ rest))
length-print_value (boolean b) rest = omega (arith, length-append (bool_name b) rest)

length-print_member : (m : Member) (rest : Text) → length rest < length (print_member m rest)
unfolding print_member
length-print_member (key, value) rest = omega (
  arith,
  length-print_value value rest,
  length-append (escape_json key) (34 ∷ 58 ∷ print_value value rest),
)

length-print_members : (ms : List Member) (rest : Text) → length ms < length (print_members ms rest)
unfolding print_members
length-print_members [] rest = omega arith
length-print_members (m ∷ ms) rest =
    omega (arith, length-print_members ms rest, length-print_member m (print_members ms rest))

-- A printed object reads back as its members, in their order, with a space for each control
-- character of a text.
pub read_object-print_object :
    (m : Member) (ms : List Member) → read_object (print_object m ms) ≡ some (map seen (m ∷ ms))
unfolding read_object print_object
read_object-print_object m ms =
    let enough : length ms < length (print_member m (print_members ms [])) =
      omega (arith, length-print_members ms [], length-print_member m (print_members ms [])) in
    rw
      (
        read_member-print_member m (print_members ms []),
        read_members-print_members (length (print_member m (print_members ms []))) ms enough,
      )
      refl
