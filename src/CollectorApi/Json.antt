-- ===== src/CollectorApi/Json.antt =====
-- The escaping of texts in the bodies of collector_api.
pub mod Reader
pub mod Bodies
use esp32_dust_extraction.Common.{
  ◌≡◌, refl, Bool, true, false, ◌||◌, Option, none, some, [], ◌∷◌, ◌++◌, map, Text, arith, ltb,
  ◌==◌, if◌then◌else◌, ℕ,
}
use esp32_dust_extraction.CollectorApi.{escape_json}

abbrev prepend : ℕ → Option (Text × Text) → Option (Text × Text)
prepend c none = none
prepend c (some (text, rest)) = some (c ∷ text, rest)

-- A JSON string literal from a point behind its opening quotation mark: the text it stands for, and
-- what follows its closing mark. A backslash stands before a mark or a backslash that belongs to
-- the text (`escaped` says that one has been read), other escapes are not known, and control
-- characters are not allowed.
unfoldable pub read_literal : Bool → Text → Option (Text × Text)
read_literal escaped [] = none
read_literal true (c ∷ rest) =
    let after = read_literal false rest in if (c == 34) || (c == 92) then prepend c after else none
read_literal false (c ∷ rest) =
    let after = read_literal false rest in
    let protected = read_literal true rest in
    if c == 34
    then some ([], rest)
    else if c == 92
    then protected
    else if ltb c 32
    then none
    else prepend c after

-- What a client sees of a byte: a space for a control character.
unfoldable pub visible : ℕ → ℕ
visible c = if ltb c 32 then 32 else c

-- An escaped text with a quotation mark behind it is a string literal that stands for the text with
-- a space for each control character, and the literal ends at that mark: no byte of the text closes
-- it early or takes in what follows.
pub read_literal-escape_json :
    (text rest : Text)
    → read_literal false (escape_json text ++ 34 ∷ rest) ≡ some (map visible text, rest)
unfolding read_literal escape_json visible
read_literal-escape_json [] rest = refl
read_literal-escape_json (c ∷ text) rest = ground (arith, read_literal-escape_json text rest)
