-- ===== src/Event/EventId/Groups.antt =====
-- The loop of `is_uuid` taken in groups of digits.
use esp32_dust_extraction.Common.{
  ℕ, zero, suc, ◌+◌, ◌≤◌, ◌<◌, ◌≡◌, refl, ap, subst, true, false, [], ◌∷◌, ◌++◌, Text, length, all,
  arith, length-append, ◌∙◌,
}
use esp32_dust_extraction.Event.EventId.{is_hexadecimal, is_separator_index, is_uuid_from}

-- `n` hexadecimal digits.
pub record IsGroup (n : ℕ) (s : Text) : Type 0 where
  pub sized : length s ≡ n
  pub hexadecimal : all is_hexadecimal s ≡ true

-- No index from `first` up to `last` holds a separator.
abbrev pub Free : ℕ → ℕ → Type 0
Free first last = (i : ℕ) → first ≤ i → i < last → is_separator_index i ≡ false

-- A group read at `index`: its digits, and the rest of the text, which the loop goes on to accept.
pub record Reads (index n : ℕ) (s : Text) : Type 0 where
  pub digits : Text
  pub rest : Text
  pub split : s ≡ digits ++ rest
  pub group : IsGroup n digits
  pub accepted : is_uuid_from (index + n) rest ≡ true

pub read_digit :
    (index c : ℕ) (s : Text)
    → is_separator_index index ≡ false
    → is_uuid_from index (c ∷ s) ≡ true
    → (is_hexadecimal c ≡ true) × (is_uuid_from (index + 1) s ≡ true)
unfolding is_uuid_from
read_digit index c s free h = ground arith

pub read_group :
    (n index : ℕ) (s : Text)
    → n ≤ length s
    → Free index (index + n)
    → is_uuid_from index s ≡ true
    → Reads index n s
unfolding is_uuid_from
read_group zero index s long free h = record {
  digits = [];
  rest = s;
  split = refl;
  group = record { sized = refl; hexadecimal = refl };
  accepted = rw add_zero h;
}
  where
    add_zero : index + 0 ≡ index
    add_zero = omega arith
read_group (suc n) index [] long free h = absurd (omega arith)
read_group (suc n) index (c ∷ s) long free h =
    let (digit, tail) = read_digit index c s (free index (omega arith) (omega arith)) h in
    let r =
      read_group n (index + 1) s (omega arith) (λ i lo hi. free i (omega arith) (omega arith))
        tail in
    record {
      digits = c ∷ r.digits;
      rest = r.rest;
      split = ap (◌∷◌ c) r.split;
      group = record {
        sized = omega (arith, r.group.sized);
        hexadecimal = ground (arith, r.group.hexadecimal);
      };
      accepted = subst (λ i. is_uuid_from i r.rest ≡ true) add_suc r.accepted;
    }
  where
    add_suc : index + 1 + n ≡ index + suc n
    add_suc = omega arith

-- The separator at `index`.
pub read_separator :
    (index : ℕ) (s : Text)
    → 0 < length s
    → is_separator_index index ≡ true
    → is_uuid_from index s ≡ true
    → (rest : Text) × (s ≡ b'-' ∷ rest) × (is_uuid_from (index + 1) rest ≡ true)
unfolding is_uuid_from
read_separator index [] long sep h = absurd (omega arith)
read_separator index (c ∷ s) long sep h = (s, ground arith, ground arith)

pub pass_group :
    (index n : ℕ) (s t : Text)
    → IsGroup n s
    → Free index (index + n)
    → is_uuid_from (index + n) t ≡ true
    → is_uuid_from index (s ++ t) ≡ true
unfolding is_uuid_from
pass_group index n [] t g free h = subst (λ i. is_uuid_from i t ≡ true) (omega (arith, g.sized)) h
pass_group index zero (c ∷ s) t g free h = absurd (omega (arith, g.sized))
pass_group index (suc n) (c ∷ s) t g free h =
    let tail =
      pass_group (index + 1) n s t
        (record { sized = omega (arith, g.sized); hexadecimal = ground (arith, g.hexadecimal) })
        (λ i lo hi. free i (omega arith) (omega arith))
        (subst (λ i. is_uuid_from i t ≡ true) add_suc h) in
    ground (arith, free index (omega arith) (omega arith), tail, g.hexadecimal)
  where
    add_suc : index + suc n ≡ index + 1 + n
    add_suc = omega arith

pub pass_separator :
    (index : ℕ) (s : Text)
    → is_separator_index index ≡ true
    → is_uuid_from (index + 1) s ≡ true
    → is_uuid_from index (b'-' ∷ s) ≡ true
unfolding is_uuid_from
pass_separator index s sep h = ground arith

pub Free-0 : Free 0 8
unfolding is_separator_index
Free-0 i lo hi = ground arith

pub Free-9 : Free 9 13
unfolding is_separator_index
Free-9 i lo hi = ground arith

pub Free-14 : Free 14 18
unfolding is_separator_index
Free-14 i lo hi = ground arith

pub Free-19 : Free 19 23
unfolding is_separator_index
Free-19 i lo hi = ground arith

pub Free-24 : Free 24 36
unfolding is_separator_index
Free-24 i lo hi = ground arith

pub Reads-length : {index n : ℕ} {s : Text} (r : Reads index n s) → length s ≡ n + length r.rest
Reads-length r = omega (arith, ap length r.split, length-append r.digits r.rest, r.group.sized)

-- A group and the separator behind it.
pub record Section (index n : ℕ) (s : Text) : Type 0 where
  pub digits : Text
  pub rest : Text
  pub split : s ≡ digits ++ b'-' ∷ rest
  pub group : IsGroup n digits
  pub left : length s ≡ n + 1 + length rest
  pub accepted : is_uuid_from (index + n + 1) rest ≡ true

pub read-Section :
    (n index : ℕ) (s : Text)
    → n < length s
    → Free index (index + n)
    → is_separator_index (index + n) ≡ true
    → is_uuid_from index s ≡ true
    → Section index n s
read-Section n index s long free sep h =
    let r = read_group n index s (omega arith) free h in
    let measured = Reads-length r in
    let (rest, separated, accepted) =
      read_separator (index + n) r.rest (omega (arith, measured)) sep r.accepted in
    record {
      digits = r.digits;
      rest = rest;
      split = r.split ∙ ap (◌++◌ r.digits) separated;
      group = r.group;
      left = omega (arith, measured, ap length separated);
      accepted = accepted;
    }
