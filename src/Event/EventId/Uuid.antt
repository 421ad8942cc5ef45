-- ===== src/Event/EventId/Uuid.antt =====
-- What `is_uuid` accepts, written without indices.
use esp32_dust_extraction.Common.{
  ◌≡◌, refl, subst, ◌⊎◌, ◌↔◌, inl, inr, true, none, some, [], ◌∷◌, ◌++◌, Text, length, arith,
  Bool-cases, length-append, append-nil,
}
use esp32_dust_extraction.Event.EventId.Groups.{
  IsGroup, read_group, read-Section, pass_group, pass_separator, Free-0, Free-9, Free-14, Free-19,
  Free-24, Reads-length,
}
use esp32_dust_extraction.Event.EventId.{is_separator_index, is_uuid_from, is_uuid, from_string}

-- The form 8-4-4-4-12.
pub record IsUuid (value : Text) : Type 0 where
  pub time_low : Text
  pub time_mid : Text
  pub time_high : Text
  pub clock_sequence : Text
  pub node : Text
  pub joined :
      value
      ≡ time_low
        ++ b'-' ∷ (time_mid ++ b'-' ∷ (time_high ++ b'-' ∷ (clock_sequence ++ b'-' ∷ node)))
  pub time_low_group : IsGroup 8 time_low
  pub time_mid_group : IsGroup 4 time_mid
  pub time_high_group : IsGroup 4 time_high
  pub clock_sequence_group : IsGroup 4 clock_sequence
  pub node_group : IsGroup 12 node

empty_of_length : (s : Text) → length s ≡ 0 → s ≡ []
empty_of_length [] h = refl
empty_of_length (c ∷ s) h = absurd (omega arith)

IsUuid-sound : (v : Text) → length v ≡ 36 → is_uuid_from 0 v ≡ true → IsUuid v
unfolding is_separator_index
IsUuid-sound v sized h =
    let a = read-Section 8 0 v (omega arith) Free-0 refl h in
    let b = read-Section 4 9 a.rest (omega (arith, a.left)) Free-9 refl a.accepted in
    let c = read-Section 4 14 b.rest (omega (arith, a.left, b.left)) Free-14 refl b.accepted in
    let d =
      read-Section 4 19 c.rest (omega (arith, a.left, b.left, c.left)) Free-19 refl c.accepted in
    let left : length d.rest ≡ 12 = omega (arith, a.left, b.left, c.left, d.left) in
    let e = read_group 12 24 d.rest (omega (arith, left)) Free-24 d.accepted in
    let ended : e.rest ≡ [] = empty_of_length e.rest (omega (arith, left, Reads-length e)) in
    record {
      time_low = a.digits;
      time_mid = b.digits;
      time_high = c.digits;
      clock_sequence = d.digits;
      node = e.digits;
      joined = cc (a.split, b.split, c.split, d.split, e.split, ended, append-nil e.digits);
      time_low_group = a.group;
      time_mid_group = b.group;
      time_high_group = c.group;
      clock_sequence_group = d.group;
      node_group = e.group;
    }

IsUuid-complete : (v : Text) → IsUuid v → (length v ≡ 36) × (is_uuid_from 0 v ≡ true)
unfolding is_separator_index
IsUuid-complete v w = (
  rw w.joined (
      omega (
        arith,
        length-append {0},
        w.time_low_group.sized,
        w.time_mid_group.sized,
        w.time_high_group.sized,
        w.clock_sequence_group.sized,
        w.node_group.sized,
      )),
  rw w.joined (
      pass_group 0 8 _ _ w.time_low_group Free-0 (
        pass_separator 8 _ refl (
          pass_group 9 4 _ _ w.time_mid_group Free-9 (
            pass_separator 13 _ refl (
              pass_group 14 4 _ _ w.time_high_group Free-14 (
                pass_separator 18 _ refl (
                  pass_group 19 4 _ _ w.clock_sequence_group Free-19
                    (pass_separator 23 _ refl last)))))))),
)
  where
    last : is_uuid_from 24 w.node ≡ true
    last =
        subst (λ t. is_uuid_from 24 t ≡ true) (append-nil w.node)
          (pass_group 24 12 w.node [] w.node_group Free-24 (unfold is_uuid_from in refl))

is_uuid_iff : (v : Text) → (is_uuid v ≡ true) ↔ IsUuid v
unfolding is_uuid
is_uuid_iff v = (
  λ h. let (sized, read) = tests h in IsUuid-sound v sized read,
  λ w. let (sized, read) = IsUuid-complete v w in ground arith,
)
  where
    tests : is_uuid v ≡ true → (length v ≡ 36) × (is_uuid_from 0 v ≡ true)
    tests h = ground arith

-- `EventId::from_string` either returns the text it is given, which is then a UUID in the form
-- 8-4-4-4-12 of hexadecimal digits of either case, or returns nothing, and the text then has no
-- such form.
pub from_string-IsUuid :
    (v : Text)
    → (IsUuid v × (from_string v ≡ some (record { value = v })))
      ⊎ ((¬ IsUuid v) × (from_string v ≡ none))
unfolding from_string
from_string-IsUuid v = elim (Bool-cases (is_uuid v)) [
  | inl accepted ↦ inl ((is_uuid_iff v).0 accepted, rw accepted)
  | inr refused ↦ inr (λ w. cc (refused, (is_uuid_iff v).1 w), rw refused)
]
