-- ===== src/Event/DeviceUid/Format.antt =====
-- What `is_device_uid` accepts, written without indices.
use esp32_dust_extraction.Common.{
  ℕ, zero, suc, ◌+◌, ◌≡◌, refl, ap, ◌≢◌, ◌⊎◌, inl, inr, true, none, some, [], ◌∷◌, ◌++◌, Text,
  length, take, drop, all, arith, Option-cases, Bool-cases, take-append, length-append,
}
use esp32_dust_extraction.Event.EventId.{is_hexadecimal}
use esp32_dust_extraction.Event.DeviceUid.{
  device_uid_hex_length, is_device_type_character, rfind, is_device_uid_at, is_device_uid,
  from_string,
}

-- A device type, a hyphen and the hexadecimal form of six bytes.
pub record IsDeviceUid (value : Text) : Type 0 where
  pub device_type : Text
  pub digits : Text
  pub joined : value ≡ device_type ++ b'-' ∷ digits
  pub named : device_type ≢ []
  pub type_characters : all is_device_type_character device_type ≡ true
  pub digits_length : length digits ≡ 12
  pub hexadecimal : all is_hexadecimal digits ≡ true

-- The position that `rfind` returns splits the text at the character.
rfind_split :
    (c : ℕ) (s : Text) (n : ℕ)
    → rfind c s ≡ some n
    → (s ≡ take n s ++ c ∷ drop (suc n) s) × (length (take n s) ≡ n)
unfolding rfind
rfind_split c [] n h = cc
rfind_split c (x ∷ s) zero h = ground arith
rfind_split c (x ∷ s) (suc n) h = ground (arith, rfind_split c s n)

-- No hexadecimal digit is a hyphen.
rfind-hexadecimal : (s : Text) → all is_hexadecimal s ≡ true → rfind b'-' s ≡ none
unfolding rfind is_hexadecimal
rfind-hexadecimal [] h = refl
rfind-hexadecimal (x ∷ s) h = ground (arith, rfind-hexadecimal s)

rfind-append : (c : ℕ) (s t : Text) → rfind c t ≡ none → rfind c (s ++ c ∷ t) ≡ some (length s)
unfolding rfind
rfind-append c [] t h = ground arith
rfind-append c (x ∷ s) t h = ground (arith, rfind-append c s t h)

drop-suc-append : (s t : Text) (c : ℕ) → drop (length s + 1) (s ++ c ∷ t) ≡ t
drop-suc-append s t c = rw add_one (go s)
  where
    add_one : length s + 1 ≡ suc (length s)
    add_one = omega arith

    go : (s : Text) → drop (suc (length s)) (s ++ c ∷ t) ≡ t
    go [] = refl
    go (x ∷ s) = go s

length-split : (s t : Text) (c : ℕ) → length (s ++ c ∷ t) ≡ length s + 1 + length t
length-split s t c = omega (arith, length-append s (c ∷ t))

-- What the tests after the search establish.
is_device_uid_at-tests :
    (v : Text) (n : ℕ)
    → is_device_uid_at v (some n) ≡ true
    → (n ≢ 0)
      × (length v ≡ n + 1 + device_uid_hex_length)
      × (all is_device_type_character (take n v) ≡ true)
      × (all is_hexadecimal (drop (n + 1) v) ≡ true)
unfolding is_device_uid_at
is_device_uid_at-tests v n h = ground arith

is_device_uid_at_sound :
    (v : Text) (n : ℕ) → rfind b'-' v ≡ some n → is_device_uid_at v (some n) ≡ true → IsDeviceUid v
is_device_uid_at_sound v n found h =
    let (positive, sized, typed, hexed) = is_device_uid_at-tests v n h in
    let (split, at) = rfind_split b'-' v n found in
    let after : drop (n + 1) v ≡ drop (suc n) v = rw add_one refl in
    record {
      device_type = take n v;
      digits = drop (n + 1) v;
      joined = rw after split;
      named = λ e. positive (omega (arith, ap length e, at));
      type_characters = typed;
      digits_length =
          omega (
            arith,
            ap length split,
            length-split (take n v) (drop (suc n) v) b'-',
            ap length after,
          );
      hexadecimal = hexed;
    }
  where
    add_one : n + 1 ≡ suc n
    add_one = omega arith

is_device_uid_sound : (v : Text) → is_device_uid v ≡ true → IsDeviceUid v
unfolding is_device_uid
is_device_uid_sound v h = elim (Option-cases (rfind b'-' v)) [
  | inl missing ↦ cc (rw missing at h)
  | inr (n, found) ↦ is_device_uid_at_sound v n found (rw found at h)
]

is_device_uid_at_complete :
    (s t : Text)
    → s ≢ []
    → all is_device_type_character s ≡ true
    → length t ≡ 12
    → all is_hexadecimal t ≡ true
    → is_device_uid_at (s ++ b'-' ∷ t) (some (length s)) ≡ true
unfolding is_device_uid_at
is_device_uid_at_complete [] t named typed sized hexed = absurd (named refl)
is_device_uid_at_complete (x ∷ s) t named typed sized hexed = ground (
  arith,
  take-append (x ∷ s) (b'-' ∷ t),
  drop-suc-append (x ∷ s) t b'-',
  length-split (x ∷ s) t b'-',
)

pub is_device_uid_complete : (v : Text) → IsDeviceUid v → is_device_uid v ≡ true
unfolding is_device_uid
is_device_uid_complete v w =
    rw
      (
        w.joined,
        rfind-append b'-' w.device_type w.digits (rfind-hexadecimal w.digits w.hexadecimal),
      )
      (is_device_uid_at_complete w.device_type w.digits w.named w.type_characters w.digits_length
        w.hexadecimal)

-- `DeviceUid::from_string` either returns the text it is given, which is then a non-empty device
-- type of `A`-`Z`, `0`-`9` and `_`, a hyphen and twelve hexadecimal digits, or returns nothing, and
-- the text then has no such form.
pub from_string-IsDeviceUid :
    (v : Text)
    → (IsDeviceUid v × (from_string v ≡ some (record { value = v })))
      ⊎ ((¬ IsDeviceUid v) × (from_string v ≡ none))
unfolding from_string
from_string-IsDeviceUid v = elim (Bool-cases (is_device_uid v)) [
  | inl accepted ↦ inl (is_device_uid_sound v accepted, rw accepted)
  | inr refused ↦ inr (λ w. cc (refused, is_device_uid_complete v w), rw refused)
]
