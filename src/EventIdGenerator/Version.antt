-- ===== src/EventIdGenerator/Version.antt =====
-- The generated ids are UUIDs of version 4 and of the variant of RFC 9562.
use esp32_dust_extraction.Common.{
  ℕ, zero, suc, ◌+◌, ◌*◌, ◌%◌, ◌<◌, ◌≡◌, refl, ap, ◌∙◌, Bool, true, ◌&&◌, some, List, [], ◌∷◌,
  length, ◌==◌, arith, ◌≢◌, ◌⊎◌,
}
use esp32_dust_extraction.Event.EventId.{from_string}
use esp32_dust_extraction.Event.EventId.Bytes.{
  AreBytes, read_bytes, from_string-from_bytes, read_bytes-from_bytes,
}
use esp32_dust_extraction.EventIdGenerator.{modify, set_version, set_variant, stamp, generate}

-- Two functions with the same values at every argument under a bound, which evaluation can check.
agree : (ℕ → ℕ) → (ℕ → ℕ) → ℕ → Bool
agree f g zero = true
agree f g (suc bound) = f bound == g bound && agree f g bound

agree_lem : (f g : ℕ → ℕ) (bound b : ℕ) → agree f g bound ≡ true → b < bound → f b ≡ g b
unfolding agree
agree_lem f g zero b h lt = absurd (omega arith)
agree_lem f g (suc bound) b h lt = ground (arith, agree_lem f g bound b)

version_table : agree set_version (λ b. 64 + b % 16) 256 ≡ true
unfolding agree set_version
version_table = refl

variant_table : agree set_variant (λ b. 128 + b % 64) 256 ≡ true
unfolding agree set_variant
variant_table = refl

pub set_version_lem : (b : ℕ) → b < 256 → set_version b ≡ 64 + b % 16
set_version_lem b h = agree_lem _ _ 256 b version_table h

pub set_variant_lem : (b : ℕ) → b < 256 → set_variant b ≡ 128 + b % 64
set_variant_lem b h = agree_lem _ _ 256 b variant_table h

abbrev pub get_or : List ℕ → ℕ → ℕ → ℕ
get_or [] i d = d
get_or (x ∷ xs) zero d = x
get_or (x ∷ xs) (suc i) d = get_or xs i d

length-modify : (i : ℕ) (f : ℕ → ℕ) (bs : List ℕ) → length (modify i f bs) ≡ length bs
length-modify i f [] = refl
length-modify zero f (b ∷ bs) = refl
length-modify (suc i) f (b ∷ bs) = omega (arith, length-modify i f bs)

modify-AreBytes :
    (i : ℕ) (f : ℕ → ℕ) (bs : List ℕ)
    → ((b : ℕ) → b < 256 → f b < 256)
    → AreBytes bs
    → AreBytes (modify i f bs)
modify-AreBytes i f [] k h = tt
modify-AreBytes zero f (b ∷ bs) k h = (k b h.0, h.1)
modify-AreBytes (suc i) f (b ∷ bs) k h = (h.0, modify-AreBytes i f bs k h.1)

get_or-AreBytes : (bs : List ℕ) (i : ℕ) → AreBytes bs → get_or bs i 0 < 256
get_or-AreBytes [] i h = omega arith
get_or-AreBytes (b ∷ bs) zero h = h.0
get_or-AreBytes (b ∷ bs) (suc i) h = get_or-AreBytes bs i h.1

get_or-modify_self :
    (i : ℕ) (f : ℕ → ℕ) (bs : List ℕ)
    → i < length bs
    → get_or (modify i f bs) i 0 ≡ f (get_or bs i 0)
get_or-modify_self i f [] h = absurd (omega arith)
get_or-modify_self zero f (b ∷ bs) h = refl
get_or-modify_self (suc i) f (b ∷ bs) h = get_or-modify_self i f bs (omega arith)

get_or-modify_ne :
    (i j : ℕ) (f : ℕ → ℕ) (bs : List ℕ) → i ≢ j → get_or (modify i f bs) j 0 ≡ get_or bs j 0
get_or-modify_ne i j f [] h = refl
get_or-modify_ne zero zero f (b ∷ bs) h = absurd (h refl)
get_or-modify_ne zero (suc j) f (b ∷ bs) h = refl
get_or-modify_ne (suc i) zero f (b ∷ bs) h = refl
get_or-modify_ne (suc i) (suc j) f (b ∷ bs) h = get_or-modify_ne i j f bs (λ e. h (ap suc e))

stamp-AreBytes : (bs : List ℕ) → AreBytes bs → AreBytes (stamp bs)
unfolding stamp
stamp-AreBytes bs h =
    modify-AreBytes 8 set_variant _ (λ b lt. omega (arith, set_variant_lem b lt))
      (modify-AreBytes 6 set_version bs (λ b lt. omega (arith, set_version_lem b lt)) h)

length-stamp : (bs : List ℕ) → length (stamp bs) ≡ length bs
unfolding stamp
length-stamp bs =
    length-modify 8 set_variant (modify 6 set_version bs) ∙ length-modify 6 set_version bs

stamp_bytes :
    (bs : List ℕ) (i : ℕ)
    → length bs ≡ 16
    → AreBytes bs
    → (get_or (stamp bs) 6 0 ≡ 64 + get_or bs 6 0 % 16)
      × (get_or (stamp bs) 8 0 ≡ 128 + get_or bs 8 0 % 64)
      × (length (stamp bs) ≡ 16)
      × ((i ≡ 6) ⊎ (i ≡ 8) ⊎ (get_or (stamp bs) i 0 ≡ get_or bs i 0))
unfolding stamp
stamp_bytes bs i sized bytes =
    let bs₁ = modify 6 set_version bs in
    let long = length-modify 6 set_version bs in
    (
      get_or-modify_ne 8 6 set_variant bs₁ (omega arith)
          ∙ get_or-modify_self 6 set_version bs (omega (arith, sized))
          ∙ set_version_lem (get_or bs 6 0) (get_or-AreBytes bs 6 bytes),
      get_or-modify_self 8 set_variant bs₁ (omega (arith, sized, long))
          ∙ ap set_variant (get_or-modify_ne 6 8 set_version bs (omega arith))
          ∙ set_variant_lem (get_or bs 8 0) (get_or-AreBytes bs 8 bytes),
      length-stamp bs ∙ sized,
      ground (arith, get_or-modify_ne 8 i set_variant bs₁, get_or-modify_ne 6 i set_version bs),
    )

-- What the program relies on of `esp_fill_random`: it fills the bytes asked for.
abbrev pub Fills : {E : Type 0} → (ℕ → E → List ℕ × E) → Type 0
Fills {E} fill_random =
    (n : ℕ) (e : E) → (length (fill_random n e).0 ≡ n) × AreBytes (fill_random n e).0

module _ {E : Type 0} (fill_random : ℕ → E → List ℕ × E) (fills : Fills fill_random) where
  -- A generated id is a text that `EventId::from_string` accepts.
  pub from_string-generate :
      (e : E) → from_string (generate fill_random e).0.value ≡ some (generate fill_random e).0
  unfolding generate
  from_string-generate e =
      let (sized, bytes) = fills 16 e in
      from_string-from_bytes (stamp (fill_random 16 e).0)
        (length-stamp (fill_random 16 e).0 ∙ sized) (stamp-AreBytes (fill_random 16 e).0 bytes)

  -- The bytes that a generated id spells are the random ones, but that byte 6 has the version 4 in
  -- its high half and byte 8 the variant 2 in its two high bits; the low bits of both are random.
  pub generate-version :
      (e : E) (i : ℕ)
      → let random = (fill_random 16 e).0 in
        let spelled = read_bytes (generate fill_random e).0.value in
        (get_or spelled 6 0 ≡ 4 * 16 + get_or random 6 0 % 16)
        × (get_or spelled 8 0 ≡ 2 * 64 + get_or random 8 0 % 64)
        × (length spelled ≡ 16)
        × ((i ≡ 6) ⊎ (i ≡ 8) ⊎ (get_or spelled i 0 ≡ get_or random i 0))
  unfolding generate
  generate-version e i =
      let (sized, bytes) = fills 16 e in
      let bs = (fill_random 16 e).0 in
      rw (read_bytes-from_bytes (stamp bs) (stamp-AreBytes bs bytes)) (stamp_bytes bs i sized bytes)
