-- ===== src/EventIdGenerator.antt =====
-- firmware/components/event_id_generator. `esp_fill_random` is the parameter `fill_random` over
-- the state `E` of the hardware: it fills as many bytes as it is asked for.
pub mod Version
use esp32_dust_extraction.Common.{ℕ, zero, suc, List, [], ◌∷◌, bit_and, bit_or}
use esp32_dust_extraction.Event.EventId

-- `bytes[index] = …`; the source's indices are within its sixteen bytes.
abbrev pub modify : ℕ → (ℕ → ℕ) → List ℕ → List ℕ
modify index f [] = []
modify zero f (b ∷ bs) = f b ∷ bs
modify (suc index) f (b ∷ bs) = b ∷ modify index f bs

-- `static_cast<std::uint8_t>((byte & 0x0F) | 0x40)` and `(byte & 0x3F) | 0x80`.
unfoldable pub set_version : ℕ → ℕ
set_version b = bit_or (bit_and b 0x0f) 0x40

unfoldable pub set_variant : ℕ → ℕ
set_variant b = bit_or (bit_and b 0x3f) 0x80

unfoldable pub stamp : List ℕ → List ℕ
unfolding set_version set_variant
stamp bytes = modify 8 set_variant (modify 6 set_version bytes)

unfoldable pub generate : {E : Type 0} → (ℕ → E → List ℕ × E) → E → EventId.EventId × E
generate fill_random e =
    let (bytes, e₁) = fill_random 16 e in (EventId.from_bytes (stamp bytes), e₁)
