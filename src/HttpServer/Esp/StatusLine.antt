-- ===== src/HttpServer/Esp/StatusLine.antt =====
-- The number that a status line begins with.
use esp32_dust_extraction.Common.{
  c_str, ℕ, zero, suc, ◌+◌, ◌-◌, ◌*◌, ◌/◌, ◌%◌, ◌<◌, ◌≡◌, refl, [], ◌∷◌, ◌++◌, ◌&&◌, Text, codes,
  arith, leb, ltb, if◌then◌else◌, Bool-cases, inl, inr, ap, ◌∙◌,
}
use esp32_dust_extraction.HttpServer.Esp.{reason_phrase, digits, to_string, status_line}

-- The number that a text begins with in decimal, behind digits that make `n`.
unfoldable pub leading : ℕ → Text → ℕ
leading n [] = n
leading n (c ∷ cs) =
    let rest = leading (n * 10 + (c - b'0')) cs in if leb b'0' c && leb c b'9' then rest else n

-- The end of a text at its first zero byte is no digit either.
leading-c_str : (n : ℕ) (t : Text) → leading n (c_str t) ≡ leading n t
unfolding leading c_str
leading-c_str n [] = refl
leading-c_str n (c ∷ cs) = ground (arith, leading-c_str (n * 10 + (c - b'0')) cs)

leading-digits :
    (rounds n : ℕ) (acc : Text) → n < rounds → leading 0 (digits rounds n acc) ≡ leading n acc
unfolding leading digits
leading-digits zero n acc h = absurd (omega arith)
leading-digits (suc rounds) n acc h = elim (Bool-cases (ltb n 10)) [
  | inl small ↦ ground arith
  | inr large ↦
      let shorter = leading-digits rounds (n / 10) ((b'0' + n % 10) ∷ acc) (ground arith) in
      ground (arith, shorter)
]

digits-append :
    (rounds n : ℕ) (acc rest : Text) → digits rounds n acc ++ rest ≡ digits rounds n (acc ++ rest)
unfolding digits
digits-append zero n acc rest = refl
digits-append (suc rounds) n acc rest =
    ground (arith, digits-append rounds (n / 10) ((b'0' + n % 10) ∷ acc) rest)

-- The number at the beginning of a status line.
pub leading-status_line : (n : ℕ) → leading 0 (c_str (status_line n)) ≡ n
unfolding status_line to_string leading
leading-status_line n =
    leading-c_str 0 (status_line n)
    ∙ ap (leading 0) (digits-append (n + 1) n [] (codes " " ++ reason_phrase n))
    ∙ leading-digits (n + 1) n (codes " " ++ reason_phrase n) (omega arith)
