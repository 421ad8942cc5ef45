-- ===== src/EspAdcDriver/Timing.antt =====
-- What ESP-IDF documents of conversions, the timer and the delay, and rows of conversions.
use esp32_dust_extraction.Common.{
  ℕ, zero, suc, ◌+◌, ◌≤◌, ◌≡◌, Option, none, some, List, [], ◌∷◌, ◌++◌,
}
use esp32_dust_extraction.EspAdcDriver.{Oneshot, Pointer, sample_of}

-- A conversion: the time at which it began, and its result.
pub record Conversion : Type 0 where
  pub at : ℕ
  pub sample : Option ℕ

-- What ESP-IDF documents, by the time of a state and the list of the conversions made: time does
-- not run backwards, the timer reads a time between its call and its return, and a delay takes at
-- least as long as it is asked to.
pub record Contract {X : Type 0} (adc : Oneshot X) (time : X → ℕ) (log : X → List Conversion)
    : Type 0 where
  pub read_log :
      (h : Pointer) (c : ℕ) (x : X)
      → let (result, raw, x') = adc.adc_oneshot_read h c x in
        log x' ≡ log x ++ record { at = time x; sample = sample_of result raw } ∷ []
  pub read_time : (h : Pointer) (c : ℕ) (x : X) → time x ≤ time (adc.adc_oneshot_read h c x).2
  pub timer_log : (x : X) → log (adc.esp_timer_get_time x).1 ≡ log x
  pub timer_after : (x : X) → time x ≤ (adc.esp_timer_get_time x).0
  pub timer_before : (x : X) → (adc.esp_timer_get_time x).0 ≤ time (adc.esp_timer_get_time x).1
  pub delay_log : (us : ℕ) (x : X) → log (adc.esp_rom_delay_us us x) ≡ log x
  pub delay_time : (us : ℕ) (x : X) → time x + us ≤ time (adc.esp_rom_delay_us us x)

-- At most `n` conversions in a row, the first not before `due` and each not before its predecessor's
-- due time and a period, of which all succeed, or all but the last; and the samples of those that
-- do.
pub data Row (period : ℕ) : ℕ → ℕ → List Conversion → List ℕ → Type 0 where
  full : {due : ℕ} → Row period zero due [] []
  failed :
      {n due : ℕ} {c : Conversion}
      → due ≤ c.at
      → c.sample ≡ none
      → Row period (suc n) due (c ∷ []) []
  more :
      {n due next : ℕ} {c : Conversion} {cs : List Conversion} {v : ℕ} {vs : List ℕ}
      → due ≤ c.at
      → c.sample ≡ some v
      → next ≡ due + period
      → Row period n next cs vs
      → Row period (suc n) due (c ∷ cs) (v ∷ vs)
