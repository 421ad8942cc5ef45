-- ===== src/EspAdcDriver/Construction.antt =====
-- The construction of a driver: when it aborts, and the sample period that it leaves.
use native.Mathlib.Nat.{div-add-mod', mod-lt}
use esp32_dust_extraction.Common.{
  ℕ, zero, suc, ◌+◌, ◌*◌, ◌/◌, ◌%◌, ◌^◌, ◌≤◌, ◌<◌, ◌≡◌, refl, ◌⊎◌, inl, inr, true, none, some,
  arith,
}
use esp32_dust_extraction.Adc.{AdcConfig, is_valid, sample_period_us}
use esp32_dust_extraction.EspAdcDriver
use esp32_dust_extraction.EspAdcDriver.{
  Oneshot, EspAdcConfig, EspAdcDriver, UnitConfig, ChannelConfig, Pointer, esp_ok,
}

-- A period of whole microseconds, the longest that a rate allows, and not zero.
pub record IsPeriod (rate period : ℕ) : Type 0 where
  pub positive : 0 < period
  pub fits : period * rate ≤ 1_000_000
  pub longest : 1_000_000 < period * rate + rate

quotient-positive : (p r m total : ℕ) → p * r + m ≡ total → m < r → r ≤ total → 0 < p
quotient-positive zero r m total e small le = absurd (omega arith)
quotient-positive (suc p) r m total e small le = omega arith

sample_period_us-IsPeriod :
    (config : AdcConfig)
    → 0 < config.sample_rate_hz
    → config.sample_rate_hz ≤ 1_000_000
    → IsPeriod config.sample_rate_hz (sample_period_us config)
unfolding sample_period_us
sample_period_us-IsPeriod config positive bounded =
    let r = config.sample_rate_hz in
    let p = 1_000_000 / r in
    let whole : p * r + 1_000_000 % r ≡ 1_000_000 = div-add-mod' 1_000_000 r in
    let small : 1_000_000 % r < r = mod-lt 1_000_000 positive in
    let same : is_valid config ≡ true = unfold is_valid in ground arith in
    rw same (record {
      positive = quotient-positive p r (1_000_000 % r) 1_000_000 whole small bounded;
      fits = omega (arith, whole);
      longest = omega (arith, whole, small);
    })

module _ {X : Type 0} (adc : Oneshot X) where
  abbrev pub unit_of : EspAdcConfig → UnitConfig
  unit_of config = record { unit_id = config.unit; clk_src = 0; ulp_disabled = true }

  abbrev pub channel_of : EspAdcConfig → ChannelConfig
  channel_of config = record { atten = config.attenuation; default_bitwidth = true }

  -- The two calls that the constructor makes.
  abbrev pub made : EspAdcConfig → X → ℕ × Pointer × X
  made config x = adc.adc_oneshot_new_unit (unit_of config) x

  abbrev pub configured : EspAdcConfig → X → ℕ × X
  configured config x =
      let (result, handle, x₁) = made config x in
      adc.adc_oneshot_config_channel handle config.channel (channel_of config) x₁

  abbrev pub Ready : EspAdcConfig → X → Type 0
  Ready config x =
      (0 < config.sample_rate_hz)
      × (config.sample_rate_hz ≤ 1_000_000)
      × ((made config x).0 ≡ esp_ok)
      × ((configured config x).0 ≡ esp_ok)

  abbrev built : EspAdcConfig → X → EspAdcDriver
  built config x = record {
    esp_config = config;
    config = record { channel = config.channel % 2 ^ 8; sample_rate_hz = config.sample_rate_hz };
    handle = (made config x).1;
  }

  new-built :
      (config : EspAdcConfig) (x : X)
      → Ready config x
      → EspAdcDriver.new adc config x ≡ some (built config x, (configured config x).1)
  unfolding EspAdcDriver.new is_valid
  new-built config x (positive, bounded, first, second) = ground (arith, first, second)

  new_aborts :
      (config : EspAdcConfig) (x : X) → Ready config x ⊎ (EspAdcDriver.new adc config x ≡ none)
  unfolding EspAdcDriver.new is_valid
  new_aborts config x = ground arith

  -- The constructor either returns a driver of the unit that ESP-IDF made, its channel configured
  -- with the attenuation, or aborts. It returns just when the rate is from 1 Hz to 1 MHz and both
  -- calls succeed, and then the sample period is the longest of whole microseconds that the rate
  -- allows, and not zero.
  pub new-IsPeriod :
      (config : EspAdcConfig) (x : X)
      → (Ready config x
          × ((d : EspAdcDriver) × (EspAdcDriver.new adc config x
                ≡ some (d, (configured config x).1))
              × (d.esp_config ≡ config)
              × (d.handle ≡ (made config x).1)
              × IsPeriod config.sample_rate_hz (sample_period_us d.config)))
        ⊎ ((¬ Ready config x) × (EspAdcDriver.new adc config x ≡ none))
  new-IsPeriod config x = elim (new_aborts config x) [
    | inl ready ↦ inl (
      ready,
      (
        built config x,
        new-built config x ready,
        refl,
        refl,
        sample_period_us-IsPeriod (built config x).config ready.0 ready.1,
      ),
    )
    | inr aborted ↦ inr (λ ready. cc (aborted, new-built config x ready), aborted)
  ]
