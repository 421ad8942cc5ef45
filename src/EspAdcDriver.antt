-- ===== src/EspAdcDriver.antt =====
-- firmware/components/esp_adc_driver. The one-shot ADC functions, the timer and the delay of ESP-IDF
-- are the parameter `Oneshot` over their state `X`. A reading is the 32-bit pattern of an `int`;
-- counts of microseconds since the start do not reach the end of their 64 bits.
pub mod Timing
pub mod Pacing
pub mod Construction
use esp32_dust_extraction.Common.{
  ℕ, zero, suc, ◌+◌, ◌-◌, ◌%◌, ◌^◌, Bool, true, false, ◌&&◌, not, Option, none, some, List, ltb,
  set, ◌==◌, if◌then◌else◌,
}
use esp32_dust_extraction.Common.Abort.{esp_error_check, ◌>>=◌}
use esp32_dust_extraction.Adc.{AdcConfig, AdcSampler, is_valid, sample_period_us}

abbrev pub Pointer : Type 0
Pointer = ℕ

abbrev pub esp_ok : ℕ
esp_ok = 0

abbrev pub esp_err_invalid_arg : ℕ
esp_err_invalid_arg = 0x102

pub record EspAdcConfig : Type 0 where
  pub unit : ℕ
  pub channel : ℕ
  pub attenuation : ℕ
  pub sample_rate_hz : ℕ

-- `ulp_disabled` stands for `ADC_ULP_MODE_DISABLE`, `default_bitwidth` for `ADC_BITWIDTH_DEFAULT`.
pub record UnitConfig : Type 0 where
  pub unit_id : ℕ
  pub clk_src : ℕ
  pub ulp_disabled : Bool

pub record ChannelConfig : Type 0 where
  pub atten : ℕ
  pub default_bitwidth : Bool

pub record Oneshot (X : Type 0) : Type 0 where
  pub adc_oneshot_new_unit : UnitConfig → X → ℕ × Pointer × X
  pub adc_oneshot_config_channel : Pointer → ℕ → ChannelConfig → X → ℕ × X
  pub adc_oneshot_del_unit : Pointer → X → ℕ × X
  pub adc_oneshot_read : Pointer → ℕ → X → ℕ × ℕ × X
  pub esp_timer_get_time : X → ℕ × X
  pub esp_rom_delay_us : ℕ → X → X

pub record EspAdcDriver : Type 0 where
  pub esp_config : EspAdcConfig
  pub config : AdcConfig
  pub handle : Pointer

-- One conversion's result and reading.
abbrev pub sample_of : ℕ → ℕ → Option ℕ
sample_of result raw = if not (result == esp_ok) then none else some (raw % 2 ^ 16)

module _ {X : Type 0} (adc : Oneshot X) where
  open adc use {
    adc_oneshot_new_unit, adc_oneshot_config_channel, adc_oneshot_del_unit, adc_oneshot_read,
    esp_timer_get_time, esp_rom_delay_us,
  }

  unfoldable pub new : EspAdcConfig → X → Option (EspAdcDriver × X)
  new esp_config x = do
    let config : AdcConfig = record {
      channel = esp_config.channel % 2 ^ 8;
      sample_rate_hz = esp_config.sample_rate_hz;
    }
    x₀ ← esp_error_check (if is_valid config then esp_ok else esp_err_invalid_arg, x)
    let unit_config : UnitConfig = record {
      unit_id = esp_config.unit;
      clk_src = 0;
      ulp_disabled = true;
    }
    let (made, handle, x₁) = adc_oneshot_new_unit unit_config x₀
    x₂ ← esp_error_check (made, x₁)
    let channel_config : ChannelConfig = record {
      atten = esp_config.attenuation;
      default_bitwidth = true;
    }
    x₃ ← esp_error_check (adc_oneshot_config_channel handle esp_config.channel channel_config x₂)
    some (record { esp_config = esp_config; config = config; handle = handle }, x₃)

  -- `EspAdcDriver::~EspAdcDriver`.
  unfoldable pub destroy : EspAdcDriver → X → Option X
  destroy d x = esp_error_check (adc_oneshot_del_unit d.handle x)

  unfoldable pub read_raw : EspAdcDriver → X → Option ℕ × X
  read_raw d x =
      let (result, raw, x') = adc_oneshot_read d.handle d.esp_config.channel x in
      (sample_of result raw, x')

  -- The wait between two conversions: until `next_us`, if it is not past and more are to come.
  unfoldable pub pace : ℕ → ℕ → ℕ → X → X
  pace stored count next_us x =
      let (now, x') = esp_timer_get_time x in
      if ltb stored count && ltb now next_us
      then esp_rom_delay_us ((next_us - now) % 2 ^ 32) x'
      else x'

  -- The loop, from `stored` samples on, with `rounds` for `count - stored`.
  unfoldable pub acquire : EspAdcDriver → ℕ → ℕ → ℕ → ℕ → List ℕ → X → ℕ × List ℕ × X
  acquire d zero stored count next_us buffer x = (stored, buffer, x)
  acquire d (suc rounds) stored count next_us buffer x =
      let (sample, x₁) = read_raw d x in
      elim sample [
        | none ↦ (stored, buffer, x₁)
        | some v ↦
            let next = next_us + sample_period_us d.config in
            acquire d rounds (stored + 1) count next (set buffer stored v)
              (pace (stored + 1) count next x₁)
      ]

  -- `read_raw` with a buffer; the null pointer is `none`.
  unfoldable pub read_raw_into : EspAdcDriver → Option (List ℕ) → ℕ → X → ℕ × Option (List ℕ) × X
  unfolding acquire
  read_raw_into d none count x = let (now, x') = esp_timer_get_time x in (0, none, x')
  read_raw_into d (some buffer) count x =
      let (now, x₁) = esp_timer_get_time x in
      let (stored, buffer', x₂) = acquire d count 0 count now buffer x₁ in
      (stored, some buffer', x₂)

  -- The driver as an `AdcSampler`.
  unfoldable pub sampler : AdcSampler (EspAdcDriver × X)
  sampler = record {
    config = λ (d, x). d.config;
    read_raw = λ (d, x). let (sample, x') = read_raw d x in (sample, (d, x'));
  }
