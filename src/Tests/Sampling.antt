-- ===== src/Tests/Sampling.antt =====
-- A converter that fails now and then, on a clock that a conversion moves by 3 and a reading by 1.
use esp32_dust_extraction.Common.{
  ℕ, ◌+◌, ◌≤◌, ◌≡◌, refl, ◌⊎◌, Option, none, some, List, [], ◌∷◌, ◌++◌, length, drop, arith,
}
use esp32_dust_extraction.Adc.{AdcConfig, AdcSampler, read_raw_into, sample_period_us}
use esp32_dust_extraction.Adc.Acquisition.{readings, read_raw_into_lem}
use esp32_dust_extraction.EspAdcDriver
use esp32_dust_extraction.EspAdcDriver.{Oneshot, EspAdcConfig, EspAdcDriver, sample_of}
use esp32_dust_extraction.EspAdcDriver.Construction.{
  IsPeriod, Ready, made, configured, new-IsPeriod,
}
use esp32_dust_extraction.EspAdcDriver.Timing.{Conversion, Contract, Row}
use esp32_dust_extraction.EspAdcDriver.Pacing.{read_raw_into-Row}

abbrev config : AdcConfig
config = record { channel = 3; sample_rate_hz = 1000 }

-- The state is what the next conversions give.
abbrev toy_sampler : AdcSampler (List ℕ)
toy_sampler = record { config = λ s. config; read_raw = λ s. (head s, tail s) }
  where
    head : List ℕ → Option ℕ
    head [] = none
    head (v ∷ s) = some v

    tail : List ℕ → List ℕ
    tail [] = []
    tail (v ∷ s) = s

abbrev buffer : List ℕ
buffer = 7 ∷ 7 ∷ 7 ∷ 7 ∷ []

read_raw_into_lem_example :
    let (vs, s') = readings toy_sampler 3 (10 ∷ 20 ∷ []) in
    (read_raw_into toy_sampler (some buffer) 3 (10 ∷ 20 ∷ [])
      ≡ (length vs, some (vs ++ drop (length vs) buffer), s'))
    × (length vs ≤ 3)
read_raw_into_lem_example = read_raw_into_lem toy_sampler 3 buffer (10 ∷ 20 ∷ []) (omega arith)

record Board : Type 0 where
  clock : ℕ
  made : List Conversion

abbrev toy_adc : Oneshot Board
toy_adc = record {
  adc_oneshot_new_unit = λ c x. (0, 8, x);
  adc_oneshot_config_channel = λ h ch c x. (0, x);
  adc_oneshot_del_unit = λ h x. (0, x);
  adc_oneshot_read = λ h ch x. (
    0,
    512,
    record {
      clock = x.clock + 3;
      made = x.made ++ record { at = x.clock; sample = sample_of 0 512 } ∷ [];
    },
  );
  esp_timer_get_time = λ x. (x.clock, record x { clock = x.clock + 1 });
  esp_rom_delay_us = λ us x. record x { clock = x.clock + us };
}

toy-Contract : Contract toy_adc (λ x. x.clock) (λ x. x.made)
toy-Contract = record {
  read_log = λ h ch x. refl;
  read_time = λ h ch x. omega arith;
  timer_log = λ x. refl;
  timer_after = λ x. omega arith;
  timer_before = λ x. omega arith;
  delay_log = λ us x. refl;
  delay_time = λ us x. omega arith;
}

abbrev driver : EspAdcDriver
driver = record {
  esp_config = record { unit = 0; channel = 3; attenuation = 3; sample_rate_hz = 1000 };
  config = config;
  handle = 8;
}

abbrev board : Board
board = record { clock = 40; made = [] }

read_raw_into-Row_example :
    let (stored, buffer', x') = EspAdcDriver.read_raw_into toy_adc driver (some buffer) 3 board in
    (cs : List Conversion) × (vs : List ℕ) × Row (sample_period_us config) 3 40 cs vs
    × (x'.made ≡ cs)
    × (stored ≡ length vs)
    × (buffer' ≡ some (vs ++ drop (length vs) buffer))
read_raw_into-Row_example =
    read_raw_into-Row toy_adc (λ x. x.clock) (λ x. x.made) toy-Contract driver 3 buffer board
      (omega arith)

abbrev setup : EspAdcConfig
setup = record { unit = 1; channel = 3; attenuation = 2; sample_rate_hz = 3000 }

new-IsPeriod_example :
    (Ready toy_adc setup board
      × ((d : EspAdcDriver) × (EspAdcDriver.new toy_adc setup board
            ≡ some (d, (configured toy_adc setup board).1))
          × (d.esp_config ≡ setup)
          × (d.handle ≡ (made toy_adc setup board).1)
          × IsPeriod 3000 (sample_period_us d.config)))
    ⊎ ((¬ Ready toy_adc setup board) × (EspAdcDriver.new toy_adc setup board ≡ none))
new-IsPeriod_example = new-IsPeriod toy_adc setup board
