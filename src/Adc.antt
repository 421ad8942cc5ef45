-- ===== src/Adc.antt =====
-- firmware/components/adc: the configuration and the interface `AdcSampler` over the state `S` of
-- an implementation, with the acquisition loop that it inherits.
pub mod Acquisition
use esp32_dust_extraction.Common.{
  ℕ, zero, suc, ◌+◌, ◌/◌, Bool, ◌&&◌, Option, none, some, List, ltb, leb, set, if◌then◌else◌,
}

abbrev pub max_sample_rate_hz : ℕ
max_sample_rate_hz = 1_000_000

pub record AdcConfig : Type 0 where
  pub channel : ℕ
  pub sample_rate_hz : ℕ

unfoldable pub is_valid : AdcConfig → Bool
is_valid config = ltb 0 config.sample_rate_hz && leb config.sample_rate_hz max_sample_rate_hz

unfoldable pub sample_period_us : AdcConfig → ℕ
unfolding is_valid
sample_period_us config = if is_valid config then 1_000_000 / config.sample_rate_hz else 0

pub record AdcSampler (S : Type 0) : Type 0 where
  pub config : S → AdcConfig
  pub read_raw : S → Option ℕ × S

module _ {S : Type 0} (sampler : AdcSampler S) where
  -- The loop, from `stored` samples on, with `rounds` for `count - stored`.
  unfoldable pub acquire : ℕ → ℕ → List ℕ → S → ℕ × List ℕ × S
  acquire zero stored buffer s = (stored, buffer, s)
  acquire (suc rounds) stored buffer s =
      let (sample, s') = sampler.read_raw s in
      elim sample [
        | none ↦ (stored, buffer, s')
        | some v ↦ acquire rounds (stored + 1) (set buffer stored v) s'
      ]

  -- `read_raw` with a buffer; the null pointer is `none`.
  unfoldable pub read_raw_into : Option (List ℕ) → ℕ → S → ℕ × Option (List ℕ) × S
  unfolding acquire
  read_raw_into none count s = (0, none, s)
  read_raw_into (some buffer) count s =
      let (stored, buffer', s') = acquire count 0 buffer s in (stored, some buffer', s')
