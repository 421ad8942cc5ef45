-- ===== src/EspAdcDriver/Pacing.antt =====
-- When the conversions of `EspAdcDriver` are made, and what becomes of them.
use esp32_dust_extraction.Common.{
  ℕ, zero, suc, ◌+◌, ◌-◌, ◌%◌, ◌^◌, ◌≤◌, ◌<◌, ◌≡◌, refl, none, some, List, [], ◌∷◌, ◌++◌, length,
  drop, set, set-append, length-append, append_assoc, append-nil, arith, ap, Option-cases, inl, inr,
}
use native.Mathlib.Nat.{div-le_self}
use esp32_dust_extraction.Adc.{AdcConfig, sample_period_us}
use esp32_dust_extraction.EspAdcDriver.{
  Oneshot, EspAdcDriver, read_raw, pace, acquire, read_raw_into,
}
use esp32_dust_extraction.EspAdcDriver.Timing.{Conversion, Contract, Row, full, failed, more}

-- A period is at most a second.
sample_period_us-le : (config : AdcConfig) → sample_period_us config ≤ 1_000_000
unfolding sample_period_us
sample_period_us-le config = ground (arith, div-le_self 1_000_000 config.sample_rate_hz)

module _ {X : Type 0} (adc : Oneshot X) (time : X → ℕ) (log : X → List Conversion)
    (contract : Contract adc time log) where
  pace-log : (stored count next : ℕ) (x : X) → log (pace adc stored count next x) ≡ log x
  unfolding pace
  pace-log stored count next x =
      let (now, x') = adc.esp_timer_get_time x in
      ground (arith, contract.timer_log x, contract.delay_log ((next - now) % 2 ^ 32) x')

  -- The wait is long enough, and its cast to 32 bits takes nothing from it.
  pace-time :
      (stored count next : ℕ) (x : X)
      → stored < count
      → next ≤ time x + 1_000_000
      → next ≤ time (pace adc stored count next x)
  unfolding pace
  pace-time stored count next x left soon =
      let (now, x') = adc.esp_timer_get_time x in
      ground (
        arith,
        contract.timer_after x,
        contract.timer_before x,
        contract.delay_time ((next - now) % 2 ^ 32) x',
      )

  module _ (d : EspAdcDriver) where
    abbrev period : ℕ
    period = sample_period_us d.config

    -- The conversion of one round.
    abbrev conversion : X → Conversion
    conversion x = record { at = time x; sample = (read_raw adc d x).0 }

    read_raw-log : (x : X) → log (read_raw adc d x).1 ≡ log x ++ conversion x ∷ []
    unfolding read_raw
    read_raw-log x = contract.read_log d.handle d.esp_config.channel x

    read_raw-time : (x : X) → time x ≤ time (read_raw adc d x).1
    unfolding read_raw
    read_raw-time x = contract.read_time d.handle d.esp_config.channel x

    acquire-zero :
        (stored count next : ℕ) (buffer : List ℕ) (x : X)
        → acquire adc d zero stored count next buffer x ≡ (stored, buffer, x)
    unfolding acquire
    acquire-zero stored count next buffer x = refl

    acquire-none :
        (n stored count next : ℕ) (buffer : List ℕ) (x : X)
        → (read_raw adc d x).0 ≡ none
        → acquire adc d (suc n) stored count next buffer x ≡ (stored, buffer, (read_raw adc d x).1)
    unfolding acquire
    acquire-none n stored count next buffer x e = rw (e, acquire)

    -- The state in which the next round begins.
    abbrev paced : ℕ → ℕ → ℕ → X → X
    paced stored count next x = pace adc (stored + 1) count (next + period) (read_raw adc d x).1

    acquire-some :
        (n stored count next : ℕ) (buffer : List ℕ) (x : X) (v : ℕ)
        → (read_raw adc d x).0 ≡ some v
        → acquire adc d (suc n) stored count next buffer x
          ≡ acquire adc d n
              (stored + 1)
              count
              (next + period)
              (set buffer stored v)
              (paced stored count next x)
    unfolding acquire
    acquire-some n stored count next buffer x v e = rw (e, acquire)

    -- What a run of the loop does, with `done` stored and `n` rounds left.
    record Acquired (n next : ℕ) (done rest : List ℕ) (x : X) (run : ℕ × List ℕ × X) : Type 0 where
      conversions : List Conversion
      samples : List ℕ
      in_a_row : Row period n next conversions samples
      logged : log run.2 ≡ log x ++ conversions
      counted : run.0 ≡ length done + length samples
      kept : run.1 ≡ done ++ (samples ++ drop (length samples) rest)

    paced-due :
        (n count next : ℕ) (done : List ℕ) (x : X)
        → length done + suc n ≡ count
        → (0 < suc n → next ≤ time x)
        → 0 < n
        → next + period ≤ time (paced (length done) count next x)
    paced-due n count next done x e due left =
        let on_time = due (omega arith) in
        pace-time (length done + 1) count (next + period) (read_raw adc d x).1 (omega arith)
          (omega (arith, on_time, read_raw-time x, sample_period_us-le d.config))

    acquire-more :
        (n count next : ℕ) (done : List ℕ) (old : ℕ) (rest : List ℕ) (x : X) (v : ℕ)
        → (read_raw adc d x).0 ≡ some v
        → (0 < suc n → next ≤ time x)
        → let x' = paced (length done) count next x in
          Acquired n (next + period) (done ++ v ∷ []) rest x' (
            acquire adc d n
              (length (done ++ v ∷ []))
              count
              (next + period)
              ((done ++ v ∷ []) ++ rest)
              x')
          → Acquired (suc n) next done (old ∷ rest) x (
              acquire adc d n
                (length done + 1)
                count
                (next + period)
                (set (done ++ old ∷ rest) (length done) v)
                (paced (length done) count next x))
    acquire-more n count next done old rest x v read due later =
        let x' = paced (length done) count next x in
        let long = length-append done (v ∷ []) in
        let same : acquire adc d n (length done + 1) count (next + period)
              (set (done ++ old ∷ rest) (length done) v) x'
            ≡ acquire adc d n (length (done ++ v ∷ [])) count (next + period)
                ((done ++ v ∷ []) ++ rest) x' =
          ground (arith, set-append done old rest v, long, append_assoc done (v ∷ []) rest) in
        rw same (record {
          conversions = conversion x ∷ later.conversions;
          samples = v ∷ later.samples;
          in_a_row = more (due (omega arith)) read refl later.in_a_row;
          logged = ground (
            arith,
            later.logged,
            pace-log (length done + 1) count (next + period) (read_raw adc d x).1,
            read_raw-log x,
            append_assoc (log x) (conversion x ∷ []) later.conversions,
          );
          counted = omega (arith, later.counted, long);
          kept = ground (
            arith,
            later.kept,
            append_assoc done (v ∷ []) (later.samples ++ drop (length later.samples) rest),
          );
        })

    acquire-Acquired :
        (n count next : ℕ) (done rest : List ℕ) (x : X)
        → n ≤ length rest
        → length done + n ≡ count
        → (0 < n → next ≤ time x)
        → Acquired n next done rest x (acquire adc d n (length done) count next (done ++ rest) x)
    acquire-Acquired zero count next done rest x h e due =
        rw (acquire-zero (length done) count next (done ++ rest) x) (record {
          conversions = [];
          samples = [];
          in_a_row = full;
          logged = ground (arith, append-nil (log x));
          counted = omega arith;
          kept = refl;
        })
    acquire-Acquired (suc n) count next done [] x h e due = absurd (omega arith)
    acquire-Acquired (suc n) count next done (old ∷ rest) x h e due =
        elim (Option-cases (read_raw adc d x).0) [
          | inl missing ↦
              rw (acquire-none n (length done) count next (done ++ old ∷ rest) x missing) (record {
                conversions = conversion x ∷ [];
                samples = [];
                in_a_row = failed (due (omega arith)) missing;
                logged = read_raw-log x;
                counted = omega arith;
                kept = refl;
              })
          | inr (v, read) ↦
              rw (acquire-some n (length done) count next (done ++ old ∷ rest) x v read) (
                acquire-more n count next done old rest x v read due (
                  acquire-Acquired n count (next + period) (done ++ v ∷ []) rest
                    (paced (length done) count next x) (omega arith)
                    (omega (arith, e, length-append done (v ∷ [])))
                    (paced-due n count next done x e due)))
        ]

    -- With a buffer that holds `count` samples or more, `read_raw` makes at most `count`
    -- conversions: the first not before its first reading of the timer, each of the others not
    -- before its predecessor was due and a sample period more, and none after one that fails. It
    -- stores the samples of those that succeed in their order at the start of the buffer, leaves
    -- the rest of the buffer alone and returns their number. The functions do what `Contract` says.
    pub read_raw_into-Row :
        (count : ℕ) (buffer : List ℕ) (x : X)
        → count ≤ length buffer
        → let start = (adc.esp_timer_get_time x).0 in
          let (stored, buffer', x') = read_raw_into adc d (some buffer) count x in
          (cs : List Conversion) × (vs : List ℕ) × Row (sample_period_us d.config) count start cs vs
          × (log x' ≡ log x ++ cs)
          × (stored ≡ length vs)
          × (buffer' ≡ some (vs ++ drop (length vs) buffer))
    unfolding read_raw_into
    read_raw_into-Row count buffer x h =
        let (start, x₁) = adc.esp_timer_get_time x in
        let a =
          acquire-Acquired count count start [] buffer x₁ h (omega arith)
            (λ left. contract.timer_before x) in
        (
          a.conversions,
          a.samples,
          a.in_a_row,
          ground (arith, a.logged, contract.timer_log x),
          omega (arith, a.counted),
          ap some a.kept,
        )
