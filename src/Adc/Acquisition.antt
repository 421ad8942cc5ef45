-- ===== src/Adc/Acquisition.antt =====
-- What the acquisition loop stores.
use esp32_dust_extraction.Common.{
  ℕ, zero, suc, ◌+◌, ◌≤◌, ◌≡◌, refl, none, some, List, [], ◌∷◌, ◌++◌, length, drop, set, set-append,
  length-append, append_assoc, arith, Option-cases, inl, inr,
}
use esp32_dust_extraction.Adc.{AdcSampler, acquire, read_raw_into}

module _ {S : Type 0} (sampler : AdcSampler S) where
  -- Up to `n` conversions, one after the other, until one fails.
  unfoldable pub readings : ℕ → S → List ℕ × S
  readings zero s = ([], s)
  readings (suc n) s =
      let (sample, s') = sampler.read_raw s in
      elim sample [ none ↦ ([], s') | some v ↦ let (vs, s'') = readings n s' in (v ∷ vs, s'') ]

  readings-zero : (s : S) → readings zero s ≡ ([], s)
  unfolding readings
  readings-zero s = refl

  length-readings : (n : ℕ) (s : S) → length (readings n s).0 ≤ n
  unfolding readings
  length-readings zero s = omega arith
  length-readings (suc n) s = ground (arith, length-readings n (sampler.read_raw s).1)

  acquire-zero :
      (stored : ℕ) (buffer : List ℕ) (s : S)
      → acquire sampler zero stored buffer s ≡ (stored, buffer, s)
  unfolding acquire
  acquire-zero stored buffer s = refl

  acquire-none :
      (n stored : ℕ) (buffer : List ℕ) (s : S)
      → (sampler.read_raw s).0 ≡ none
      → acquire sampler (suc n) stored buffer s ≡ (stored, buffer, (sampler.read_raw s).1)
  unfolding acquire
  acquire-none n stored buffer s e = rw (e, acquire)

  acquire-some :
      (n stored : ℕ) (buffer : List ℕ) (s : S) (v : ℕ)
      → (sampler.read_raw s).0 ≡ some v
      → acquire sampler (suc n) stored buffer s
        ≡ acquire sampler n (stored + 1) (set buffer stored v) (sampler.read_raw s).1
  unfolding acquire
  acquire-some n stored buffer s v e = rw (e, acquire)

  readings-none :
      (n : ℕ) (s : S)
      → (sampler.read_raw s).0 ≡ none
      → readings (suc n) s ≡ ([], (sampler.read_raw s).1)
  unfolding readings
  readings-none n s e = rw (e, readings)

  readings-some :
      (n : ℕ) (s : S) (v : ℕ)
      → (sampler.read_raw s).0 ≡ some v
      → readings (suc n) s
        ≡ (v ∷ (readings n (sampler.read_raw s).1).0, (readings n (sampler.read_raw s).1).1)
  unfolding readings
  readings-some n s v e = rw (e, readings)

  acquire-readings :
      (n : ℕ) (done rest : List ℕ) (s : S)
      → n ≤ length rest
      → let (vs, s') = readings n s in
        acquire sampler n (length done) (done ++ rest) s
        ≡ (length done + length vs, done ++ (vs ++ drop (length vs) rest), s')
  acquire-readings zero done rest s h =
      ground (arith, acquire-zero (length done) (done ++ rest) s, readings-zero s)
  acquire-readings (suc n) done [] s h = absurd (omega arith)
  acquire-readings (suc n) done (old ∷ rest) s h = elim (Option-cases (sampler.read_raw s).0) [
    | inl failed ↦
        rw (acquire-none n (length done) (done ++ old ∷ rest) s failed, readings-none n s failed)
          (ground arith)
    | inr (v, read) ↦
        let s' = (sampler.read_raw s).1 in
        let vs = (readings n s').0 in
        rw
          (
            acquire-some n (length done) (done ++ old ∷ rest) s v read,
            readings-some n s v read,
            set-append done old rest v,
          )
          (ground (
            arith,
            acquire-readings n (done ++ v ∷ []) rest s',
            length-append done (v ∷ []),
            append_assoc done (v ∷ []) rest,
            append_assoc done (v ∷ []) (vs ++ drop (length vs) rest),
          ))
  ]

  -- With a buffer that holds `count` samples or more, the loop stores the conversions that succeed
  -- before the first failure, at most `count`, at the start of the buffer and in their order, leaves
  -- the rest of the buffer alone, returns their number, and makes no further conversion.
  pub read_raw_into_lem :
      (count : ℕ) (buffer : List ℕ) (s : S)
      → count ≤ length buffer
      → let (vs, s') = readings count s in
        (read_raw_into sampler (some buffer) count s
          ≡ (length vs, some (vs ++ drop (length vs) buffer), s'))
        × (length vs ≤ count)
  unfolding read_raw_into
  read_raw_into_lem count buffer s h =
      (ground (arith, acquire-readings count [] buffer s h), length-readings count s)
