-- ===== src/Sampling/Laws.antt =====
-- Which records a buffer keeps that samples at random or systematically.
use databridge.Base.{
  ℕ, suc, ◌+◌, ◌-◌, ◌≤◌, ◌≡◌, ◌⊎◌, refl, ap, max, true, false, List, [], ◌∷◌, arith, ltb,
  Bool-cases, inl, inr,
}
use databridge.Base.Lists.{take}
use databridge.Value.{Value, Codec}
use databridge.Sampling.{
  Float, of_nat, less, trunc, ceil, round, SamplingMethod, random, systematic, SamplingBuffer, feed,
  sample, keeps_systematic, SamplingConfig, new_buffer,
}
use databridge.Sampling.Taking.{records_of, take-nil, minus_zero}

module _ (div : Float → Float → Float) (c : Codec) where
  -- Below the quota a record is kept and counted; from the quota on none is.
  record ObeysQuota (quota : ℕ) (P : SamplingBuffer → Type 0) : Type 0 where
    below :
        (b : SamplingBuffer) (v : Value) (d : Float)
        → P b
        → ltb b.kept quota ≡ true
        → ((feed div c b v d).1 ≡ true) × ((feed div c b v d).0.kept ≡ b.kept + 1)
    above :
        (b : SamplingBuffer) (v : Value) (d : Float)
        → P b
        → ltb b.kept quota ≡ false
        → ((feed div c b v d).1 ≡ false) × ((feed div c b v d).0.kept ≡ b.kept)
    keeps : (b : SamplingBuffer) (v : Value) (d : Float) → P b → P (feed div c b v d).0

  sample-quota :
      (quota : ℕ) (P : SamplingBuffer → Type 0)
      → ObeysQuota quota P
      → (b : SamplingBuffer) (fed : List (Value × Float)) → P b
      → sample div c b fed ≡ take (quota - b.kept) (records_of fed)
  unfolding sample
  sample-quota quota P q b [] h = take-nil (quota - b.kept)
  sample-quota quota P q b ((v, d) ∷ fed) h =
      let b' = (feed div c b v d).0 in
      let ih = sample-quota quota P q b' fed (q.keeps b v d h) in
      elim (Bool-cases (ltb b.kept quota)) [
        | inl e ↦
            let (kept, counted) = q.below b v d h e in
            let left : quota - b.kept ≡ suc (quota - b'.kept) = grind (arith, counted) in
            rw (kept, left) (ap (λ r. v ∷ r) ih)
        | inr e ↦
            let (dropped, counted) = q.above b v d h e in
            let left : quota - b'.kept ≡ 0 = grind (arith, counted) in
            let none_left : quota - b.kept ≡ 0 = grind arith in
            rw (dropped, none_left) (rw left at ih)
      ]

  abbrev IsSizeBuffer : Float → SamplingMethod → SamplingBuffer → Type 0
  IsSizeBuffer size m b = (b.method ≡ m) × (b.ratio_or_size ≡ size) × (less (of_nat 1) size ≡ true)

  random-ObeysQuota : (size : Float) → ObeysQuota (trunc size) (IsSizeBuffer size random)
  unfolding feed
  random-ObeysQuota size = record {
    below = λ b v d h e. ground arith;
    above = λ b v d h e. ground arith;
    keeps = λ b v d h. ground arith;
  }

  -- Below the quota a systematic buffer has kept all that it has seen.
  abbrev IsGreedy : Float → SamplingBuffer → Type 0
  IsGreedy size b =
      (b.method ≡ systematic)
      × (b.ratio_or_size ≡ size)
      × (less (of_nat 1) size ≡ true)
      × (ltb b.kept (trunc size) ≡ true → b.kept ≡ b.seen)

  abbrev step_at : Float → ℕ → ℕ
  step_at size n = max 1 (ceil (div (of_nat 1) (div size (of_nat (max n 1)))))

  -- One divided by a quotient of at least one is at most one, also after rounding.
  abbrev RoundsDown : Float → Type 0
  RoundsDown size =
      (n : ℕ) → 1 ≤ n → n ≤ trunc size → ceil (div (of_nat 1) (div size (of_nat n))) ≤ 1

  step_at-one :
      (size : Float) (n : ℕ) → RoundsDown size → 1 ≤ n → n ≤ trunc size → step_at size n ≡ 1
  step_at-one size n law h k =
      let same : max n 1 ≡ n = omega arith in let small = law n h k in rw same (omega arith)

  systematic_below :
      (size : Float) (b : SamplingBuffer)
      → RoundsDown size
      → b.ratio_or_size ≡ size
      → less (of_nat 1) size ≡ true
      → ltb b.kept (trunc size) ≡ true
      → b.kept ≡ b.seen
      → keeps_systematic div (record b { seen = b.seen + 1 }) ≡ true
  unfolding keeps_systematic
  systematic_below size b law hr hs e same =
      let one_step : step_at b.ratio_or_size (b.seen + 1) ≡ 1 =
        rw hr (step_at-one size (b.seen + 1) law (omega arith) (ground arith)) in
      ground arith

  systematic_above :
      (size : Float) (b : SamplingBuffer)
      → b.ratio_or_size ≡ size
      → less (of_nat 1) size ≡ true
      → ltb b.kept (trunc size) ≡ false
      → keeps_systematic div (record b { seen = b.seen + 1 }) ≡ false
  unfolding keeps_systematic
  systematic_above size b hr hs e = ground arith

  systematic-ObeysQuota : (size : Float) → RoundsDown size → ObeysQuota (trunc size) (IsGreedy size)
  unfolding feed
  systematic-ObeysQuota size law = record {
    below = λ b v d h e. ground (arith, systematic_below size b law h.1 h.2 e);
    above = λ b v d h e. ground (arith, systematic_above size b h.1 h.2 e);
    keeps = λ b v d h. elim (Bool-cases (ltb b.kept (trunc size))) [
      | inl e ↦ ground (arith, systematic_below size b law h.1 h.2 e)
      | inr e ↦ ground (arith, systematic_above size b h.1 h.2 e)
    ];
  }

  never_keeps :
      (b : SamplingBuffer) (v : Value) (d : Float)
      → b.method ≡ systematic
      → less (of_nat 1) b.ratio_or_size ≡ false
      → less b.ratio_or_size (of_nat 1) ≡ true
      → round (div (of_nat 1) b.ratio_or_size) ≤ 1
      → ((feed div c b v d).1 ≡ false)
        × ((feed div c b v d).0.method ≡ systematic)
        × ((feed div c b v d).0.ratio_or_size ≡ b.ratio_or_size)
  unfolding feed
  never_keeps b v d hm hs hl hr =
      let one_step : max 1 (round (div (of_nat 1) b.ratio_or_size)) ≡ 1 = omega arith in
      ground arith

-- Random sampling by an absolute count draws nothing: of the records it is fed, a new buffer keeps
-- those that come first, up to the count.
sample-random_size :
    (div : Float → Float → Float) (c : Codec) (config : SamplingConfig) (fed : List (Value × Float))
    → config.method ≡ random
    → less (of_nat 1) config.ratio_or_size ≡ true
    → sample div c (new_buffer div config) fed ≡ take (trunc config.ratio_or_size) (records_of fed)
unfolding new_buffer
sample-random_size div c config fed hm hs = rw minus_zero at (
    sample-quota div c (trunc config.ratio_or_size) (IsSizeBuffer div c config.ratio_or_size random)
      (random-ObeysQuota div c config.ratio_or_size) (new_buffer div config) fed (hm, refl, hs))

-- Systematic sampling by an absolute count keeps the records that come first too, and not every
-- N-th one, wherever one divided by a quotient of at least one rounds up to at most one.
sample-systematic_size :
    (div : Float → Float → Float) (c : Codec) (config : SamplingConfig) (fed : List (Value × Float))
    → config.method ≡ systematic
    → less (of_nat 1) config.ratio_or_size ≡ true
    → ((n : ℕ)
        → 1 ≤ n
        → n ≤ trunc config.ratio_or_size
        → ceil (div (of_nat 1) (div config.ratio_or_size (of_nat n))) ≤ 1)
    → sample div c (new_buffer div config) fed ≡ take (trunc config.ratio_or_size) (records_of fed)
unfolding new_buffer
sample-systematic_size div c config fed hm hs law = rw minus_zero at (
    sample-quota div c (trunc config.ratio_or_size) (IsGreedy div c config.ratio_or_size)
      (systematic-ObeysQuota div c config.ratio_or_size law) (new_buffer div config) fed
      (hm, refl, hs, λ e. refl))

-- Sampling by an absolute count, at random or systematically, draws nothing: of the records it is
-- fed, a new buffer keeps those that come first, up to the count, and not every N-th one. For the
-- systematic one, one divided by a quotient of at least one must round up to at most one.
pub sample_size :
    (div : Float → Float → Float) (c : Codec) (config : SamplingConfig) (fed : List (Value × Float))
    → (config.method ≡ random)
      ⊎ ((config.method ≡ systematic)
          × ((n : ℕ)
              → 1 ≤ n
              → n ≤ trunc config.ratio_or_size
              → ceil (div (of_nat 1) (div config.ratio_or_size (of_nat n))) ≤ 1))
    → less (of_nat 1) config.ratio_or_size ≡ true
    → sample div c (new_buffer div config) fed ≡ take (trunc config.ratio_or_size) (records_of fed)
sample_size div c config fed (inl method) hs = sample-random_size div c config fed method hs
sample_size div c config fed (inr (method, law)) hs =
    sample-systematic_size div c config fed method hs law

-- Systematic sampling by a ratio below one whose reciprocal rounds to one or less keeps nothing.
sample-systematic_empty :
    (div : Float → Float → Float) (c : Codec) (b : SamplingBuffer) (fed : List (Value × Float))
    → b.method ≡ systematic
    → less (of_nat 1) b.ratio_or_size ≡ false
    → less b.ratio_or_size (of_nat 1) ≡ true
    → round (div (of_nat 1) b.ratio_or_size) ≤ 1
    → sample div c b fed ≡ []
unfolding sample
sample-systematic_empty div c b [] hm hs hl hr = refl
sample-systematic_empty div c b ((v, d) ∷ fed) hm hs hl hr =
    let (dropped, hm', same) = never_keeps div c b v d hm hs hl hr in
    rw dropped (
      sample-systematic_empty div c (feed div c b v d).0 fed hm' (rw same hs) (rw same hl)
        (rw same hr))
