-- ===== src/Tests/Samples.antt =====
-- Sampling on a few records, with exact division for the float's.
use databridge.Base.{
  inr, ℕ, zero, suc, ◌*◌, ◌≤◌, ◌≡◌, refl, none, some, List, [], ◌∷◌, arith, str_eq,
}
use databridge.Base.Lists.{take, keep_if}
use databridge.Value.{Value, Codec, text, dict, done, entry}
use databridge.Sampling.{
  Float, of_nat, less, trunc, ceil, SamplingMethod, systematic, stratified, SamplingConfig,
  new_buffer, sample, group_by,
}
use databridge.Sampling.Taking.{records_of}
use databridge.Sampling.Laws.{sample_size}
use databridge.Sampling.Stratified.{sample-stratified_size}

abbrev divide : Float → Float → Float
divide a b = record {
  numerator = a.numerator * b.denominator;
  denominator = a.denominator * b.numerator;
}

abbrev codec : Codec
codec = record { loads = λ s. none; dumps = λ v. ""; show = λ v. "group"; sha256_hex = λ s. s }

abbrev two : Float
two = record { numerator = 2; denominator = 1 }

abbrev four_fifths : Float
four_fifths = record { numerator = 4; denominator = 5 }

abbrev config : SamplingMethod → Float → SamplingConfig
config m r = record {
  method = m;
  target_column = some "region";
  ratio_or_size = r;
  max_items = none;
}

abbrev fed : List (Value × Float)
fed =
    (dict (entry "region" (text "eu") done), two)
    ∷ (dict (entry "region" (text "us") done), two)
    ∷ (dict done, two)
    ∷ []

rounds_down : (n : ℕ) → 1 ≤ n → n ≤ trunc two → ceil (divide (of_nat 1) (divide two (of_nat n))) ≤ 1
unfolding ceil trunc of_nat
rounds_down zero h k = absurd (omega arith)
rounds_down (suc zero) h k = omega arith
rounds_down (suc (suc zero)) h k = omega arith
rounds_down (suc (suc (suc n))) h k = absurd (omega arith)

sample-stratified_size_example :
    keep_if
      (λ v. str_eq (group_by codec v (some "region")) "group")
      (sample divide codec (new_buffer divide (config stratified two)) fed)
    ≡ take
        (trunc two)
        (keep_if (λ v. str_eq (group_by codec v (some "region")) "group") (records_of fed))
unfolding less of_nat
sample-stratified_size_example =
    sample-stratified_size divide codec (config stratified two) "group" fed refl refl

sample_size_example :
    sample divide codec (new_buffer divide (config systematic two)) fed
    ≡ take (trunc two) (records_of fed)
unfolding less of_nat
sample_size_example =
    sample_size divide codec (config systematic two) fed (inr (refl, rounds_down)) refl
