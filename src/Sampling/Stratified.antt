-- ===== src/Sampling/Stratified.antt =====
-- Which records a buffer keeps that samples by groups.
use mathlib.Core.Path.{subst}
use databridge.Base.{
  ◌+◌, ◌-◌, ◌≡◌, refl, ap, sym, true, false, Option, List, [], ◌∷◌, String, arith, str_eq, eq_iff,
  ltb, Bool-cases, inl, inr, if◌then◌else◌,
}
use databridge.Base.Lists.{take, keep_if}
use databridge.Value.{Value, Codec}
use databridge.Sampling.{
  Float, of_nat, less, trunc, stratified, SamplingBuffer, feed, sample, group_by, bump,
  SamplingConfig, new_buffer,
}
use databridge.Sampling.Taking.{
  records_of, take-nil, minus_zero, keep_take_in, keep_take_out, keep_take_full, keep_take_skip,
}

module _ (div : Float → Float → Float) (c : Codec) where
  stratified_step :
      (size : Float) (t : Option String) (k : String) (b : SamplingBuffer) (v : Value) (d : Float)
      → b.method ≡ stratified
      → b.target_column ≡ t
      → b.ratio_or_size ≡ size
      → less (of_nat 1) size ≡ true
      → ((feed div c b v d).1 ≡ ltb (b.strat_kept (group_by c v t)) (trunc size))
        × ((feed div c b v d).0.strat_kept k ≡ (
            if ltb (b.strat_kept (group_by c v t)) (trunc size)
            then bump b.strat_kept (group_by c v t) k
            else b.strat_kept k))
        × ((feed div c b v d).0.method ≡ stratified)
        × ((feed div c b v d).0.target_column ≡ t)
        × ((feed div c b v d).0.ratio_or_size ≡ size)
  unfolding feed
  stratified_step size t k b v d hm ht hr hs = ground arith

  stratified_groups :
      (size : Float) (t : Option String) (k : String) (b : SamplingBuffer)
      (fed : List (Value × Float))
      → b.method ≡ stratified
      → b.target_column ≡ t
      → b.ratio_or_size ≡ size
      → less (of_nat 1) size ≡ true
      → keep_if (λ v. str_eq (group_by c v t) k) (sample div c b fed)
        ≡ take
            (trunc size - b.strat_kept k)
            (keep_if (λ v. str_eq (group_by c v t) k) (records_of fed))
  unfolding sample
  stratified_groups size t k b [] hm ht hr hs = take-nil (trunc size - b.strat_kept k)
  stratified_groups size t k b ((v, d) ∷ fed) hm ht hr hs =
      let (dec, upd, hm', ht', hr') = stratified_step size t k b v d hm ht hr hs in
      let b' = (feed div c b v d).0 in
      let ih = stratified_groups size t k b' fed hm' ht' hr' hs in
      let group = group_by c v t in
      let p = λ (w : Value). str_eq (group_by c w t) k in
      let xs = sample div c b' fed in
      let ys = records_of fed in
      elim (Bool-cases (ltb (b.strat_kept group) (trunc size))) [
        | inl e ↦ elim (Bool-cases (str_eq group k)) [
          | inl g ↦
              let room =
                subst (λ j. ltb (b.strat_kept j) (trunc size) ≡ true) ((eq_iff _ k).0 g) e in
              let counted : b'.strat_kept k ≡ b.strat_kept k + 1 = rw (e, g) at upd in
              rw (dec, e) (keep_take_in p v xs ys g (grind (arith, counted)) ih)
          | inr g ↦
              let same : b'.strat_kept k ≡ b.strat_kept k = rw (e, g) at upd in
              rw (dec, e) (keep_take_out p v xs ys g (ap (λ n. trunc size - n) (sym same)) ih)
        ]
        | inr e ↦
            let same : b'.strat_kept k ≡ b.strat_kept k = rw e at upd in
            elim (Bool-cases (str_eq group k)) [
              | inl g ↦
                  let full =
                    subst (λ j. ltb (b.strat_kept j) (trunc size) ≡ false) ((eq_iff _ k).0 g) e in
                  let spent : trunc size - b.strat_kept k ≡ 0 = grind arith in
                  rw (dec, e) (keep_take_full p v xs ys spent (rw same spent) ih)
              | inr g ↦
                  rw (dec, e) (keep_take_skip p v xs ys g (ap (λ n. trunc size - n) (sym same)) ih)
            ]
      ]

-- Stratified sampling by an absolute count keeps, of each group, the records that come first in
-- that group, up to the count.
pub sample-stratified_size :
    (div : Float → Float → Float) (c : Codec) (config : SamplingConfig) (k : String)
    (fed : List (Value × Float))
    → config.method ≡ stratified
    → less (of_nat 1) config.ratio_or_size ≡ true
    → keep_if
        (λ v. str_eq (group_by c v config.target_column) k)
        (sample div c (new_buffer div config) fed)
      ≡ take
          (trunc config.ratio_or_size)
          (keep_if (λ v. str_eq (group_by c v config.target_column) k) (records_of fed))
unfolding new_buffer
sample-stratified_size div c config k fed hm hs = rw minus_zero at (
    stratified_groups div c config.ratio_or_size config.target_column k (new_buffer div config) fed
      hm refl refl hs)
