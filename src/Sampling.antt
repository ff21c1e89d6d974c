-- ===== src/Sampling.antt =====
-- export/sampling.py: which records of a job are kept.
pub mod Taking
pub mod Laws
pub mod Stratified
use databridge.Base.{
  ℕ, zero, suc, ◌+◌, ◌-◌, ◌*◌, ◌/◌, ◌%◌, max, Bool, true, false, ◌&&◌, Option, none, some, List, [],
  ◌∷◌, String, ltb, leb, ◌==◌, str_eq, or_else, if◌then◌else◌,
}
use databridge.Value.{Value, Codec, text, dict, get}

-- A finite float that is not negative, as the exact fraction that it is. Division rounds: it is
-- the parameter `div` below.
pub record Float : Type 0 where
  pub numerator : ℕ
  pub denominator : ℕ

unfoldable pub of_nat : ℕ → Float
of_nat n = record { numerator = n; denominator = 1 }

unfoldable pub less : Float → Float → Bool
less a b = ltb (a.numerator * b.denominator) (b.numerator * a.denominator)

-- `int(a)`
unfoldable pub trunc : Float → ℕ
trunc a = a.numerator / a.denominator

-- `math.ceil(a)`
unfoldable pub ceil : Float → ℕ
ceil a = (a.numerator + (a.denominator - 1)) / a.denominator

-- `round(a)`, which takes a half to the even side
unfoldable pub round : Float → ℕ
round a =
    let q : ℕ = a.numerator / a.denominator in
    let r : ℕ = a.numerator % a.denominator in
    if ltb (r * 2) a.denominator then q else if ltb a.denominator (r * 2) then q + 1 else q + q % 2

pub data SamplingMethod : Type 0 where
  random systematic stratified : SamplingMethod

pub record SamplingConfig : Type 0 where
  pub method : SamplingMethod
  pub target_column : Option String
  pub ratio_or_size : Float
  pub max_items : Option ℕ

pub record SamplingBuffer : Type 0 where
  pub method : SamplingMethod
  pub target_column : Option String
  pub ratio_or_size : Float
  pub seen : ℕ
  pub kept : ℕ
  pub sys_step : Float
  pub sys_next : Float
  pub strat_counts : String → ℕ
  pub strat_kept : String → ℕ

-- `d[key] += 1` of a `defaultdict(int)`
abbrev pub bump : (String → ℕ) → String → String → ℕ
bump d key j = if str_eq key j then d j + 1 else d j

-- `record.get(column, "_unknown")`
abbrev column_value : Value → String → Value
column_value (dict fs) column = or_else (get column fs) (text "_unknown")
column_value v column = text "_unknown"

-- The group of a record: the text of its target column, or one group for all.
abbrev pub group_by : Codec → Value → Option String → String
group_by c record_ none = "_all"
group_by c record_ (some column) =
    if str_eq column "" then "_all" else c.show (column_value record_ column)

module _ (div : Float → Float → Float) where
  abbrev one : Float
  one = of_nat 1

  -- `SamplingBuffer.__init__`
  unfoldable pub new_buffer : SamplingConfig → SamplingBuffer
  new_buffer config = record {
    method = config.method;
    target_column = config.target_column;
    ratio_or_size = config.ratio_or_size;
    seen = 0;
    kept = 0;
    sys_step = if less config.ratio_or_size one then div one config.ratio_or_size else one;
    sys_next = of_nat 0;
    strat_counts = λ k. 0;
    strat_kept = λ k. 0;
  }

  -- `key` of `feed` under stratified sampling
  unfoldable pub group_key : Codec → SamplingBuffer → Value → String
  group_key c b record_ = group_by c record_ b.target_column

  -- The ratio is read as an absolute count.
  abbrev is_size : SamplingBuffer → Bool
  is_size b = less one b.ratio_or_size

  -- The decision for one record; `b.seen` counts it already, and `draw` is what `random.random()`
  -- returns if the branch calls it.
  unfoldable pub keeps_random : SamplingBuffer → Float → Bool
  keeps_random b draw =
      if is_size b then ltb b.kept (trunc b.ratio_or_size) else less draw b.ratio_or_size

  unfoldable pub keeps_systematic : SamplingBuffer → Bool
  keeps_systematic b =
      if is_size b
      then (let step : ℕ = max 1 (ceil (div one (div b.ratio_or_size (of_nat (max b.seen 1))))) in
          ((b.seen - 1) % step == 0) && ltb b.kept (trunc b.ratio_or_size))
      else elim (less b.ratio_or_size one) [
        | false ↦ true
        | true ↦ (let step : ℕ = max 1 (round (div one b.ratio_or_size)) in b.seen % step == 1)
      ]

  unfoldable pub keeps_stratified : SamplingBuffer → String → Float → Bool
  keeps_stratified b key draw =
      if is_size b
      then ltb (b.strat_kept key) (trunc b.ratio_or_size)
      else less draw b.ratio_or_size

  abbrev count_kept : SamplingBuffer → Bool → SamplingBuffer × Bool
  count_kept b true = (record b { kept = b.kept + 1 }, true)
  count_kept b false = (b, false)

  abbrev count_group : SamplingBuffer → String → Bool → SamplingBuffer × Bool
  count_group b key true =
      (record b { kept = b.kept + 1; strat_kept = bump b.strat_kept key }, true)
  count_group b key false = (b, false)

  abbrev feed_by : Codec → SamplingMethod → SamplingBuffer → Value → Float → SamplingBuffer × Bool
  feed_by c random b record_ draw = count_kept b (keeps_random b draw)
  feed_by c systematic b record_ draw = count_kept b (keeps_systematic b)
  feed_by c stratified b record_ draw =
      let key : String = group_key c b record_ in
      let b' : SamplingBuffer = record b { strat_counts = bump b.strat_counts key } in
      count_group b' key (keeps_stratified b' key draw)

  -- `SamplingBuffer.feed`
  unfoldable pub feed : Codec → SamplingBuffer → Value → Float → SamplingBuffer × Bool
  unfolding keeps_random keeps_systematic keeps_stratified group_key
  feed c b record_ draw = feed_by c b.method (record b { seen = b.seen + 1 }) record_ draw

  -- The worker's loop over the records, as far as it is about sampling: those that `feed` keeps.
  unfoldable pub sample : Codec → SamplingBuffer → List (Value × Float) → List Value
  sample c b [] = []
  sample c b ((record_, draw) ∷ rest) =
      let (b', keep) = feed c b record_ draw in
      let kept_rest : List Value = sample c b' rest in
      if keep then record_ ∷ kept_rest else kept_rest
