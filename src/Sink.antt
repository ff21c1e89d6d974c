-- ===== src/Sink.antt =====
-- sinks/base.py: the interface `BaseSink`, for a sink whose state is of type `S`.
pub mod LocalJsonl
use databridge.Base.{ℕ, ◌≡◌, Bool, true, Option, none, List, [], ◌∷◌, ◌++◌, String}
use databridge.Value.{Value}

-- What an awaited call does: it returns, or raises an exception with a text.
pub data Try {ℓ} (A : Type ℓ) : Type ℓ where
  returns : A → Try A
  raises : String → Try A

pub record Sink (S : Type 0) : Type 0 where
  pub set_actor : String → String → S → S
  pub ping : S → S × Try (Unit {0})
  pub create_dataset : String → S → S × Try (Unit {0})
  pub post_file : String → Value → Option String → S → S × Try String
  pub finalise : S → S × Try (Unit {0})
  pub external_id : S → Option String
  pub dataset_id : S → String → Option String
  pub records_skipped : S → ℕ

-- A sink on which a dataset can be ready: then it takes each record of some kind, appends what it
-- makes of the record to what the dataset holds, and stays ready.
pub record Recording (S C : Type 0) (sink : Sink S) (dataset : String) : Type 0 where
  pub contents : S → List C
  pub line : Value → C
  pub ready : S → Bool
  pub takes : Value → Bool
  pub records :
      (v : Value) (s : S)
      → ready s ≡ true
      → takes v ≡ true
      → (ref : String) × (s' : S) × (sink.post_file dataset v none s ≡ (s', returns ref))
        × (contents s' ≡ contents s ++ line v ∷ [])
        × (ready s' ≡ true)
