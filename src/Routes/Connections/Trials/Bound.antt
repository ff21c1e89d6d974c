-- ===== src/Routes/Connections/Trials/Bound.antt =====
-- How many URLs the test of URL fields asks for.
use databridge.Base.{
  ℕ, zero, suc, ◌*◌, ◌≤◌, ◌≡◌, sym, none, List, [], ◌∷◌, map, String, arith, Option-cases, inl, inr,
}
use databridge.Base.Lists.{length, length-append, length-map}
use databridge.Value.{Value}
use databridge.Sink.{Try}
use databridge.Routes.{ok}
use databridge.Routes.Connections.Explore.{Reply, answers, fails, not_implemented, Source}
use databridge.Routes.Connections.Trials.{
  test_url, asset_results, url_at, urls_of, url_samples, UrlTest, test_asset_resolution,
}

length-urls_of : (n : ℕ) (field : String) (vs : List Value) → length (urls_of n field vs) ≤ n
length-urls_of zero field vs = omega arith
length-urls_of (suc n) field [] = omega arith
length-urls_of (suc n) field (v ∷ vs) = elim (Option-cases (url_at field v)) [
  | inl e ↦ rw e (length-urls_of (suc n) field vs)
  | inr (url, e) ↦ rw e (omega (arith, length-urls_of n field vs))
]

length-url_samples :
    (fields : List String) (records : List Value)
    → length (url_samples fields records) ≤ 2 * length fields
unfolding url_samples
length-url_samples [] records = omega arith
length-url_samples (field ∷ fields) records = omega (
  arith,
  length-append (urls_of 2 field records) (url_samples fields records),
  length-urls_of 2 field records,
  length-url_samples fields records,
)

-- The test of URL fields asks for at most two URLs of each field.
test_asset_resolution_bound :
    (head : String → Try ℕ) (fields : List String) (url_prefix : String) (source : Source)
    (tests : List UrlTest)
    → test_asset_resolution head fields url_prefix source ≡ ok tests
    → length tests ≤ 2 * length fields
unfolding test_asset_resolution
test_asset_resolution_bound head fields url_prefix source tests h =
    by_reply (source.preview "" none none 5 none) h
  where
    by_reply :
        (r : Reply (List Value))
        → asset_results head fields url_prefix r ≡ ok tests
        → length tests ≤ 2 * length fields
    by_reply (answers records) e =
        let same : map (test_url head url_prefix) (url_samples fields records) ≡ tests = cc in
        rw (sym same, length-map) (length-url_samples fields records)
    by_reply (fails err) e = cc
    by_reply not_implemented e = cc
