-- ===== src/Adapters/S3/Bounds.antt =====
-- adapters.py: how much of a bucket the sample of the S3 adapter reads.
use databridge.Base.{
  ℕ, zero, suc, ◌+◌, ◌≤◌, ◌≡◌, true, not, ◌||◌, List, [], ◌∷◌, ◌++◌, String, ltb, arith, Bool-cases,
  ltb→lt, inl, inr,
}
use databridge.Base.Lists.{length, any_of, All, length-append}
use databridge.Sink.{Try, returns, raises}
use databridge.Adapters.S3.{
  sample_max_pages, sample_keys_per_format, has_format, Listing, Samples, no_samples, add_key,
  add_keys, is_full, sample_loop, sample_bucket,
}

-- The keys of a format are not more than the limit, and all of them end in it.
abbrev pub IsSample : String × List String → Type 0
IsSample (fmt, keys) =
    (length keys ≤ sample_keys_per_format) × All (λ key. has_format fmt key ≡ true) keys

All-snoc {ℓ κ} :
    {A : Type ℓ} (P : A → Type κ) (xs : List A) (x : A) → All P xs → P x → All P (xs ++ x ∷ [])
All-snoc P [] x h k = (k, tt)
All-snoc P (y ∷ ys) x (h, hs) k = (h, All-snoc P ys x hs k)

add_key-All :
    (key : String) (by_fmt : Samples) → All IsSample by_fmt → All IsSample (add_key key by_fmt)
unfolding add_key
add_key-All key [] h = tt
add_key-All key ((fmt, keys) ∷ rest) ((size, ext), hs) =
    elim (Bool-cases (ltb (length keys) sample_keys_per_format)) [
      | inl room ↦ elim (Bool-cases (has_format fmt key)) [
        | inl e ↦
            rw (room, e)
              (
                (
                  omega (arith, length-append keys (key ∷ []), ltb→lt (length keys) 50 room),
                  All-snoc (λ k. has_format fmt k ≡ true) keys key ext e,
                ),
                hs,
              )
        | inr e ↦ rw (room, e) ((size, ext), add_key-All key rest hs)
      ]
      | inr full ↦ rw full ((size, ext), add_key-All key rest hs)
    ]

add_keys-All :
    (keys : List String) (by_fmt : Samples)
    → All IsSample by_fmt
    → All IsSample (add_keys keys by_fmt)
unfolding add_keys
add_keys-All [] by_fmt h = h
add_keys-All (key ∷ keys) by_fmt h =
    add_keys-All keys (add_key key by_fmt) (add_key-All key by_fmt h)

sample_loop-bounds :
    (n : ℕ) (pages : List (Try Listing)) (by_fmt : Samples) (made : ℕ)
    → All IsSample by_fmt
    → All IsSample (sample_loop n pages by_fmt made).0
      × ((sample_loop n pages by_fmt made).1 ≤ made + n)
unfolding sample_loop
sample_loop-bounds zero pages by_fmt made h = (h, omega arith)
sample_loop-bounds (suc n) [] by_fmt made h = (h, omega arith)
sample_loop-bounds (suc n) (raises e ∷ pages) by_fmt made h = (h, omega arith)
sample_loop-bounds (suc n) (returns page ∷ pages) by_fmt made h =
    let by_fmt' = add_keys page.contents by_fmt in
    let valid = add_keys-All page.contents by_fmt h in
    let (later, calls) = sample_loop-bounds n pages by_fmt' (suc made) valid in
    elim (Bool-cases (not page.is_truncated || any_of is_full by_fmt')) [
      | inl e ↦ rw e (valid, omega arith)
      | inr e ↦ rw e (later, omega (arith, calls))
    ]

-- Whatever a bucket holds, its sample has at most 50 keys of each format, each of which ends in the
-- format's extension, and takes at most 10 requests.
pub sample_bucket_bounds :
    (pages : List (Try Listing))
    → All IsSample (sample_bucket pages).0 × ((sample_bucket pages).1 ≤ sample_max_pages)
unfolding sample_bucket no_samples
sample_bucket_bounds pages = sample_loop-bounds sample_max_pages pages no_samples 0 none_yet
  where
    none_yet : All IsSample no_samples
    none_yet = omega arith
