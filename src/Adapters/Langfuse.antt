-- ===== src/Adapters/Langfuse.antt =====
-- adapters.py: `LangfuseConnectionAdapter`, the parameters of its requests.
use native.Mathlib.Nat.{mul-div_cancel}
use databridge.Base.{
  ℕ, ◌+◌, ◌-◌, ◌*◌, ◌/◌, ◌<◌, ◌≡◌, refl, Bool, false, ◌||◌, Option, none, some, List, [], ◌∷◌, ◌++◌,
  String, str_eq, ◌==◌, arith, if◌then◌else◌,
}
use databridge.Base.Text.{is_empty, concat}
use databridge.Value.{Codec, Entries}
use databridge.Jobs.{Instant}
use databridge.Adapters.Sql.{Format, cred, text_or_else}

abbrev in_texts : String → List String → Bool
in_texts s [] = false
in_texts s (t ∷ ts) = str_eq s t || in_texts s ts

-- `_SORTABLE_FIELDS`
abbrev sortable_fields : List String
sortable_fields =
    "id" ∷ "timestamp" ∷ "name" ∷ "userId" ∷ "release" ∷ "version" ∷ "public" ∷ "bookmarked"
    ∷ "sessionId" ∷ []

unfoldable pub order_field : Option String → String
order_field none = "timestamp"
order_field (some sort_by) = if in_texts sort_by sortable_fields then sort_by else "timestamp"

abbrev Params : Type 0
Params = List (String × String)

-- `_langfuse_auth`
unfoldable pub langfuse_auth : Codec → Entries → Option (String × String)
langfuse_auth c creds =
    let public_key =
      text_or_else (cred c "public_key" "" creds) (cred c "access_key_id" "" creds) in
    let secret_key =
      text_or_else (cred c "secret_key" "" creds) (cred c "secret_access_key" "" creds) in
    if is_empty public_key then none else some (public_key, secret_key)

abbrev when_given : String → Option String → Params
when_given key none = []
when_given key (some v) = (key, v) ∷ []

abbrev printed_at : Format → Option Instant → Option String
printed_at f none = none
printed_at f (some t) = some (f.iso t)

-- The page of `fetch_page`.
unfoldable pub page_number : ℕ → ℕ → ℕ
page_number limit offset = if limit == 0 then 1 else offset / limit + 1

module _ (f : Format) where
  unfoldable pub filters : String → Option Instant → Option Instant → Params
  filters query start end =
      (if is_empty query then [] else ("name", query) ∷ [])
      ++ (when_given "fromTimestamp" (printed_at f start)
          ++ when_given "toTimestamp" (printed_at f end))

  -- `preview`
  unfoldable pub preview_params :
      String → Option Instant → Option Instant → ℕ → Option String → Params
  preview_params query start end limit sort_by =
      ("limit", f.decimal limit)
      ∷ ("orderBy", concat (order_field sort_by) ".desc")
      ∷ filters query start end

  -- `count`
  unfoldable pub count_params : String → Option Instant → Option Instant → Params
  count_params query start end = ("limit", f.decimal 1) ∷ filters query start end

  -- `fetch_page`
  unfoldable pub page_params : String → Option Instant → Option Instant → ℕ → ℕ → Params
  page_params query start end limit offset =
      ("limit", f.decimal limit)
      ∷ ("page", f.decimal (page_number limit offset))
      ∷ filters query start end

-- The pages of an export, which begin at the multiples of the limit, are those that the service
-- numbers from 1: the page that is asked for at the offset `k * limit` is number `k + 1`, and the
-- pages before it hold as many records as the offset says.
page_number-offset :
    (limit k : ℕ)
    → 0 < limit
    → (page_number limit (k * limit) ≡ k + 1)
      × ((page_number limit (k * limit) - 1) * limit ≡ k * limit)
unfolding page_number
page_number-offset limit k h =
    let nonzero : (limit == 0) ≡ false = ground arith in
    let back : k + 1 - 1 ≡ k = omega arith in rw (nonzero, mul-div_cancel k h, back) (refl, refl)
