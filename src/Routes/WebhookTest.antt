-- ===== src/Routes/WebhookTest.antt =====
-- routes/export_jobs.py: the test of a webhook, which posts to a URL of the caller.
use databridge.Base.{
  ℕ, ◌≡◌, refl, ap, eq_iff, Bool, true, false, not, ◌&&◌, ◌||◌, Option, none, some, List, [], ◌∷◌,
  String, str_eq, leb, is_some, if◌then◌else◌, Option-cases, inl, inr, ◌⊎◌,
}
use databridge.Base.Lists.{any_of, All}
use databridge.Base.Text.{is_empty, after_prefix}
use databridge.Value.{Value, Codec, text, dict, Entries, done, entry}
use databridge.Config.{Settings}
use databridge.Sink.{Try, returns, raises}
use databridge.Routes.{HttpResult, ok, raise}
use databridge.Webhook.{render_payload}

pub record WebhookTestRequest : Type 0 where
  pub url : String
  pub template : Option String

-- `urlparse` of the standard library, the scheme of a URL; `none` is a ValueError.
abbrev Schemes : Type 0
Schemes = String → Option String

abbrev is_allowed : List String → String → Bool
is_allowed prefixes url =
    not (any_of (λ p. true) prefixes) || any_of (λ p. is_some (after_prefix p url)) prefixes

abbrev refused : Bool → Bool → Bool → Option ℕ
refused http https allowed =
    if not (http || https) then some 400 else if not allowed then some 400 else none

-- The code of the exception that `_validate_webhook_url` raises, if it does.
abbrev checked : Option String → String → List String → Option ℕ
checked none url prefixes = some 500
checked (some scheme) url prefixes =
    refused (str_eq scheme "http") (str_eq scheme "https") (is_allowed prefixes url)

unfoldable pub validate_webhook_url : Schemes → String → List String → Option ℕ
validate_webhook_url schemes url prefixes = checked (schemes url) url prefixes

abbrev own_text : String → Entries → Entries
own_text name rest = entry name (text name) rest

-- `_ctx`
abbrev test_context : Entries
test_context = own_text "job_id" (
    own_text "status" (
      own_text "org_id" (
        own_text "destination_dataset" (
          own_text "records_processed"
            (own_text "records_skipped" (own_text "error" (own_text "download_url" done)))))))

abbrev default_payload : Value
default_payload =
    dict (entry "status" (text "test") (entry "message" (text "Webhook test from DataBridge") done))

abbrev test_payload : Codec → Option String → Value
test_payload c none = default_payload
test_payload c (some template) =
    if is_empty template then default_payload else render_payload c (some template) test_context

-- `r.raise_for_status()`, which accepts the codes from 200 to 299
abbrev delivered : Try ℕ → HttpResult (Unit {0})
delivered (raises e) = raise 502
delivered (returns status) = if leb 200 status && leb status 299 then ok tt else raise 502

abbrev Post : Type 0
Post = String × Value

abbrev send_unless : Option ℕ → Post → Try ℕ → HttpResult (Unit {0}) × List Post
send_unless (some code) post answer = (raise code, [])
send_unless none post answer = (delivered answer, post ∷ [])

-- `POST /export-jobs/test-webhook`: the answer, and what is posted; `answer` is what the post does.
unfoldable pub test_webhook_endpoint :
    Schemes
    → Codec
    → Settings
    → (String → Value → Try ℕ)
    → WebhookTestRequest
    → HttpResult (Unit {0}) × List Post
test_webhook_endpoint schemes c settings answer body =
    let payload = test_payload c body.template in
    send_unless (validate_webhook_url schemes body.url settings.export.webhook_allowed_url_prefixes)
      (body.url, payload) (answer body.url payload)

-- A post to the URL of the request, which has one of the two schemes and an allowed prefix.
abbrev pub IsAllowed : Schemes → Settings → WebhookTestRequest → Post → Type 0
IsAllowed schemes settings body (url, payload) =
    (url ≡ body.url)
    × ((schemes url ≡ some "http") ⊎ (schemes url ≡ some "https"))
    × (is_allowed settings.export.webhook_allowed_url_prefixes url ≡ true)

-- Whatever the test of a webhook posts goes to the URL of the request, whose scheme is http or https
-- and which begins with one of the allowed prefixes, if some are configured.
pub test_webhook_endpoint-IsAllowed :
    (schemes : Schemes) (c : Codec) (settings : Settings) (answer : String → Value → Try ℕ)
    (body : WebhookTestRequest)
    → All (IsAllowed schemes settings body) (test_webhook_endpoint schemes c settings answer body).1
unfolding test_webhook_endpoint validate_webhook_url
test_webhook_endpoint-IsAllowed schemes c settings answer body =
    elim (Option-cases (schemes body.url)) [
      | inl e ↦ rw e tt
      | inr (scheme, e) ↦ rw e (
          sent scheme e (str_eq scheme "http") (str_eq scheme "https")
            (is_allowed settings.export.webhook_allowed_url_prefixes body.url)
            (λ h. (eq_iff scheme "http").0 h) (λ h. (eq_iff scheme "https").0 h) (λ h. h))
    ]
  where
    sent :
        (scheme : String)
        → schemes body.url ≡ some scheme
        → (http https allowed : Bool) → (http ≡ true → scheme ≡ "http")
        → (https ≡ true → scheme ≡ "https")
        → (allowed ≡ true → is_allowed settings.export.webhook_allowed_url_prefixes body.url ≡ true)
        → All
            (IsAllowed schemes settings body)
            (send_unless
              (refused http https allowed)
              (body.url, test_payload c body.template)
              (answer body.url (test_payload c body.template))).1
    sent scheme e true https true p q r = ((refl, inl (rw e (ap some (p refl))), r refl), tt)
    sent scheme e false true true p q r = ((refl, inr (rw e (ap some (q refl))), r refl), tt)
    sent scheme e false false allowed p q r = tt
    sent scheme e true https false p q r = tt
    sent scheme e false true false p q r = tt
