-- ===== src/Tests/Webhooks.antt =====
-- Templates of webhooks, the test of a webhook, and the fields of a source.
use databridge.Base.{◌≡◌, refl, none, some, List, [], ◌∷◌, or_else}
use databridge.Base.Lists.{All}
use databridge.Base.Text.{lower, split}
use databridge.Value.{text, number, dict, done, entry, Entries, Codec}
use databridge.Sink.{returns}
use databridge.Webhook.{render_payload, redact_headers, redact_value}
use databridge.Webhook.Templates.{Piece, words, field, filled, IsPiece, render_payload-printed}
use databridge.Routes.WebhookTest.{
  test_webhook_endpoint, IsAllowed, test_webhook_endpoint-IsAllowed,
}
use databridge.Asset.Fields.{detect_asset_url_fields}
use databridge.Tests.Requests.{settings}

abbrev codec : Codec
codec = record { loads = λ s. some (text s); dumps = λ v. ""; show = λ v. "7"; sha256_hex = λ s. s }

abbrev context : Entries
context = entry "status" (text "done") (entry "n" (number "7") done)

abbrev template : List Piece
template = words "s=" ∷ field "status" ∷ words " n=" ∷ field "n" ∷ field "x" ∷ []

template-IsPiece : All IsPiece template
template-IsPiece = (
  (refl, (refl, tt)),
  (
    (refl, (refl, (refl, (refl, (refl, (refl, (refl, tt))))))),
    ((refl, (refl, (refl, tt))), ((refl, (refl, tt)), ((refl, (refl, tt)), tt))),
  ),
)

render_payload-printed_example :
    render_payload codec (some "s={{status}} n={{n}}{{x}}") context
    ≡ or_else (codec.loads (filled codec context template)) (dict context)
render_payload-printed_example = render_payload-printed codec context template template-IsPiece refl

hides_keys :
    redact_headers (("Cookie", "abcdef") ∷ ("X-Token", "abc") ∷ ("Accept", "text/html") ∷ [])
    ≡ ("Cookie", "abcd...[REDACTED]") ∷ ("X-Token", "[REDACTED]") ∷ ("Accept", "text/html") ∷ []
unfolding redact_headers redact_value lower
hides_keys = refl

test_webhook_endpoint-IsAllowed_example :
    All
      (IsAllowed (λ s. some "https") settings (record { url = "https://a"; template = none }))
      (test_webhook_endpoint
        (λ s. some "https")
        codec
        settings
        (λ u v. returns 204)
        (record { url = "https://a"; template = none })).1
test_webhook_endpoint-IsAllowed_example =
    test_webhook_endpoint-IsAllowed (λ s. some "https") codec settings (λ u v. returns 204)
      (record { url = "https://a"; template = none })

finds_urls :
    detect_asset_url_fields
      (("body.Image_URL", record { type = "string"; example = text "x" })
        ∷ ("note", record { type = "string"; example = text "HTTPS://a" })
        ∷ ("other", record { type = "string"; example = text "" })
        ∷ [])
      []
    ≡ "body.Image_URL" ∷ "note" ∷ []
unfolding detect_asset_url_fields split lower
finds_urls = refl
