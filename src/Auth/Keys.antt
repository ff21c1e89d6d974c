-- ===== src/Auth/Keys.antt =====
-- The keys that the sanitiser returns.
use Prim.Native.Char.{Char, code}
use databridge.Base.{
  ◌≡◌, refl, ap, ◌∙◌, Bool, true, false, not, ◌&&◌, String, arith, ◌==◌, if◌then◌else◌,
}
use databridge.Base.Text.{is_empty, is_space}
use databridge.Auth.{has_dots, lstrip, rstrip, push_unless, is_safe, only_safe, sanitize}

module _ (is_alnum : Char → Bool) where
  -- Every character is one that the sanitiser lets through.
  abbrev AllSafe : String → Type 0
  AllSafe String.[] = Unit
  AllSafe (String.◌∷◌ c s) = (is_safe is_alnum c ≡ true) × AllSafe s

  only_safe-AllSafe : (s : String) → AllSafe (only_safe is_alnum s)
  unfolding only_safe
  only_safe-AllSafe String.[] = tt
  only_safe-AllSafe (String.◌∷◌ c s) = by_char (is_safe is_alnum c) refl (only_safe-AllSafe s)
    where
      by_char :
          (b : Bool)
          → is_safe is_alnum c ≡ b
          → AllSafe (only_safe is_alnum s)
          → AllSafe (push_unless (not b) c (only_safe is_alnum s))
      by_char true e h = (e, h)
      by_char false e h = h

  lstrip-AllSafe : (s : String) → AllSafe s → AllSafe (lstrip s)
  unfolding lstrip
  lstrip-AllSafe String.[] h = tt
  lstrip-AllSafe (String.◌∷◌ c s) h = by_space (is_space c) (lstrip-AllSafe s h.1)
    where
      by_space : (b : Bool) → AllSafe (lstrip s) → AllSafe (if b then lstrip s else String.◌∷◌ c s)
      by_space true k = k
      by_space false k = h

  rstrip-AllSafe : (s : String) → AllSafe s → AllSafe (rstrip s)
  unfolding rstrip
  rstrip-AllSafe String.[] h = tt
  rstrip-AllSafe (String.◌∷◌ c s) h =
      by_space (is_empty (rstrip s) && is_space c) (rstrip-AllSafe s h.1)
    where
      by_space : (b : Bool) → AllSafe (rstrip s) → AllSafe (push_unless b c (rstrip s))
      by_space true k = k
      by_space false k = (h.0, k)

  -- A sanitised key has safe characters only, whatever the header holds.
  sanitize-AllSafe : (key : String) → AllSafe (sanitize is_alnum key)
  unfolding sanitize
  sanitize-AllSafe key = by_dots (has_dots key)
    where
      by_dots : (b : Bool) → AllSafe (if b then "" else rstrip (lstrip (only_safe is_alnum key)))
      by_dots true = tt
      by_dots false = rstrip-AllSafe _ (lstrip-AllSafe _ (only_safe-AllSafe key))

  dot-safe : (d : Char) → code d ≡ b'.' → is_safe is_alnum d ≡ true
  unfolding is_safe
  dot-safe d e = rw e refl

  unsafe-dot : (c : Char) → is_safe is_alnum c ≡ false → (code c == b'.') ≡ false
  unfolding is_safe
  unsafe-dot c h = ground arith

  dot-space : (d : Char) → code d ≡ b'.' → is_space d ≡ false
  dot-space d e = rw e refl

  push_unless-keeps :
      (b e : Bool) (d : Char) (s : String) → b ≡ false → push_unless (e && b) d s ≡ String.◌∷◌ d s
  push_unless-keeps true e d s h = cc
  push_unless-keeps false true d s h = refl
  push_unless-keeps false false d s h = refl

  lstrip-keeps :
      (d : Char) (s : String) → is_space d ≡ false → lstrip (String.◌∷◌ d s) ≡ String.◌∷◌ d s
  unfolding lstrip
  lstrip-keeps d s h = ap (λ b. if b then lstrip s else String.◌∷◌ d s) h

  rstrip-keeps :
      (d : Char)
      → is_space d ≡ false
      → rstrip (String.◌∷◌ d (String.◌∷◌ d "")) ≡ String.◌∷◌ d (String.◌∷◌ d "")
  unfolding rstrip
  rstrip-keeps d h =
      ap (λ r. push_unless (is_empty r && is_space d) d r)
        (push_unless-keeps (is_space d) true d "" h)
      ∙ push_unless-keeps (is_space d) false d (String.◌∷◌ d "") h

  has_dots-apart :
      (d c : Char)
      → (code c == b'.') ≡ false
      → has_dots (String.◌∷◌ d (String.◌∷◌ c (String.◌∷◌ d ""))) ≡ false
  unfolding has_dots
  has_dots-apart d c h = ground arith

  only_safe-between :
      (d c : Char)
      → is_safe is_alnum d ≡ true
      → is_safe is_alnum c ≡ false
      → only_safe is_alnum (String.◌∷◌ d (String.◌∷◌ c (String.◌∷◌ d "")))
        ≡ String.◌∷◌ d (String.◌∷◌ d "")
  unfolding only_safe
  only_safe-between d c h k = rw (h, k) refl

  -- A character that is removed between two dots leaves the two dots that the test before the removal
  -- is to reject.
  pub sanitize-rebuilds_dots :
      (d c : Char)
      → code d ≡ b'.'
      → is_safe is_alnum c ≡ false
      → sanitize is_alnum (String.◌∷◌ d (String.◌∷◌ c (String.◌∷◌ d "")))
        ≡ String.◌∷◌ d (String.◌∷◌ d "")
  unfolding sanitize
  sanitize-rebuilds_dots d c e h =
      rw
        (
          has_dots-apart d c (unsafe-dot c h),
          only_safe-between d c (dot-safe d e) h,
          lstrip-keeps d (String.◌∷◌ d "") (dot-space d e),
        )
        (rstrip-keeps d (dot-space d e))
