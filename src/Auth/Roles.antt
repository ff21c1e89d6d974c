-- ===== src/Auth/Roles.antt =====
-- What the callers that `get_auth` answers may be.
use Prim.Native.Char.{Char}
use databridge.Base.{
  ◌≡◌, refl, Bool, true, false, not, ◌&&◌, Option, none, some, String, Bool-cases, inl, inr, ◌⊎◌,
  or_else, if◌then◌else◌,
}
use databridge.Base.Text.{is_empty}
use databridge.Config.{Settings}
use databridge.Routes.{HttpResult, ok, raise, AuthContext}
use databridge.Auth.{
  Headers, map_role, partition, sanitize, context_of, everything, by_group, fallback, by_key,
  by_decoded, by_authorization, without_group, get_auth, is_upper_of,
}

module _ (is_alnum : Char → Bool) where
  abbrev pub Consistent : HttpResult AuthContext → Type 0
  Consistent (raise status) = status ≡ 401
  Consistent (ok auth) =
      ((auth.role ≡ "user") × (auth.is_org_admin ≡ false))
      ⊎ (((auth.role ≡ "org_admin") ⊎ (auth.role ≡ "super_admin")) × (auth.is_org_admin ≡ true))

  map_role-Consistent :
      (x_role key : String) → Consistent (ok (context_of is_alnum key (map_role x_role)))
  unfolding map_role
  map_role-Consistent x_role key =
      by_tests (is_upper_of x_role "SUPER_ADMIN") (is_upper_of x_role "ORG_ADMIN")
    where
      by_tests :
          (a b : Bool)
          → Consistent (
              ok (
                context_of is_alnum key (
                  if a
                  then ("super_admin", true)
                  else if b
                  then ("org_admin", true)
                  else ("user", false))))
      by_tests true b = inr (inr refl, refl)
      by_tests false true = inr (inl refl, refl)
      by_tests false false = inl (refl, refl)

  fallback-Consistent : (settings : Settings) → Consistent (fallback is_alnum settings)
  fallback-Consistent settings = by_flags settings.demo settings.server.debug
    where
      by_flags :
          (a b : Bool)
          → Consistent (
              if a
              then ok (everything is_alnum "demo/demo" "demo" "demo")
              else if b
              then ok (everything is_alnum "dev" "dev" "dev")
              else raise 401)
      by_flags true b = inr (inr refl, refl)
      by_flags false true = inr (inr refl, refl)
      by_flags false false = refl

  -- What the `Authorization` header alone gives: an ordinary user with a key that is not empty, or what
  -- the service gives without credentials.
  abbrev pub Ordinary : Settings → HttpResult AuthContext → Type 0
  Ordinary settings r =
      (r ≡ fallback is_alnum settings)
      ⊎ ((key : String) × (is_empty key ≡ false)
          × (r ≡ ok (context_of is_alnum key ("user", false))))

  by_key-Ordinary :
      (settings : Settings) (key : String) → Ordinary settings (by_key is_alnum settings key)
  by_key-Ordinary settings key = elim (Bool-cases (is_empty key)) [
    | inl e ↦ inl (rw e refl)
    | inr e ↦ inr (key, e, rw e refl)
  ]

  by_decoded-Ordinary :
      (settings : Settings) (o : Option String) → Ordinary settings (by_decoded is_alnum settings o)
  by_decoded-Ordinary settings none = inl refl
  by_decoded-Ordinary settings (some decoded) = by_key-Ordinary settings _

  by_authorization-Ordinary :
      (decode : String → Option String) (settings : Settings) (p : String × String × Bool)
      → Ordinary settings (by_authorization is_alnum decode settings p)
  by_authorization-Ordinary decode settings (scheme, encoded, found) =
      by_scheme (is_upper_of scheme "BASIC" && not (is_empty encoded))
    where
      by_scheme :
          (b : Bool)
          → Ordinary settings (
              if b
              then by_decoded is_alnum settings (decode encoded)
              else fallback is_alnum settings)
      by_scheme true = by_decoded-Ordinary settings (decode encoded)
      by_scheme false = inl refl

  without_group-Ordinary :
      (decode : String → Option String) (settings : Settings) (headers : Headers)
      → Ordinary settings (without_group is_alnum decode settings headers)
  without_group-Ordinary decode settings headers =
      by_header (is_empty (or_else headers.authorization ""))
    where
      by_header :
          (b : Bool)
          → Ordinary settings (
              if b
              then fallback is_alnum settings
              else by_authorization is_alnum decode settings
                  (partition b' ' (or_else headers.authorization "")))
      by_header true = inl refl
      by_header false =
          by_authorization-Ordinary decode settings
            (partition b' ' (or_else headers.authorization ""))

  Ordinary-Consistent :
      (settings : Settings) (r : HttpResult AuthContext) → Ordinary settings r → Consistent r
  Ordinary-Consistent settings r (inl e) = rw e (fallback-Consistent settings)
  Ordinary-Consistent settings r (inr (key, n, e)) = rw e (inl (refl, refl))

  -- A request is refused with 401, or its caller has one of the three roles and is an organisation's
  -- admin exactly with the two upper ones; and without the group header the role header has no say:
  -- the caller is an ordinary user, or the one that demo or debug mode gives to all.
  pub get_auth-roles :
      (decode : String → Option String) (settings : Settings) (headers : Headers)
      → Consistent (get_auth is_alnum decode settings headers)
        × (headers.x_group_id ≡ none
            → Ordinary settings (get_auth is_alnum decode settings headers))
  unfolding get_auth
  get_auth-roles decode settings headers = (
    by_group_id (is_empty (or_else headers.x_group_id "")),
    λ e. rw e (without_group-Ordinary decode settings headers),
  )
    where
      by_key_of : (key : String) → Consistent (by_group is_alnum (or_else headers.x_role "") key)
      by_key_of key = by_empty (is_empty key)
        where
          by_empty :
              (b : Bool)
              → Consistent (
                  if b
                  then raise 401
                  else ok (context_of is_alnum key (map_role (or_else headers.x_role ""))))
          by_empty true = refl
          by_empty false = map_role-Consistent (or_else headers.x_role "") key

      by_group_id :
          (b : Bool)
          → Consistent (
              if b
              then without_group is_alnum decode settings headers
              else by_group is_alnum
                  (or_else headers.x_role "")
                  (sanitize is_alnum (or_else headers.x_group_id "")))
      by_group_id true =
          Ordinary-Consistent settings _ (without_group-Ordinary decode settings headers)
      by_group_id false = by_key_of _
