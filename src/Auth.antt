-- ===== src/Auth.antt =====
-- auth.py: who a request comes from. The headers are ASCII texts as far as letters are compared
-- without their case; base64 and the classes of characters beyond ASCII are parameters.
pub mod Keys
pub mod Roles
use Prim.Native.Char.{Char, code}
use Prim.Native.String
use databridge.Base.{
  ℕ, ◌-◌, Bool, true, false, not, ◌&&◌, ◌||◌, Option, none, some, List, [], ◌∷◌, String, str_eq,
  leb, ◌==◌, or_else, if◌then◌else◌,
}
use databridge.Base.Text.{is_empty, is_digit, is_space}
use databridge.Config.{Settings}
use databridge.Routes.{HttpResult, ok, raise, AuthContext}

-- The headers that are read.
pub record Headers : Type 0 where
  pub x_group_id : Option String
  pub x_role : Option String
  pub authorization : Option String

-- A letter of ASCII in upper case, by its code.
abbrev raised : ℕ → ℕ
raised c = if leb 97 c && leb c 122 then c - 32 else c

-- `s.upper() == t`, for a text in upper case
unfoldable pub is_upper_of : String → String → Bool
is_upper_of String.[] String.[] = true
is_upper_of String.[] (String.◌∷◌ d t) = false
is_upper_of (String.◌∷◌ c s) String.[] = false
is_upper_of (String.◌∷◌ c s) (String.◌∷◌ d t) = (raised (code c) == code d) && is_upper_of s t

-- `_map_role`
unfoldable pub map_role : String → String × Bool
map_role x_role =
    if is_upper_of x_role "SUPER_ADMIN"
    then ("super_admin", true)
    else if is_upper_of x_role "ORG_ADMIN"
    then ("org_admin", true)
    else ("user", false)

abbrev starts_with_dot : String → Bool
starts_with_dot String.[] = false
starts_with_dot (String.◌∷◌ c s) = code c == b'.'

-- `".." in key`
unfoldable pub has_dots : String → Bool
has_dots String.[] = false
has_dots (String.◌∷◌ c s) = ((code c == b'.') && starts_with_dot s) || has_dots s

abbrev pub push_unless : Bool → Char → String → String
push_unless true c s = s
push_unless false c s = String.◌∷◌ c s

-- `s.lstrip()` and `s.rstrip()`
unfoldable pub lstrip : String → String
lstrip String.[] = ""
lstrip (String.◌∷◌ c s) = let rest = lstrip s in if is_space c then rest else String.◌∷◌ c s

unfoldable pub rstrip : String → String
rstrip String.[] = ""
rstrip (String.◌∷◌ c s) = let rest = rstrip s in push_unless (is_empty rest && is_space c) c rest

-- `before, _, after = s.partition(sep)`, and whether `sep` is in `s`
unfoldable pub partition : ℕ → String → String × String × Bool
partition sep String.[] = ("", "", false)
partition sep (String.◌∷◌ c s) =
    let (before, after, found) = partition sep s in
    if code c == sep then ("", s, true) else (String.◌∷◌ c before, after, found)

module _ (is_alnum : Char → Bool) where
  abbrev is_letter : ℕ → Bool
  is_letter c = (leb 65 c && leb c 90) || (leb 97 c && leb c 122)

  -- `[\w/\-@.]`; `is_alnum` answers for the characters beyond ASCII
  unfoldable pub is_safe : Char → Bool
  is_safe c =
      is_letter (code c)
      || (is_digit c
          || ((code c == b'_')
              || ((code c == b'/')
                  || ((code c == b'-')
                      || ((code c == b'@')
                          || ((code c == b'.') || (leb 128 (code c) && is_alnum c)))))))

  -- `_UNSAFE.sub("", key)`
  unfoldable pub only_safe : String → String
  only_safe String.[] = ""
  only_safe (String.◌∷◌ c s) = push_unless (not (is_safe c)) c (only_safe s)

  -- `_sanitize`
  unfoldable pub sanitize : String → String
  sanitize key = if has_dots key then "" else rstrip (lstrip (only_safe key))

  -- The caller with that key, which is split at its first slash.
  abbrev pub context_of : String → String × Bool → AuthContext
  context_of key (role, is_org_admin) =
      let (org_id, user_id, split) = partition b'/' key in
      record {
        public_key = key;
        is_org_admin = is_org_admin;
        org_id = if split then org_id else key;
        user_id = if split then user_id else "";
        role = role;
      }

  abbrev pub everything : String → String → String → AuthContext
  everything key org_id user_id = record {
    public_key = key;
    is_org_admin = true;
    org_id = org_id;
    user_id = user_id;
    role = "super_admin";
  }

  abbrev pub by_group : String → String → HttpResult AuthContext
  by_group x_role key = if is_empty key then raise 401 else ok (context_of key (map_role x_role))

  -- Without valid credentials.
  abbrev pub fallback : Settings → HttpResult AuthContext
  fallback settings =
      if settings.demo
      then ok (everything "demo/demo" "demo" "demo")
      else if settings.server.debug
      then ok (everything "dev" "dev" "dev")
      else raise 401

  abbrev pub by_key : Settings → String → HttpResult AuthContext
  by_key settings key =
      if is_empty key then fallback settings else ok (context_of key ("user", false))

  abbrev pub by_decoded : Settings → Option String → HttpResult AuthContext
  by_decoded settings none = fallback settings
  by_decoded settings (some decoded) = by_key settings (sanitize (partition b':' decoded).0)

  -- `base64.b64decode(…).decode()`, where `none` is an exception, is a parameter.
  abbrev pub by_authorization :
      (String → Option String) → Settings → String × String × Bool → HttpResult AuthContext
  by_authorization decode settings (scheme, encoded, found) =
      if is_upper_of scheme "BASIC" && not (is_empty encoded)
      then by_decoded settings (decode encoded)
      else fallback settings

  abbrev pub without_group : (String → Option String) → Settings → Headers → HttpResult AuthContext
  without_group decode settings headers =
      let auth_header = or_else headers.authorization "" in
      if is_empty auth_header
      then fallback settings
      else by_authorization decode settings (partition b' ' auth_header)

  -- `get_auth`
  unfoldable pub get_auth : (String → Option String) → Settings → Headers → HttpResult AuthContext
  get_auth decode settings headers =
      let group_id = or_else headers.x_group_id "" in
      if is_empty group_id
      then without_group decode settings headers
      else by_group (or_else headers.x_role "") (sanitize group_id)
