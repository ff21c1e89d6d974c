-- ===== src/Routes/Connections/Credentials.antt =====
-- The credentials that are shown, and those that a patch leaves.
use mathlib.Core.Option
use databridge.Base.{
  ◌≡◌, refl, ap, ◌∙◌, Bool, true, false, not, ◌&&◌, ◌||◌, Option, none, some, [], ◌∷◌, String,
  str_eq, arith, is_some, if◌then◌else◌, eq_iff,
}
use databridge.Value.{Value, Entries, done, entry, get, put}
use databridge.Jobs.{Instant}
use databridge.Config.{Settings}
use databridge.Routes.{ok, AuthContext}
use databridge.Connections.{
  Connection, ConnectionTable, is_own, get_connection, update_rows, update_connection,
  set_connection,
}
use databridge.Routes.Connections.{
  Backend, patch_connection, is_system_source, is_secret, without_secrets, is_kept, put_unless,
  merge_credentials, row_to_response,
}

-- No secret key is shown, and every other key is shown with its value.
pub get-without_secrets :
    (k : String) (fs : Entries)
    → get k (without_secrets fs) ≡ (if is_secret k then none else get k fs)
unfolding get without_secrets
get-without_secrets k done = ground arith
get-without_secrets k (entry j v fs) = ground (arith, get-without_secrets k fs, eq_iff j k)

-- The last value that the patch gives a key, less those that it skips.
abbrev pub or_last : Option Value → Option Value → Option Value
or_last none o = o
or_last (some v) o = some v

abbrev given_if : Bool → Value → Option Value
given_if true v = some v
given_if false v = none

abbrev pub last_given : String → Entries → Option Value
last_given k done = none
last_given k (entry j v fs) =
    let rest = last_given k fs in or_last rest (given_if (str_eq j k && not (is_kept j v)) v)

get-put :
    (k j : String) (v : Value) (fs : Entries)
    → get k (put j v fs) ≡ (if str_eq j k then some v else get k fs)
unfolding get put
get-put k j v done = refl
get-put k j v (entry i u fs) = ground (arith, get-put k j v fs, eq_iff i k, eq_iff i j, eq_iff j k)

get-put_unless :
    (b : Bool) (k j : String) (v : Value) (fs : Entries)
    → get k (put_unless b j v fs) ≡ or_last (given_if (str_eq j k && not b) v) (get k fs)
get-put_unless true k j v fs = ground arith
get-put_unless false k j v fs = ground (arith, get-put k j v fs)

or_last_assoc : (a b c : Option Value) → or_last a (or_last b c) ≡ or_last (or_last a b) c
or_last_assoc none b c = refl
or_last_assoc (some a) b c = refl

-- What a key holds after a merge: the last value that the patch gives it, or what it held before.
get-merge_credentials :
    (k : String) (merged incoming : Entries)
    → get k (merge_credentials merged incoming) ≡ or_last (last_given k incoming) (get k merged)
unfolding merge_credentials
get-merge_credentials k merged done = refl
get-merge_credentials k merged (entry j v fs) =
    get-merge_credentials k (put_unless (is_kept j v) j v merged) fs
    ∙ ap (or_last (last_given k fs)) (get-put_unless (is_kept j v) k j v merged)
    ∙ or_last_assoc (last_given k fs) _ (get k merged)

get_connection-update_rows :
    (id owner_key : String) (f : Connection → Connection) (rows : ConnectionTable)
    → ((row : Connection) → ((f row).id ≡ row.id) × ((f row).owner_key ≡ row.owner_key))
    → get_connection id owner_key (update_rows (is_own id owner_key) f rows)
      ≡ Option.map f (get_connection id owner_key rows)
unfolding get_connection update_rows
get_connection-update_rows id owner_key f [] keep = refl
get_connection-update_rows id owner_key f (r ∷ rows) keep =
    ground (arith, (keep r).0, (keep r).1, get_connection-update_rows id owner_key f rows keep)

set_connection-same :
    (label enc : Option String) (now : Instant) (row : Connection)
    → ((set_connection label enc now row).id ≡ row.id)
      × ((set_connection label enc now row).owner_key ≡ row.owner_key)
set_connection-same none none now row = (refl, refl)
set_connection-same none (some e) now row = (refl, refl)
set_connection-same (some l) none now row = (refl, refl)
set_connection-same (some l) (some e) now row = (refl, refl)

set_connection-enc :
    (label : Option String) (enc : String) (now : Instant) (row : Connection)
    → ((set_connection label (some enc) now row).credentials_enc ≡ enc)
      × ((set_connection label (some enc) now row).status ≡ "untested")
set_connection-enc none enc now row = (refl, refl)
set_connection-enc (some l) enc now row = (refl, refl)

or_true : (b : Bool) → (b || true) ≡ true
or_true true = refl
or_true false = refl

-- Where what is encrypted decrypts again, a patch of the credentials of the caller's own connection,
-- which is no system source, is answered with the row that is then stored; it is untested, and each key of its credentials holds the last
-- value that the patch gives it, less the empty ones that it skips, or else what it held before.
pub patch_connection-merges :
    (backend : Backend) (settings : Settings) (id : String) (label : Option String)
    (incoming : Entries) (auth : AuthContext) (now : Instant) (rows : ConnectionTable)
    (row : Connection)
    → (let merged : Entries = merge_credentials (backend.decrypt row.credentials_enc) incoming in
        backend.decrypt (backend.encrypt merged) ≡ merged)
    → is_system_source backend settings id ≡ false
    → get_connection id auth.public_key rows ≡ some row
    → let result =
        patch_connection backend settings id
          (record { label = label; credentials = some incoming })
          auth
          now
          rows in
      (row' : Connection) × (get_connection id auth.public_key result.0 ≡ some row')
      × (result.1 ≡ ok (row_to_response row'))
      × (row'.status ≡ "untested")
      × ((k : String)
          → get k (backend.decrypt row'.credentials_enc)
            ≡ or_last (last_given k incoming) (get k (backend.decrypt row.credentials_enc)))
unfolding patch_connection update_connection
patch_connection-merges backend settings id label incoming auth now rows row inverse own found =
    rw (own, found, or_true (is_some label), stored)
      (
        set_connection label (some enc) now row,
        stored,
        refl,
        (set_connection-enc label enc now row).1,
        λ k.
            rw ((set_connection-enc label enc now row).0, inverse)
              (get-merge_credentials k (backend.decrypt row.credentials_enc) incoming),
      )
  where
    merged : Entries
    merged = merge_credentials (backend.decrypt row.credentials_enc) incoming

    enc : String
    enc = backend.encrypt merged

    stored :
        get_connection id auth.public_key
          (update_rows (is_own id auth.public_key) (set_connection label (some enc) now) rows)
        ≡ some (set_connection label (some enc) now row)
    stored =
        get_connection-update_rows id auth.public_key (set_connection label (some enc) now) rows
          (set_connection-same label (some enc) now)
        ∙ ap (Option.map (set_connection label (some enc) now)) found
