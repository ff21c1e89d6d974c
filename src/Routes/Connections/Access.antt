-- ===== src/Routes/Connections/Access.antt =====
-- Whose connections the requests read and write.
use databridge.Base.{
  ◌≡◌, refl, sym, Bool, true, false, Option, none, some, List, String, arith, if◌then◌else◌,
  str_eq_self,
}
use databridge.Jobs.{Instant}
use databridge.Config.{Settings}
use databridge.Value.{Entries, get}
use databridge.Routes.{ok, raise, AuthContext}
use databridge.Connections.{
  Connection, ConnectionTable, is_own, get_connection, insert_connection, update_connection,
}
use databridge.Connections.Owners.{
  others_rows, get_connection-own, others-update_connection, others-delete_connection,
}
use databridge.Routes.Connections.Credentials.{get-without_secrets}
use databridge.Routes.Connections.{
  Backend, ConnectionCreate, ConnectionPatch, create_connection, patch_connection, patch_with,
  patch_found, answer_row, remove_connection, remove_found, is_system_source,
  get_connection_credentials, is_secret, without_secrets, get_connection_or_404, merge_credentials,
  or_404, shown_credentials,
}

module _ (backend : Backend) (settings : Settings) (auth : AuthContext) where
  abbrev others : ConnectionTable → ConnectionTable
  others rows = others_rows auth.public_key rows

  rows-answer_row :
      (p : ConnectionTable × Option Connection) → (answer_row backend settings p).0 ≡ p.0
  rows-answer_row (rows, none) = refl
  rows-answer_row (rows, some row) = refl

  others-patch_found :
      (id : String) (label : Option String) (incoming : Entries) (now : Instant)
      (rows : ConnectionTable) (o : Option Connection)
      → others (patch_found backend settings id label incoming auth now rows o).0 ≡ others rows
  others-patch_found id label incoming now rows none = refl
  others-patch_found id label incoming now rows (some row) =
      rw
        (rows-answer_row (
          update_connection id auth.public_key label
            (some
              (backend.encrypt (merge_credentials (backend.decrypt row.credentials_enc) incoming)))
            now rows))
        (others-update_connection id auth.public_key label _ now rows)

  others-patch_with :
      (id : String) (label : Option String) (creds : Option Entries) (now : Instant)
      (rows : ConnectionTable)
      → others (patch_with backend settings id label creds auth now rows).0 ≡ others rows
  others-patch_with id label none now rows =
      rw (rows-answer_row (update_connection id auth.public_key label none now rows))
        (others-update_connection id auth.public_key label none now rows)
  others-patch_with id label (some incoming) now rows =
      others-patch_found id label incoming now rows _

  others-remove_found :
      (id : String) (sync_jobs : List String) (rows : ConnectionTable) (o : Option Connection)
      → others (remove_found backend settings id auth sync_jobs rows o).0 ≡ others rows
  others-remove_found id sync_jobs rows none = refl
  others-remove_found id sync_jobs rows (some row) =
      ground (arith, others-delete_connection id auth.public_key rows)

  -- Creating, changing or deleting a connection, whatever comes of it, leaves the rows of every other
  -- owner as they were, in their order.
  pub connection_requests-keep_others :
      (rows : ConnectionTable) (id : String) (now : Instant) (body : ConnectionCreate)
      (patch : ConnectionPatch) (sync_jobs : List String)
      → (others (create_connection backend settings body auth id now rows).0 ≡ others rows)
        × (others (patch_connection backend settings id patch auth now rows).0 ≡ others rows)
        × (others (remove_connection backend settings id auth sync_jobs rows).0 ≡ others rows)
  unfolding create_connection insert_connection patch_connection remove_connection
  connection_requests-keep_others rows id now body patch sync_jobs = (
    rw (str_eq_self auth.public_key) refl,
    by_patch (is_system_source backend settings id),
    by_remove (is_system_source backend settings id),
  )
    where
      by_patch :
          (b : Bool)
          → others
              (if b
                then (rows, raise 404)
                else patch_with backend settings id patch.label patch.credentials auth now rows).0
            ≡ others rows
      by_patch true = refl
      by_patch false = others-patch_with id patch.label patch.credentials now rows

      by_remove :
          (b : Bool)
          → others
              (if b
                then (rows, raise 404)
                else remove_found backend settings id auth sync_jobs rows
                    (get_connection id auth.public_key rows)).0
            ≡ others rows
      by_remove true = refl
      by_remove false = others-remove_found id sync_jobs rows _

  -- A request for credentials that is answered is for a row that the table holds, of the caller and
  -- with the id that was asked for, and the answer has each key of that row's credentials that is
  -- not secret, with its value, and no other key.
  pub get_connection_credentials-own :
      (id : String) (rows : ConnectionTable) (fs : Entries)
      → get_connection_credentials backend settings id auth rows ≡ ok fs
      → (row : Connection) × (get_connection id auth.public_key rows ≡ some row)
        × (is_own id auth.public_key row ≡ true)
        × ((k : String)
            → get k fs
              ≡ (if is_secret k then none else get k (backend.decrypt row.credentials_enc)))
  unfolding get_connection_credentials get_connection_or_404
  get_connection_credentials-own id rows fs h =
      by_row (get_connection id auth.public_key rows) refl h
    where
      by_row :
          (o : Option Connection)
          → get_connection id auth.public_key rows ≡ o
          → shown_credentials backend settings (or_404 backend settings o) ≡ ok fs
          → (row : Connection) × (get_connection id auth.public_key rows ≡ some row)
            × (is_own id auth.public_key row ≡ true)
            × ((k : String)
                → get k fs
                  ≡ (if is_secret k then none else get k (backend.decrypt row.credentials_enc)))
      by_row none e q = cc
      by_row (some row) e q =
          let shown : without_secrets (backend.decrypt row.credentials_enc) ≡ fs = cc in
          (
            row,
            e,
            get_connection-own id auth.public_key rows row e,
            λ k. rw (sym shown) (get-without_secrets k (backend.decrypt row.credentials_enc)),
          )
