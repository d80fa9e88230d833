-- ===== src/Auth.antt =====
-- server/auth.go, and NewClientIDFromRequest of server/client.go: credentials of a request, the
-- login, and the handler that asks for them.
pub mod Laws
use icecast_proxy_go.Prelude.{
  ℕ, ℤ, ◌+◌, Bool, true, false, ◌&&◌, ◌||◌, List, [], ◌∷◌, ◌++◌, Option, none, some, Str, bytes,
  str_eq, ltb, inl, inr, ◌⊎◌, if◌then◌else◌, Go, Outcome, done, panicked, blocked, ◌>>=◌, ◌>>◌,
  skip, panic, gets, modify, return, update,
}
use icecast_proxy_go.Text.{split_n, contains, to_lower}
use icecast_proxy_go.Base64.{decode}
use icecast_proxy_go.Config.{Yaml, create_database_dsn}
use icecast_proxy_go.Client.{
  LoginStatus, login_err_rejected, login_error, Permission, perm_none, perm_admin, rank,
  new_permission, ClientId, Request,
}
use icecast_proxy_go.World.{World}

-- database/sql and bcrypt: the error of Open and of Prepare, whether a transaction begins, the row
-- that the prepared statement finds for a name, CompareHashAndPassword.
pub record Accounts : Type 0 where
  pub open_dsn : Str → Option Str
  pub prepare : Option Str
  pub begins : Bool
  pub row : Str → Option (Str × ℤ)
  pub matches : Str → Str → Bool

-- What a handler does to its http.ResponseWriter.
pub data Reply : Type 0 where
  set_header : Str → Str → Reply
  write_header : ℕ → Reply
  write : Str → Reply
  flush : Reply

-- A request that is being answered: the replies, the oldest first, the state of the server, and the
-- addresses of the next ClientID and Client.
pub record Exchange : Type 0 where
  pub replies : List Reply
  pub world : World
  pub next_id : ℕ
  pub next_client : ℕ

abbrev pub reply : List Reply → Go Exchange (Unit {0})
reply rs = modify (λ x. record x { replies = x.replies ++ rs })

-- The last step of ParseDigest, on the decoded credentials.
abbrev pub credentials : List Str → Str × Str
credentials (user ∷ pass ∷ []) = (user, pass)
credentials _ = ([], [])

-- ParseDigest behind the split of the header.
abbrev pub basic_of : List Str → Str × Str
basic_of (scheme ∷ encoded ∷ []) =
    if str_eq scheme (bytes "Basic")
    then elim (decode encoded) [
      | none ↦ ([], [])
      | some decoded ↦ credentials (split_n b':' 2 decoded)
    ]
    else ([], [])
basic_of _ = ([], [])

unfoldable pub parse_digest : Request → Str × Str
unfolding split_n
parse_digest r = basic_of (split_n b' ' 2 (r.header (bytes "Authorization")))

abbrev pub audio_format_of : Str → Str
audio_format_of cont =
    if str_eq cont (bytes "audio/mpeg")
    then bytes "MP3"
    else if str_eq cont (bytes "audio/ogg") || str_eq cont (bytes "application/ogg")
    then bytes "OGG"
    else []

abbrev pub mount_of : Request → Str
mount_of r =
    if str_eq r.path (bytes "/admin/metadata") || str_eq r.path (bytes "/admin/listclients")
    then r.query (bytes "mount")
    else r.path

unfoldable pub new_client_id_from_request : Request → ClientId
new_client_id_from_request r = record {
  name = (parse_digest r).0;
  pass = (parse_digest r).1;
  perm = perm_none;
  agent = r.header (bytes "User-Agent");
  addr = r.remote_addr;
  mount = mount_of r;
  audio_format = audio_format_of (r.header (bytes "Content-Type"));
}

-- Login's first part: a source client may send "name|password" as its password.
abbrev pub with_parts : ClientId → List Str → ClientId
with_parts c (name ∷ pass ∷ []) = record c { name = name; pass = pass }
with_parts c _ = c

unfoldable pub named_source : ClientId → ClientId
unfolding contains split_n
named_source c =
    if str_eq c.name (bytes "source") && contains b'|' c.pass
    then with_parts c (split_n b'|' 2 c.pass)
    else c

module _ (acc : Accounts) where
  unfoldable pub init_auth : Bool → Yaml → Go World (Unit {0})
  unfolding create_database_dsn
  init_auth authentication yaml =
      if authentication
      then (do
        dsn ← create_database_dsn yaml
        elim (acc.open_dsn dsn) [
          | some e ↦ panic e
          | none ↦ elim acc.prepare [ some e ↦ panic e | none ↦ skip ]
        ])
      else skip

  -- FetchUser: an error, or the hash and the permission.
  unfoldable pub fetch_user : Str → LoginStatus ⊎ (Str × Permission)
  unfolding to_lower new_permission
  fetch_user user =
      if acc.begins
      then elim (acc.row (to_lower user)) [
        | none ↦ inl login_err_rejected
        | some (hash, perm) ↦ inr (hash, new_permission perm)
      ]
      else inl login_err_rejected

  -- LoginClient: the error, and the identifier with its permission.
  unfoldable pub login_client : ClientId → Option LoginStatus × ClientId
  unfolding fetch_user
  login_client c = elim (fetch_user c.name) [
    | inl e ↦ (some login_err_rejected, c)
    | inr (hash, perm) ↦
        if acc.matches hash c.pass
        then (none, record c { perm = perm })
        else (some login_err_rejected, c)
  ]

  unfoldable pub login : Bool → ClientId → Option LoginStatus × ClientId
  unfolding login_client named_source
  login authentication c =
      if authentication
      then login_client (named_source c)
      else (none, record (named_source c) { perm = perm_admin })

-- The text of an error, and nothing for nil.
abbrev pub error_text : Option LoginStatus → Str
error_text none = []
error_text (some e) = login_error e

-- The realm that a browser shows when it asks for the credentials.
abbrev pub realm : Str
realm = bytes "R/a/dio"

unfoldable pub authentication_error : Option LoginStatus → Go Exchange (Unit {0})
authentication_error err = reply (
    set_header (bytes "WWW-Authenticate") (bytes "Basic realm=\"" ++ (realm ++ bytes "\""))
    ∷ write_header 401
    ∷ write (bytes "401 Unauthorized\n" ++ error_text err)
    ∷ [])

-- The new ClientID of a request, and what Login makes of it.
abbrev pub put_id : ℕ → ClientId → Go Exchange (Unit {0})
put_id id c =
    modify
      λ x. record x { world = record (x.world) { ids = update id c x.world.ids }; next_id = id + 1 }

-- An AuthedHandler gets the address of the ClientID.
module _ (acc : Accounts) (authentication : Bool) (fn : Request → ℕ → Go Exchange (Unit {0})) where
  -- The rest of the closure of makeAuthHandler, behind Login.
  unfoldable pub authorize :
      Permission → Request → ℕ → Option LoginStatus → ClientId → Go Exchange (Unit {0})
  authorize perm r id err user = elim err [
    | some e ↦ authentication_error (some e)
    | none ↦ if ltb (rank user.perm) (rank perm) then authentication_error none else fn r id
  ]

  unfoldable pub make_auth_handler : Permission → Request → Go Exchange (Unit {0})
  unfolding str_eq
  make_auth_handler perm r = do
    id ← gets (λ x. x.next_id)
    put_id id (new_client_id_from_request r)
    if str_eq (new_client_id_from_request r).pass []
          && str_eq (new_client_id_from_request r).name []
        then authentication_error none
        else (do
          put_id id (login acc authentication (new_client_id_from_request r)).1
          authorize perm r id (login acc authentication (new_client_id_from_request r)).0
              (login acc authentication (new_client_id_from_request r)).1)
