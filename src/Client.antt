-- ===== src/Client.antt =====
-- server/client.go: permissions, client identifiers and clients. Pointers to a ClientID or a
-- Client are numbers; the objects stand in the heap of World.antt.
use icecast_proxy_go.Prelude.{ℕ, ℤ, pos, negsuc, [], Str, bytes, ◌==◌, if◌then◌else◌, ◌||◌}

pub data LoginStatus : Type 0 where
  login_err_rejected login_err_empty : LoginStatus

-- LoginStatus.Error, by the table loginErrorStrings.
abbrev pub login_error : LoginStatus → Str
login_error login_err_rejected = bytes "Invalid credentials"
login_error login_err_empty = bytes "Empty credentials"

pub data Permission : Type 0 where
  perm_none perm_meta perm_source perm_admin : Permission

-- The value of the constant, by which permissions are compared.
abbrev pub rank : Permission → ℕ
rank perm_none = 0
rank perm_meta = 1
rank perm_source = 2
rank perm_admin = 3

unfoldable pub new_permission : ℤ → Permission
new_permission (pos perm) =
    if perm == 5 || perm == 4
    then perm_admin
    else if perm == 3 || perm == 2
    then perm_source
    else perm_none
new_permission (negsuc _) = perm_none

pub record ClientId : Type 0 where
  pub name : Str
  pub pass : Str
  pub perm : Permission
  pub agent : Str
  pub addr : Str
  pub mount : Str
  pub audio_format : Str

-- What the handlers read of an http.Request: the method, URL.Path, URL.Query().Get, Header.Get
-- and RemoteAddr.
pub record Request : Type 0 where
  pub method : Str
  pub path : Str
  pub query : Str → Str
  pub header : Str → Str
  pub remote_addr : Str

pub record Client : Type 0 where
  pub client_id : ℕ
  pub metadata : Str
  pub conn : ℕ

-- NewClient, for the connection and the identifier's address.
abbrev pub new_client : ℕ → ℕ → Client
new_client conn client_id = record { client_id = client_id; metadata = []; conn = conn }
