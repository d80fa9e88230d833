-- ===== src/Http.antt =====
-- server/http.go and server/encoding.go: the handlers of the HTTP server, with Error
-- and NotFound of http/server.go. The formats of fmt.Sprintf hold no verbs but %s and %d.
pub mod Text
pub mod Admin
pub mod Version
pub mod Permissions
pub mod Laws
use icecast_proxy_go.Prelude.{
  ℕ, ◌+◌, Bool, true, false, List, [], ◌∷◌, ◌++◌, Option, none, some, Str, bytes, str_eq, leb, ltb,
  length, inl, inr, ◌⊎◌, if◌then◌else◌, Go, Outcome, done, panicked, blocked, ◌>>=◌, ◌>>◌, skip,
  panic, gets, modify, return, update,
}
use icecast_proxy_go.Client.{perm_meta, perm_source, perm_admin, Request, new_client}
use icecast_proxy_go.Config.{Yaml, server_address}
use icecast_proxy_go.World.{MetaPack, World, on_manager, receiver_cap, send_meta}
use icecast_proxy_go.Auth.{
  Accounts, Exchange, Reply, set_header, write_header, write, flush, reply, init_auth,
  make_auth_handler,
}
use icecast_proxy_go.Http.Text.{itoa, slice_prefix}
use icecast_proxy_go.Http.Admin.{on_world, admin_handler}

-- What the handlers meet outside: iconv, by the text, the target and the source encoding, and
-- whether the http.ResponseWriter is a Flusher and a Hijacker, with what Hijack gives.
pub record Services : Type 0 where
  pub conv : Str → Str → Str → Option Str
  pub is_flusher : Bool
  pub is_hijacker : Bool
  pub hijack : Str ⊎ ℕ

-- http.Error and http.NotFound
abbrev pub http_error : Str → ℕ → Go Exchange (Unit {0})
http_error text code = reply (
    set_header (bytes "Content-Type") (bytes "text/plain; charset=utf-8")
    ∷ write_header code
    ∷ write (text ++ bytes "\n")
    ∷ [])

abbrev pub not_found : Go Exchange (Unit {0})
not_found = http_error (bytes "404 page not found") 404

-- errorHandler answers nothing.
abbrev pub error_handler : Str → Go Exchange (Unit {0})
error_handler err = skip

-- Content-Length, then the body.
abbrev pub sized : Str → Go Exchange (Unit {0})
sized response =
    reply (set_header (bytes "Content-Length") (itoa (length response)) ∷ write response ∷ [])

-- `ClientManager.Receiver <- client`
abbrev pub send_receiver : ℕ → Go World (Unit {0})
send_receiver client = on_manager λ m. elim (ltb (length m.receiver) receiver_cap) [
  | true ↦ done tt (record m { receiver = m.receiver ++ client ∷ [] })
  | false ↦ blocked m
]

abbrev pub charset_of : Str → Str
charset_of [] = bytes "latin1"
charset_of (c ∷ s) = c ∷ s

abbrev pub metadata_answer : Str
metadata_answer =
    bytes
      "<?xml version=\"1.0\"?>\n<iceresponse><message>Metadata update successful</message><return>1</return></iceresponse>\n"

abbrev pub send_parsed : Str → ℕ → Go Exchange (Unit {0})
send_parsed [] id = skip
send_parsed (c ∷ s) id = on_world (send_meta (record { payload = c ∷ s; id = id; seen = false }))

-- The client of a hijacked connection, at a new address.
abbrev pub receive : ℕ → ℕ → Go Exchange (Unit {0})
receive conn id = do
  client ← gets (λ x. x.next_client)
  modify (λ x. record x {
    world = record (x.world) { clients = update client (new_client conn id) x.world.clients };
    next_client = client + 1;
  })
  on_world (send_receiver client)

abbrev pub flushes : Bool → List Reply
flushes true = flush ∷ []
flushes false = []

unfoldable pub listclients_handler : Request → ℕ → Go Exchange (Unit {0})
listclients_handler r id = do
  mount ← gets (λ x. (x.world.ids id).mount)
  sized (
      bytes "<?xml version=\"1.0\"?>\n<icestats><source mount=\""
      ++ (mount ++ bytes "\"><Listeners>0</Listeners></source></icestats>\n"))

module _ (services : Services) where
  unfoldable pub parse_metadata : Str → Str → Str
  unfolding str_eq
  parse_metadata charset meta =
      if str_eq charset (bytes "latin1")
      then elim (services.conv meta (bytes "UTF-8") (bytes "UTF-8")) [
        | some res ↦ res
        | none ↦ elim (services.conv meta (bytes "UTF-8") (bytes "SHIFT_JIS")) [
          | some res ↦ res
          | none ↦ []
        ]
      ]
      else meta

  abbrev pub metadata_for : Str → Request → ℕ → Go Exchange (Unit {0})
  metadata_for [] r id = skip
  metadata_for (c ∷ song) r id = do
    send_parsed (parse_metadata (charset_of (r.query (bytes "charset"))) (c ∷ song)) id
    sized metadata_answer

  unfoldable pub metadata_handler : Request → ℕ → Go Exchange (Unit {0})
  unfolding parse_metadata
  metadata_handler r id = metadata_for (r.query (bytes "song")) r id

  unfoldable pub source_handler : Request → ℕ → Go Exchange (Unit {0})
  source_handler r id = do
    reply (write_header 200 ∷ write (bytes "\r\n") ∷ flushes services.is_flusher)
    if services.is_hijacker
        then (elim services.hijack [ inl text ↦ http_error text 500 | inr conn ↦ receive conn id ])
        else http_error (bytes "Webserver doesn't support hijacking.") 500

  module _ (acc : Accounts) (authentication : Bool) where
    -- The GET requests of mainHandler.
    unfoldable pub get_handler : Request → Go Exchange (Unit {0})
    unfolding str_eq slice_prefix
    get_handler r =
        if str_eq r.path (bytes "/admin/metadata")
        then make_auth_handler acc authentication metadata_handler perm_meta r
        else if str_eq r.path (bytes "/admin/listclients")
        then make_auth_handler acc authentication listclients_handler perm_source r
        else if slice_prefix (bytes "/admin") r.path
        then make_auth_handler acc authentication admin_handler perm_admin r
        else not_found

    unfoldable pub main_handler : Request → Go Exchange (Unit {0})
    unfolding get_handler str_eq
    main_handler r =
        if str_eq r.method (bytes "SOURCE")
        then make_auth_handler acc authentication source_handler perm_source r
        else if str_eq r.method (bytes "GET")
        then get_handler r
        else error_handler (bytes "Unsupported HTTP Method")
