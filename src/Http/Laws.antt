-- ===== src/Http/Laws.antt =====
-- What requests do to the server.
use icecast_proxy_go.Prelude.{
  ℕ, ◌+◌, ◌<◌, ◌≡◌, ◌≢◌, refl, ap, inr, Bool, true, false, ◌&&◌, [], ◌∷◌, ◌++◌, Str, bytes, str_eq,
  length, arith, if◌then◌else◌, Go, Outcome, done, update, update_self, update_ne,
}
use icecast_proxy_go.Client.{Permission, perm_meta, perm_source, perm_admin, Request, new_client}
use icecast_proxy_go.World.{meta_cap, receiver_cap}
use icecast_proxy_go.Auth.{
  Accounts, Exchange, parse_digest, new_client_id_from_request, authentication_error,
  make_auth_handler, write_header, write, set_header,
}
use icecast_proxy_go.Http.Admin.{admin_handler}
use icecast_proxy_go.Http.Text.{slice_prefix, itoa}
use icecast_proxy_go.Http.{
  Services, metadata_handler, source_handler, listclients_handler, parse_metadata, get_handler,
  main_handler, charset_of, metadata_answer, flushes,
}

-- The exchange ends, and nothing of the server was written but a ClientID at the next free address.
abbrev pub IsHarmless : Outcome Exchange (Unit {0}) → Exchange → Type 0
IsHarmless o x =
    (x' : Exchange) × (o ≡ done tt x')
    × (record (x'.world) { ids = x.world.ids } ≡ x.world)
    × ((j : ℕ) → x.next_id ≢ j → x'.world.ids j ≡ x.world.ids j)

IsHarmless-if :
    (c : Bool) (k l : Go Exchange (Unit {0})) (x : Exchange)
    → IsHarmless (k x) x
    → IsHarmless (l x) x
    → IsHarmless ((if c then k else l) x) x
IsHarmless-if true k l x hk hl = hk
IsHarmless-if false k l x hk hl = hl

module _ (services : Services) (acc : Accounts) (authentication : Bool) (r : Request)
    (x : Exchange) where
  make_auth_handler-anonymous :
      (fn : Request → ℕ → Go Exchange (Unit {0})) (perm : Permission)
      → parse_digest r ≡ ([], [])
      → IsHarmless (make_auth_handler acc authentication fn perm r x) x
  unfolding make_auth_handler authentication_error new_client_id_from_request str_eq
  make_auth_handler-anonymous fn perm none_sent = (
    record x {
      replies =
          x.replies
          ++ set_header (bytes "WWW-Authenticate") (bytes "Basic realm=\"R/a/dio\"")
            ∷ write_header 401
            ∷ write (bytes "401 Unauthorized\n" ++ [])
            ∷ [];
      world = record (x.world) {
        ids = update x.next_id (new_client_id_from_request r) x.world.ids;
      };
      next_id = x.next_id + 1;
    },
    rw (ap (λ (d : Str × Str). str_eq d.1 [] && str_eq d.0 []) none_sent) refl,
    refl,
    λ j n. update_ne x.next_id j (new_client_id_from_request r) x.world.ids n,
  )

  get_handler-anonymous :
      parse_digest r ≡ ([], []) → IsHarmless (get_handler services acc authentication r x) x
  unfolding get_handler
  get_handler-anonymous none_sent =
      IsHarmless-if (str_eq r.path (bytes "/admin/metadata")) _ _ x
        (make_auth_handler-anonymous (metadata_handler services) perm_meta none_sent)
        (IsHarmless-if (str_eq r.path (bytes "/admin/listclients")) _ _ x
          (make_auth_handler-anonymous listclients_handler perm_source none_sent)
          (IsHarmless-if (slice_prefix (bytes "/admin") r.path) _ _ x
            (make_auth_handler-anonymous admin_handler perm_admin none_sent)
            (_, refl, refl, λ j n. refl)))

  -- A request without credentials, or with ones that cannot be read, ends, and changes nothing of
  -- the server but the ClientID at the next free address, which is its own, whatever it asks for
  -- and however the server is set up.
  pub main_handler-anonymous :
      parse_digest r ≡ ([], []) → IsHarmless (main_handler services acc authentication r x) x
  unfolding main_handler
  main_handler-anonymous none_sent =
      IsHarmless-if (str_eq r.method (bytes "SOURCE")) _ _ x
        (make_auth_handler-anonymous (source_handler services) perm_source none_sent)
        (IsHarmless-if (str_eq r.method (bytes "GET")) _ _ x (get_handler-anonymous none_sent)
          (x, refl, refl, λ j n. refl))

module _ (services : Services) (r : Request) (id : ℕ) (x : Exchange) where
  -- A metadata request with a song that converts to some text puts one packet behind the others in
  -- the channel, if that has room: with the text, for the ClientID of the request and not seen yet.
  -- Nothing else of the server changes, and the request is answered with the fixed text and its
  -- length.
  pub metadata_handler-sends :
      (c d : ℕ) (song meta : Str)
      → r.query (bytes "song") ≡ c ∷ song
      → parse_metadata services (charset_of (r.query (bytes "charset"))) (c ∷ song) ≡ d ∷ meta
      → length x.world.manager.meta_chan < meta_cap
      → (x' : Exchange) × (metadata_handler services r id x ≡ done tt x')
        × (x'.world ≡ record (x.world) {
          manager = record (x.world.manager) {
            meta_chan =
                x.world.manager.meta_chan
                ++ record { payload = d ∷ meta; id = id; seen = false } ∷ [];
          };
        })
        × (x'.replies
            ≡ x.replies
              ++ set_header (bytes "Content-Length") (itoa (length metadata_answer))
                ∷ write metadata_answer
                ∷ [])
  unfolding metadata_handler
  metadata_handler-sends c d song meta asked parsed room = (
    record x {
      replies =
          x.replies
          ++ set_header (bytes "Content-Length") (itoa (length metadata_answer))
            ∷ write metadata_answer
            ∷ [];
      world = record (x.world) {
        manager = record (x.world.manager) {
          meta_chan =
              x.world.manager.meta_chan
              ++ record { payload = d ∷ meta; id = id; seen = false } ∷ [];
        };
      };
    },
    ground (arith, asked, parsed, room),
    refl,
    refl,
  )

  -- A source request on a connection that can be taken over puts a new client with that connection
  -- and the request's ClientID behind the others in the manager's channel, if that has room; the
  -- other clients stay.
  pub source_handler-receives :
      (conn : ℕ)
      → services.is_hijacker ≡ true
      → services.hijack ≡ inr conn
      → length x.world.manager.receiver < receiver_cap
      → (x' : Exchange) × (source_handler services r id x ≡ done tt x')
        × (x'.world.manager.receiver ≡ x.world.manager.receiver ++ x.next_client ∷ [])
        × (x'.world.clients x.next_client ≡ new_client conn id)
        × ((j : ℕ) → x.next_client ≢ j → x'.world.clients j ≡ x.world.clients j)
  unfolding source_handler
  source_handler-receives conn hijacker hijacked room = (
    record x {
      replies = x.replies ++ write_header 200 ∷ write (bytes "\r\n") ∷ flushes services.is_flusher;
      world = record (x.world) {
        clients = update x.next_client (new_client conn id) x.world.clients;
        manager = record (x.world.manager) {
          receiver = x.world.manager.receiver ++ x.next_client ∷ [];
        };
      };
      next_client = x.next_client + 1;
    },
    ground (arith, hijacker, hijacked, room),
    refl,
    update_self x.next_client (new_client conn id) x.world.clients,
    λ j n. update_ne x.next_client j (new_client conn id) x.world.clients n,
  )
