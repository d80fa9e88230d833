-- ===== src/Tests/Requests.antt =====
-- The theorems on requests and the configuration at concrete inputs.
use icecast_proxy_go.Prelude.{
  ℕ, ℤ, ◌≤◌, ◌≡◌, ◌≢◌, ◌⊎◌, refl, inr, Bool, true, false, [], ◌∷◌, ◌++◌, Option, none, some, Str,
  bytes, arith, str_eq, lookup, text_eq, nat_eq, done, panicked, blocked, ◌>>◌, update, length,
}
use icecast_proxy_go.Http.Permissions.Laws.{IsWithin}
use icecast_proxy_go.Http.Version
use icecast_proxy_go.Http.Version.{
  big, parse_http_version, scan_digits, strip_prefix, read_request_line,
}
use icecast_proxy_go.Start.{HttpServer, main, initialize}
use icecast_proxy_go.Start.Laws.{IsConnected}
use icecast_proxy_go.Text.{cut, split_n, contains, to_lower}
use icecast_proxy_go.Base64.Laws.{encode, digit}
use icecast_proxy_go.Client.{LoginStatus, ClientId, perm_admin, rank, new_permission, new_client}
use icecast_proxy_go.Handlers.{handle_client_connect}
use icecast_proxy_go.Config.{
  server_address, Yaml, init_config, address_from, create_database_dsn, get_string, params_from,
}
use icecast_proxy_go.Shout.Options.{atoi, digits_value}
use icecast_proxy_go.Http.Admin.Pages.{IsPart, row}
use icecast_proxy_go.Auth.{
  new_client_id_from_request, Exchange, login, login_client, fetch_user, named_source, parse_digest,
  init_auth, make_auth_handler, put_id, authentication_error, set_header, write_header, write,
}
use icecast_proxy_go.Http.{
  metadata_handler, metadata_answer, source_handler, main_handler, parse_metadata,
}
use icecast_proxy_go.Http.Laws.{IsHarmless}
use icecast_proxy_go.Http.Text.{itoa, itoa_from, slice_prefix}
use icecast_proxy_go.Http.Admin.{admin_handler}
use icecast_proxy_go.Samples.{
  whole_yaml, person, quiet, accounts, ann_request, nobody_request, song_request, kick_request,
  idle_exchange, services,
}
use icecast_proxy_go.Http.Permissions.Laws.{main_handler-IsWithin}
use icecast_proxy_go.Auth.Laws.{
  make_auth_handler-guards, login_sound, parse_digest-encode, login-source,
}
use icecast_proxy_go.Http.Laws.{
  main_handler-anonymous, metadata_handler-sends, source_handler-receives,
}
use icecast_proxy_go.Start.Laws.{main_ready}
use icecast_proxy_go.Http.Version.Laws.{
  read_request_line-ice, parse_http_version-print, parse_http_version-le,
}
use icecast_proxy_go.Http.Admin.Pages.{admin_handler-shows}
use icecast_proxy_go.Http.Admin.Laws.{admin_handler-kicks, admin_handler-deadlocks}

make_auth_handler-guards_example :
    ((user : ClientId) × (login accounts true (new_client_id_from_request ann_request)
        ≡ (none, user))
      × (rank perm_admin ≤ rank user.perm)
      × (make_auth_handler accounts true admin_handler perm_admin ann_request idle_exchange
          ≡ (do put_id idle_exchange.next_id user; admin_handler ann_request idle_exchange.next_id)
              idle_exchange))
    ⊎ ((user : ClientId) × (err : Option LoginStatus) × (make_auth_handler accounts true
            admin_handler perm_admin ann_request idle_exchange
          ≡ (do put_id idle_exchange.next_id user; authentication_error err) idle_exchange))
make_auth_handler-guards_example =
    make_auth_handler-guards accounts true admin_handler perm_admin ann_request idle_exchange

login_sound_example :
    (hash : Str) × (perm : ℤ) × (accounts.row (to_lower (named_source (person (bytes "ann"))).name)
      ≡ some (hash, perm))
    × (accounts.matches hash (named_source (person (bytes "ann"))).pass ≡ true)
    × ((person (bytes "ann")).perm ≡ new_permission perm)
unfolding login login_client fetch_user named_source contains split_n to_lower new_permission str_eq
login_sound_example = login_sound accounts (person (bytes "ann")) (person (bytes "ann")) refl

main_handler-anonymous_example :
    IsHarmless (main_handler services accounts true nobody_request idle_exchange) idle_exchange
unfolding parse_digest split_n cut str_eq
main_handler-anonymous_example =
    main_handler-anonymous services accounts true nobody_request idle_exchange refl

parse_digest-encode_example : parse_digest ann_request ≡ ((bytes "ann"), (bytes "pw"))
unfolding encode digit str_eq
parse_digest-encode_example =
    parse_digest-encode ann_request (bytes "ann") (bytes "pw") refl (ground arith) (ground arith)

abbrev ann_source : ClientId
ann_source = record (person (bytes "source")) { pass = bytes "ann|pw" }

login-source_example :
    login accounts true ann_source
    ≡ login_client accounts (record ann_source { name = (bytes "ann"); pass = (bytes "pw") })
login-source_example =
    login-source accounts ann_source (bytes "ann") (bytes "pw") refl refl (ground arith)

metadata_handler-sends_example :
    (x' : Exchange) × (metadata_handler services song_request 1 idle_exchange ≡ done tt x')
    × (x'.world ≡ record (idle_exchange.world) {
      manager = record (idle_exchange.world.manager) {
        meta_chan =
            idle_exchange.world.manager.meta_chan
            ++ record { payload = b'l' ∷ (bytes "a"); id = 1; seen = false } ∷ [];
      };
    })
    × (x'.replies
        ≡ idle_exchange.replies
          ++ set_header (bytes "Content-Length") (itoa (length metadata_answer))
            ∷ write metadata_answer
            ∷ [])
unfolding parse_metadata str_eq
metadata_handler-sends_example =
    metadata_handler-sends services song_request 1 idle_exchange b'l' b'l' (bytes "a") (bytes "a")
      refl refl (omega arith)

source_handler-receives_example :
    (x' : Exchange) × (source_handler services ann_request 1 idle_exchange ≡ done tt x')
    × (x'.world.manager.receiver
        ≡ idle_exchange.world.manager.receiver ++ idle_exchange.next_client ∷ [])
    × (x'.world.clients idle_exchange.next_client ≡ new_client 8 1)
    × ((j : ℕ) → idle_exchange.next_client ≢ j → x'.world.clients j ≡ idle_exchange.world.clients j)
source_handler-receives_example =
    source_handler-receives services ann_request 1 idle_exchange 8 refl refl (omega arith)

admin_handler-kicks_example :
    admin_handler (kick_request (bytes "1")) 1 idle_exchange
    ≡ done tt (record idle_exchange {
      replies =
          idle_exchange.replies
          ++ set_header (bytes "Location") (bytes "/admin") ∷ write_header 301 ∷ [];
      world = record (idle_exchange.world) {
        closed = update (idle_exchange.world.clients 2).conn true idle_exchange.world.closed;
      };
    })
unfolding lookup str_eq itoa itoa_from
admin_handler-kicks_example =
    admin_handler-kicks (kick_request (bytes "1")) 1 1 2 (1 ∷ 2 ∷ []) idle_exchange
      (refl, refl, refl) refl (omega arith) refl

admin_handler-deadlocks_example :
    (x' : Exchange) × (admin_handler (kick_request (bytes "7")) 1 idle_exchange
      ≡ panicked (bytes "index out of range") x')
    × (handle_client_connect (bytes "/main") 3 x'.world.handlers ≡ blocked x'.world.handlers)
unfolding lookup str_eq atoi digits_value
admin_handler-deadlocks_example =
    admin_handler-deadlocks (kick_request (bytes "7")) 1 7 3 (1 ∷ 2 ∷ []) (bytes "/main")
      idle_exchange (refl, refl, refl) refl (omega arith)

admin_handler-shows_example :
    (page : Str) × (admin_handler (record ann_request { path = bytes "/admin" }) 1 idle_exchange
      ≡ done tt (record idle_exchange { replies = idle_exchange.replies ++ write page ∷ [] }))
    × IsPart (row idle_exchange.world (bytes "/main") 1 2) page
unfolding lookup str_eq
admin_handler-shows_example =
    admin_handler-shows (record ann_request { path = bytes "/admin" }) 1 1 2 (1 ∷ 2 ∷ [])
      (bytes "/main") idle_exchange refl refl refl refl

main_handler-IsWithin_example :
    IsWithin accounts true ann_request idle_exchange
      (main_handler services accounts true ann_request idle_exchange)
main_handler-IsWithin_example =
    main_handler-IsWithin services accounts true ann_request idle_exchange

parse_http_version-le_example : (1 ≤ big) × (23 ≤ big)
unfolding parse_http_version Version.atoi scan_digits strip_prefix slice_prefix
parse_http_version-le_example = parse_http_version-le (bytes "HTTP/1.23") 1 23 refl

parse_http_version-print_example :
    parse_http_version (bytes "HTTP/" ++ (itoa 1 ++ (b'.' ∷ itoa 10))) ≡ some (1, 10)
parse_http_version-print_example = parse_http_version-print 1 10 (omega arith) (omega arith)

read_request_line-ice_example :
    read_request_line
      (bytes "SOURCE" ++ (b' ' ∷ (bytes "/main" ++ (b' ' ∷ (bytes "ICE/" ++ (b'1' ∷ bytes ".0"))))))
    ≡ inr (record {
      method = bytes "SOURCE";
      request_uri = bytes "/main";
      proto = bytes "ICE/" ++ (b'1' ∷ bytes ".0");
      proto_major = 1;
      proto_minor = 0;
    })
read_request_line-ice_example =
    read_request_line-ice (bytes "SOURCE") (bytes "/main") (bytes ".0") b'1' (ground arith)
      (ground arith)

abbrev port_80 : HttpServer
port_80 = record {
  addr = bytes "h:80";
  handler = main_handler services accounts true;
  read_timeout = 10;
  write_timeout = 5;
}

main_ready_example :
    (yaml : Yaml) × (◌≡◌ {A = Str ⊎ Yaml} (inr whole_yaml) (inr yaml))
    × (server_address yaml quiet ≡ done (bytes "h:80") quiet)
    × (main_handler services accounts true ≡ main_handler services accounts true)
    × (◌≡◌ {A = Bool} true true → IsConnected accounts yaml quiet)
    × (quiet ≡ quiet)
unfolding main initialize init_auth init_config server_address address_from create_database_dsn
    get_string params_from lookup str_eq
main_ready_example =
    main_ready accounts services (λ f. f) (λ path. inr whole_yaml) (λ path. none) quiet quiet
      port_80 refl
