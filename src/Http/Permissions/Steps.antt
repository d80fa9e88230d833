-- ===== src/Http/Permissions/Steps.antt =====
-- What each handler of server/http.go changes.
use icecast_proxy_go.Prelude.{
  ℕ, ℤ, pos, negsuc, refl, Bool, true, false, List, [], ◌∷◌, ◌++◌, Option, none, some, Str, bytes,
  inl, inr, ◌⊎◌, if◌then◌else◌, ltb, length, text_eq, Go, state_of, done, blocked, panic, modify,
  get_elem?, update, ◌+◌,
}
use icecast_proxy_go.Client.{
  perm_none, perm_meta, perm_source, perm_admin, LoginStatus, Request, new_client,
}
use icecast_proxy_go.World.{
  MetaPack, World, on_handlers, on_manager, send_meta, close_conn, meta_cap, receiver_cap,
}
use icecast_proxy_go.Handlers.{lock, unlock}
use icecast_proxy_go.Auth.{Exchange, reply, write_header, write, authentication_error}
use icecast_proxy_go.Http.Admin.{on_world, kick_from, kick, admin_handler}
use icecast_proxy_go.Http.{
  Services, send_receiver, receive, flushes, http_error, send_parsed, metadata_for,
  metadata_handler, listclients_handler, source_handler,
}
use icecast_proxy_go.Http.Permissions.{
  Touches, IsTouching, bind-IsTouching, if-IsTouching, reply-IsTouching, skip-IsTouching,
  gets-IsTouching, on_world-IsTouching,
}

-- Requests for metadata.
pub send_meta-Touches :
    (pack : MetaPack) (w : World) → Touches perm_meta w (state_of (send_meta pack w))
send_meta-Touches pack w = by_room (ltb (length w.manager.meta_chan) meta_cap)
  where
    by_room :
        (b : Bool)
        → Touches perm_meta w (
            state_of (
              on_manager
                (λ m. elim b [
                  | true ↦ done tt (record m { meta_chan = m.meta_chan ++ pack ∷ [] })
                  | false ↦ blocked m
                ])
                w))
    by_room true = refl
    by_room false = refl

pub send_receiver-Touches :
    (client : ℕ) (w : World) → Touches perm_source w (state_of (send_receiver client w))
send_receiver-Touches client w = by_room (ltb (length w.manager.receiver) receiver_cap)
  where
    by_room :
        (b : Bool)
        → Touches perm_source w (
            state_of (
              on_manager
                (λ m. elim b [
                  | true ↦ done tt (record m { receiver = m.receiver ++ client ∷ [] })
                  | false ↦ blocked m
                ])
                w))
    by_room true = refl
    by_room false = refl

pub lock-Touches : (w : World) → Touches perm_admin w (state_of (on_handlers lock w))
lock-Touches w = by_lock w.handlers.locked
  where
    by_lock :
        (b : Bool)
        → Touches perm_admin w (
            state_of (
              on_handlers
                (λ s. elim b [ true ↦ blocked s | false ↦ done tt (record s { locked = true }) ])
                w))
    by_lock true = refl
    by_lock false = refl

pub kick_from-Touches :
    (found : Option (List ℕ)) (num : Option ℤ) (w : World)
    → Touches perm_admin w (state_of (kick_from found num w))
kick_from-Touches found none w = refl
kick_from-Touches none (some i) w = refl
kick_from-Touches (some clients) (some (negsuc n)) w = refl
kick_from-Touches (some clients) (some (pos n)) w = by_client (get_elem? clients n)
  where
    by_client :
        (o : Option ℕ)
        → Touches perm_admin w (
            state_of (
              (elim o as (λ _. Go World (Unit {0})) [
                | none ↦ panic (bytes "index out of range")
                | some client ↦ close_conn client
              ])
                w))
    by_client none = refl
    by_client (some client) = refl

pub kick_from-IsTouching :
    (found : Option (List ℕ)) (num : Option ℤ)
    → IsTouching perm_admin (on_world (kick_from found num))
kick_from-IsTouching found num = on_world-IsTouching _ (kick_from-Touches found num)

pub lock-IsTouching : IsTouching perm_admin (on_world (on_handlers lock))
lock-IsTouching = on_world-IsTouching (on_handlers lock) lock-Touches

pub unlock-IsTouching : IsTouching perm_admin (on_world (on_handlers unlock))
unlock-IsTouching = on_world-IsTouching (on_handlers unlock) (λ w. refl)

pub send_receiver-IsTouching :
    (client : ℕ) → IsTouching perm_source (on_world (send_receiver client))
send_receiver-IsTouching client = on_world-IsTouching _ (send_receiver-Touches client)

pub put_client-IsTouching :
    (client conn id : ℕ)
    → IsTouching perm_source (
        modify (λ x. record x {
          world = record (x.world) { clients = update client (new_client conn id) x.world.clients };
          next_client = client + 1;
        }))
put_client-IsTouching client conn id = record { apply = λ x. refl }

ruleset touching =
    (bind-IsTouching, if-IsTouching, reply-IsTouching, skip-IsTouching, gets-IsTouching)

pub kick-IsTouching : (r : Request) → IsTouching perm_admin (kick r)
unfolding kick
kick-IsTouching r = search (touching, kick_from-IsTouching) depth 12

pub admin_handler-IsTouching : (r : Request) (id : ℕ) → IsTouching perm_admin (admin_handler r id)
unfolding admin_handler
admin_handler-IsTouching r id =
    search (touching, kick-IsTouching, lock-IsTouching, unlock-IsTouching) depth 14

pub listclients_handler-IsTouching :
    (r : Request) (id : ℕ) → IsTouching perm_source (listclients_handler r id)
unfolding listclients_handler
listclients_handler-IsTouching r id = search touching depth 12

module _ (services : Services) where
  pub send_parsed-IsTouching : (meta : Str) (id : ℕ) → IsTouching perm_meta (send_parsed meta id)
  send_parsed-IsTouching [] id = skip-IsTouching
  send_parsed-IsTouching (c ∷ s) id = on_world-IsTouching _ (send_meta-Touches _)

  pub metadata_for-IsTouching :
      (song : Str) (r : Request) (id : ℕ) → IsTouching perm_meta (metadata_for services song r id)
  metadata_for-IsTouching [] r id = skip-IsTouching
  metadata_for-IsTouching (c ∷ song) r id = search (touching, send_parsed-IsTouching) depth 12

  pub metadata_handler-IsTouching :
      (r : Request) (id : ℕ) → IsTouching perm_meta (metadata_handler services r id)
  unfolding metadata_handler
  metadata_handler-IsTouching r id = metadata_for-IsTouching (r.query (bytes "song")) r id

  pub receive-IsTouching : (conn id : ℕ) → IsTouching perm_source (receive conn id)
  receive-IsTouching conn id =
      search (touching, send_receiver-IsTouching, put_client-IsTouching) depth 14

  pub hijacked-IsTouching :
      (id : ℕ) (o : Str ⊎ ℕ)
      → IsTouching perm_source (elim o as (λ _. Go Exchange (Unit {0})) [
        | inl text ↦ http_error text 500
        | inr conn ↦ receive conn id
      ])
  hijacked-IsTouching id (inl text) = record { apply = λ x. refl }
  hijacked-IsTouching id (inr conn) = receive-IsTouching conn id

  pub source_handler-IsTouching :
      (r : Request) (id : ℕ) → IsTouching perm_source (source_handler services r id)
  unfolding source_handler
  source_handler-IsTouching r id =
      bind-IsTouching
        (reply (write_header 200 ∷ write (bytes "\r\n") ∷ flushes services.is_flusher))
        (λ _.
          if services.is_hijacker
          then (elim services.hijack [
            | inl text ↦ http_error text 500
            | inr conn ↦ receive conn id
          ])
          else http_error (bytes "Webserver doesn't support hijacking.") 500)
        (reply-IsTouching _)
        λ _.
          if-IsTouching services.is_hijacker _ _ (hijacked-IsTouching id services.hijack)
            (record { apply = λ x. refl })

pub authentication_error-IsTouching :
    (err : Option LoginStatus) → IsTouching perm_none (authentication_error err)
unfolding authentication_error
authentication_error-IsTouching err = record { apply = λ x. refl }
