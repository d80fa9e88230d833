-- ===== src/Manager/Add/Laws.antt =====
-- What AddClient makes of a client, for a new mount and for one that is there.
use icecast_proxy_go.Prelude.{
  ℕ, ◌≡◌, ◌≢◌, ◌<◌, ◌≤◌, [], ◌∷◌, ◌++◌, Option, none, some, Str, arith, done, panicked, length,
  update, update_self, update-update, recover-no_panic, lookup, text_eq, nat_eq,
}
use icecast_proxy_go.Config.{Yaml, queue_limit}
use icecast_proxy_go.Container.{add}
use icecast_proxy_go.Mount.{Mount, full_queue}
use icecast_proxy_go.Shout.{LibShout}
use icecast_proxy_go.World.{World, id_of, mount_name}
use icecast_proxy_go.Manager.Add.{join_mount, add_body, add_client}

-- The result is an error or nil, never a panic: it was recovered from.
pub add_client-no_panic :
    (lib : LibShout) (yaml : Yaml) (client : ℕ) (w w' : World) (e : Str)
    → add_client lib yaml client w ≢ panicked e w'
unfolding add_client
add_client-no_panic lib yaml client w w' e =
    recover-no_panic (some full_queue) (add_body lib yaml client) w w' e

-- The mount at `m` with the client listed, and with the client queued too.
abbrev pub with_listed : ℕ → ℕ → World → Mount
with_listed m client w = record (w.mount_at m) {
  clients = add (id_of w client) client (w.mount_at m).clients;
}

abbrev pub with_joined : ℕ → ℕ → World → Mount
with_joined m client w = record (with_listed m client w) {
  client_queue = (w.mount_at m).client_queue ++ id_of w client ∷ [];
}

abbrev pub put_mount : ℕ → Mount → World → World
put_mount m t w = record w { mount_at = update m t w.mount_at }

pub join_mount-room :
    (lib : LibShout) (yaml : Yaml) (m client : ℕ) (w : World)
    → length (w.mount_at m).client_queue < queue_limit
    → join_mount lib yaml m client w ≡ done none (put_mount m (with_joined m client w) w)
unfolding join_mount
join_mount-room lib yaml m client w room = ground (
  arith,
  update_self m (with_listed m client w) w.mount_at,
  update-update m (with_listed m client w) (with_joined m client w) w.mount_at,
)

pub join_mount-full :
    (lib : LibShout) (yaml : Yaml) (m client : ℕ) (w : World)
    → queue_limit ≤ length (w.mount_at m).client_queue
    → join_mount lib yaml m client w
      ≡ done (some full_queue) (put_mount m (with_listed m client w) w)
unfolding join_mount
join_mount-full lib yaml m client w full =
    ground (arith, update_self m (with_listed m client w) w.mount_at)

add_client-found :
    (lib : LibShout) (yaml : Yaml) (client m : ℕ) (w w' : World) (r : Option Str)
    → lookup (mount_name w client) w.manager.mounts ≡ some m
    → join_mount lib yaml m client w ≡ done r w'
    → add_client lib yaml client w ≡ done r w'
unfolding add_client add_body
add_client-found lib yaml client m w w' r found e = ground arith

pub add_client-joined :
    (lib : LibShout) (yaml : Yaml) (client m : ℕ) (w : World)
    → lookup (mount_name w client) w.manager.mounts ≡ some m
    → length (w.mount_at m).client_queue < queue_limit
    → add_client lib yaml client w ≡ done none (put_mount m (with_joined m client w) w)
add_client-joined lib yaml client m w found room =
    add_client-found lib yaml client m w _ none found (join_mount-room lib yaml m client w room)

pub add_client-refused :
    (lib : LibShout) (yaml : Yaml) (client m : ℕ) (w : World)
    → lookup (mount_name w client) w.manager.mounts ≡ some m
    → queue_limit ≤ length (w.mount_at m).client_queue
    → add_client lib yaml client w ≡ done (some full_queue) (put_mount m (with_listed m client w) w)
add_client-refused lib yaml client m w found full =
    add_client-found lib yaml client m w _ (some full_queue) found
      (join_mount-full lib yaml m client w full)

-- A client for a mount that is there and has room in its queue is added behind the others in the
-- queue and to the list of clients; the live client and the other mounts stay.
pub add_client-joins :
    (lib : LibShout) (yaml : Yaml) (client m : ℕ) (w : World)
    → lookup (mount_name w client) w.manager.mounts ≡ some m
    → length (w.mount_at m).client_queue < queue_limit
    → (w' : World) × (add_client lib yaml client w ≡ done none w')
      × ((w'.mount_at m).client_queue ≡ (w.mount_at m).client_queue ++ id_of w client ∷ [])
      × ((w'.mount_at m).active ≡ (w.mount_at m).active)
      × ((w'.mount_at m).clients ≡ add (id_of w client) client (w.mount_at m).clients)
      × ((j : ℕ) → m ≢ j → w'.mount_at j ≡ w.mount_at j)
unfolding update
add_client-joins lib yaml client m w found room = (
  put_mount m (with_joined m client w) w,
  add_client-joined lib yaml client m w found room,
  ground arith,
  ground arith,
  ground arith,
  λ j n. ground arith,
)

-- A client for a mount whose queue is full is refused, and neither the queue nor the live client
-- changes; the client stays listed.
pub add_client-refuses :
    (lib : LibShout) (yaml : Yaml) (client m : ℕ) (w : World)
    → lookup (mount_name w client) w.manager.mounts ≡ some m
    → queue_limit ≤ length (w.mount_at m).client_queue
    → (w' : World) × (add_client lib yaml client w ≡ done (some full_queue) w')
      × ((w'.mount_at m).client_queue ≡ (w.mount_at m).client_queue)
      × ((w'.mount_at m).active ≡ (w.mount_at m).active)
      × ((w'.mount_at m).clients ≡ add (id_of w client) client (w.mount_at m).clients)
unfolding update
add_client-refuses lib yaml client m w found full = (
  put_mount m (with_listed m client w) w,
  add_client-refused lib yaml client m w found full,
  ground arith,
  ground arith,
  ground arith,
)
