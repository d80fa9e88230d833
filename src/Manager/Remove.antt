-- ===== src/Manager/Remove.antt =====
-- RemoveClient, DestroyMount, and the collection of a mount in ProcessClients.
pub mod Laws
pub mod Collect
use icecast_proxy_go.Prelude.{
  ℕ, Bool, List, [], ◌∷◌, Option, none, some, Str, bytes, ◌==◌, if◌then◌else◌, lookup, delete,
  text_eq, str_eq, Go, ◌>>=◌, ◌>>◌, skip, panic, gets, modify,
}
use icecast_proxy_go.Container.{remove, is_positive, clients_of}
use icecast_proxy_go.Handlers.{handle_client_disconnect}
use icecast_proxy_go.Mount.{on_shout}
use icecast_proxy_go.Shout.{LibShout, close, destroy_shout}
use icecast_proxy_go.World.{
  World, at_mount, on_manager, on_handlers, send_collector, id_of, mount_name, close_conn,
}
use icecast_proxy_go.Manager.{is_active}
use icecast_proxy_go.Manager.Live.{next_live_client}

-- RemoveClient behind the switch to the next live client.
unfoldable pub drop_client : ℕ → ℕ → Go World (Unit {0})
drop_client m client = do
  id ← gets (λ w. id_of w client)
  at_mount m (modify (λ t. record t { clients = remove id t.clients }))
  close_conn client
  name ← gets (λ w. mount_name w client)
  on_handlers (handle_client_disconnect name client)
  left ← gets (λ w. (w.mount_at m).clients.length)
  if left == 0 then send_collector m else skip

unfoldable pub remove_from : ℕ → ℕ → Go World (Unit {0})
remove_from m client = do
  id ← gets (λ w. id_of w client)
  active ← gets (λ w. (w.mount_at m).active)
  if is_active active id then next_live_client m else skip
  drop_client m client

unfoldable pub remove_client : ℕ → Go World (Unit {0})
remove_client client = do
  name ← gets (λ w. mount_name w client)
  found ← gets (λ w. lookup name w.manager.mounts)
  elim found [ none ↦ panic (bytes "Unexisting mountpoint") | some m ↦ remove_from m client ]

-- ClientContainer.Destroy: every connection is closed.
unfoldable pub close_all : List ℕ → Go World (Unit {0})
close_all [] = skip
close_all (client ∷ cs) = do close_conn client; close_all cs

module _ (lib : LibShout) where
  unfoldable pub destroy_mount : ℕ → Go World (Unit {0})
  destroy_mount m = do
    at_mount m (on_shout (destroy_shout lib))
    cs ← gets (λ w. clients_of (w.mount_at m).clients)
    close_all cs

  -- The case of MountCollector.
  unfoldable pub on_collect : ℕ → Go World (Unit {0})
  on_collect m = do
    left ← gets (λ w. (w.mount_at m).clients.length)
    if is_positive left then skip else (do
      at_mount m (on_shout (close lib))
      name ← gets (λ w. (w.mount_at m).mount)
      on_manager (modify (λ r. record r { mounts = delete name r.mounts }))
      destroy_mount m)

  -- The loop of DestroyManager.
  unfoldable pub destroy_mounts : List (Str × ℕ) → Go World (Unit {0})
  destroy_mounts [] = skip
  destroy_mounts ((name, m) ∷ ms) = do destroy_mount m; destroy_mounts ms
