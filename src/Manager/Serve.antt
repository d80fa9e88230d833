-- ===== src/Manager/Serve.antt =====
-- The other cases of the select statement in ProcessClients.
pub mod Laws
pub mod Metadata
pub mod Clients
use icecast_proxy_go.Prelude.{
  ℕ, Bool, true, false, List, [], ◌∷◌, ◌++◌, Option, none, some, Str, bytes, ◌==◌, if◌then◌else◌,
  lookup, insert, text_eq, nat_eq, str_eq, Go, ◌>>=◌, ◌>>◌, skip, panic, gets, modify, update,
}
use icecast_proxy_go.ClientHash.{hash}
use icecast_proxy_go.Config.{Yaml}
use icecast_proxy_go.Container.{get_by_hash}
use icecast_proxy_go.Handlers.{handle_client_connect, handle_metadata}
use icecast_proxy_go.Mount.{handle_data, on_shout}
use icecast_proxy_go.Shout.{LibShout, send_metadata}
use icecast_proxy_go.World.{
  MetaPack, DataPack, ErrPack, World, at_mount, on_manager, on_handlers, id_of, mount_name,
}
use icecast_proxy_go.Manager.{is_active}
use icecast_proxy_go.Manager.Add.{add_client}
use icecast_proxy_go.Manager.Remove.{remove_client}

-- `client.Metadata = meta`
abbrev pub set_metadata : ℕ → Str → Go World (Unit {0})
set_metadata client meta = modify λ w. record w {
  clients = update client (record (w.clients client) { metadata = meta }) w.clients;
}

-- Removal, then the log line, which calls Error on the packet's error.
unfoldable pub on_error : ErrPack → Go World (Unit {0})
on_error pack = do
  remove_client pack.client
  elim pack.err [ none ↦ panic (bytes "nil pointer dereference") | some text ↦ skip ]

abbrev pub on_tick : Go World (Unit {0})
on_tick = on_manager (modify (λ r. record r { meta_store = [] }))

module _ (lib : LibShout) where
  unfoldable pub on_data : DataPack → Go World (Unit {0})
  on_data pack = do
    name ← gets (λ w. mount_name w pack.client)
    found ← gets (λ w. lookup name w.manager.mounts)
    elim found [
      | none ↦ skip
      | some m ↦ do
        id ← gets (λ w. id_of w pack.client)
        active ← gets (λ w. (w.mount_at m).active)
        if is_active active id then at_mount m (handle_data lib pack.payload) else skip
    ]

  -- Metadata of the live client: held back for a second, then sent.
  unfoldable pub live_meta : ℕ → MetaPack → ℕ → Go World (Unit {0})
  live_meta m meta client = do
    set_metadata client meta.payload
    if meta.seen then (do at_mount m (on_shout (send_metadata lib meta.payload)); skip) else (do
      modify (λ w. record w {
        sleepers = w.sleepers ++ (w.generation, record meta { seen = true }) ∷ [];
      })
      on_handlers (handle_metadata client meta.payload))

  -- The metadata case for a mount that is there, `active` its live client.
  unfoldable pub mount_meta : ℕ → MetaPack → ℕ → Go World (Unit {0})
  mount_meta m meta active = do
    meta_hash ← gets (λ w. hash (w.ids meta.id))
    active_hash ← gets (λ w. hash (w.ids active))
    if active_hash == meta_hash
        then (do
          client ← gets (λ w. get_by_hash w.ids (w.mount_at m).clients active_hash)
          elim client [ none ↦ skip | some c ↦ live_meta m meta c ])
        else (do
          client ← gets (λ w. get_by_hash w.ids (w.mount_at m).clients meta_hash)
          elim client [
            | none ↦ skip
            | some c ↦ (do
              set_metadata c meta.payload
              on_handlers (handle_metadata c meta.payload))
          ])

  unfoldable pub on_meta : MetaPack → Go World (Unit {0})
  on_meta meta = do
    meta_hash ← gets (λ w. hash (w.ids meta.id))
    found ← gets (λ w. lookup (w.ids meta.id).mount w.manager.mounts)
    elim found [
      | none ↦
          on_manager
            (modify (λ r. record r { meta_store = insert meta_hash meta.payload r.meta_store }))
      | some m ↦ do
        active ← gets (λ w. (w.mount_at m).active)
        elim active [
          | none ↦ panic (bytes "nil pointer dereference")
          | some id ↦ mount_meta m meta id
        ]
    ]

  module _ (yaml : Yaml) where
    -- A new client: added and read from, or removed again.
    unfoldable pub on_client : ℕ → Go World (Unit {0})
    on_client client = do
      err ← add_client lib yaml client
      elim err [
        | some text ↦ remove_client client
        | none ↦ do
          name ← gets (λ w. mount_name w client)
          on_handlers (handle_client_connect name client)
          modify (λ w. record w { readers = w.readers ++ client ∷ [] })
      ]
