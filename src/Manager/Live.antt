-- ===== src/Manager/Live.antt =====
-- SwapLiveClient and NextLiveClient.
pub mod Laws
use icecast_proxy_go.Prelude.{
  ℕ, Bool, false, true, List, [], ◌∷◌, Option, none, some, ◌==◌, if◌then◌else◌, Go, ◌>>=◌, ◌>>◌,
  skip, gets, modify,
}
use icecast_proxy_go.Container.{get_by_id}
use icecast_proxy_go.Handlers.{handle_client_live, handle_client_unlive}
use icecast_proxy_go.Mount.{Mount}
use icecast_proxy_go.World.{World, at_mount, on_handlers, send_meta, id_of, mount_name}
use icecast_proxy_go.Manager.{is_active}

-- GetByID of the live identifier, which finds nothing for a nil pointer.
abbrev pub old_live_client : Mount → Option ℕ
old_live_client t = elim t.active [ none ↦ none | some id ↦ get_by_id t.clients id ]

abbrev pub unlive : Option ℕ → Go World (Unit {0})
unlive none = skip
unlive (some client) = on_handlers (handle_client_unlive client)

unfoldable pub swap_live_client : ℕ → ℕ → Go World (Unit {0})
swap_live_client m client = do
  id ← gets (λ w. id_of w client)
  active ← gets (λ w. (w.mount_at m).active)
  if is_active active id then skip else (do
    old ← gets (λ w. old_live_client (w.mount_at m))
    at_mount m (modify (λ t. record t { active = some id }))
    unlive old
    name ← gets (λ w. mount_name w client)
    on_handlers (handle_client_live name client)
    metadata ← gets (λ w. (w.clients client).metadata)
    send_meta (record { payload = metadata; id = id; seen = false }))

-- The loop of NextLiveClient, over what the queue holds: nobody else receives from it or sends to
-- it meanwhile.
unfoldable pub next_live_from : ℕ → List ℕ → Go World (Unit {0})
next_live_from m [] = skip
next_live_from m (new_id ∷ queue) = do
  at_mount m (modify (λ t. record t { client_queue = queue }))
  found ← gets (λ w. get_by_id (w.mount_at m).clients new_id)
  elim found [
    | none ↦ next_live_from m queue
    | some new_client ↦ do
      id ← gets (λ w. id_of w new_client)
      elim (id == new_id) [ true ↦ swap_live_client m new_client | false ↦ next_live_from m queue ]
  ]

unfoldable pub next_live_client : ℕ → Go World (Unit {0})
next_live_client m = do queue ← gets (λ w. (w.mount_at m).client_queue); next_live_from m queue
