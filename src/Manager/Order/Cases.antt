-- ===== src/Manager/Order/Cases.antt =====
-- The cases of the select statement keep the order.
use icecast_proxy_go.Prelude.{
  bind-Preserves, gets-Preserves, if-Preserves, option-Preserves, panic-Preserves, skip-Preserves,
  ℕ, refl, ap, true, List, [], ◌∷◌, ◌++◌, Option, none, some, Str, ◌==◌, if◌then◌else◌, ◌>>=◌, ◌>>◌,
  lookup, insert, delete, text_eq, nat_eq, Outcome, state_of, done, panicked, blocked, skip, modify,
  gets, panic, bytes,
}
use icecast_proxy_go.ClientHash.{hash}
use icecast_proxy_go.Config.{Yaml}
use icecast_proxy_go.Container.{get_by_hash}
use icecast_proxy_go.Handlers.{handle_client_connect, handle_metadata}
use icecast_proxy_go.Mount.{handle_data}
use icecast_proxy_go.Mount.Laws.{handle_data_frame}
use icecast_proxy_go.Shout.{LibShout}
use icecast_proxy_go.World.{
  World, MetaPack, DataPack, ErrPack, at_mount, on_manager, on_handlers, id_of, mount_name,
}
use icecast_proxy_go.Manager.{is_active}
use icecast_proxy_go.Manager.Add.{add_client}
use icecast_proxy_go.Manager.Remove.{
  remove_client, close_all, destroy_mount, destroy_mounts, on_collect,
}
use icecast_proxy_go.Manager.Serve.{
  on_data, on_meta, on_error, on_tick, on_client, live_meta, mount_meta, set_metadata,
}
use icecast_proxy_go.Manager.Order.{roster, InOrder, KeepsOrder}
use icecast_proxy_go.Manager.Order.Steps.{
  modify-KeepsOrder, ordering, at_mount-KeepsOrder, modify-KeepsOrder,
}
use icecast_proxy_go.Manager.Order.Removes.{remove_client-KeepsOrder}
use icecast_proxy_go.Manager.Order.Adds.{Expects, add_client-InOrder}

hold_back-KeepsOrder :
    {later : List ℕ} (meta : MetaPack)
    → KeepsOrder later (
        modify (λ w. record w {
          sleepers = w.sleepers ++ (w.generation, record meta { seen = true }) ∷ [];
        }))
hold_back-KeepsOrder meta = modify-KeepsOrder _ (λ w. refl) (λ w. refl) (λ w. refl)

store-KeepsOrder :
    {later : List ℕ} (h : ℕ) (meta : Str)
    → KeepsOrder later
        (on_manager (modify (λ r. record r { meta_store = insert h meta r.meta_store })))
store-KeepsOrder h meta = record { apply = λ w s. s }

unmap-KeepsOrder :
    {later : List ℕ} (name : Str)
    → KeepsOrder later (on_manager (modify (λ r. record r { mounts = delete name r.mounts })))
unmap-KeepsOrder name = record { apply = λ w s. s }

pub on_tick-KeepsOrder : {later : List ℕ} → KeepsOrder later on_tick
on_tick-KeepsOrder = record { apply = λ w s. s }

-- The log line of the error case.
log-KeepsOrder :
    {later : List ℕ} (err : Option Str)
    → KeepsOrder later {A = Unit {0}}
        (elim err [ none ↦ panic (bytes "nil pointer dereference") | some text ↦ skip ])
log-KeepsOrder none = panic-Preserves _
log-KeepsOrder (some text) = skip-Preserves

pub on_error-KeepsOrder : {later : List ℕ} (pack : ErrPack) → KeepsOrder later (on_error pack)
unfolding on_error
on_error-KeepsOrder pack =
    bind-Preserves _ _ (remove_client-KeepsOrder pack.client) λ _. log-KeepsOrder pack.err

close_all-KeepsOrder : {later : List ℕ} (cs : List ℕ) → KeepsOrder later (close_all cs)
unfolding close_all
close_all-KeepsOrder [] = skip-Preserves
close_all-KeepsOrder {later} (client ∷ cs) =
    let rest = close_all-KeepsOrder {later = later} cs in search ordering depth 8

module _ (lib : LibShout) where
  destroy_mount-KeepsOrder : {later : List ℕ} (m : ℕ) → KeepsOrder later (destroy_mount lib m)
  unfolding destroy_mount
  destroy_mount-KeepsOrder m = search (ordering, close_all-KeepsOrder) depth 12

  pub destroy_mounts-KeepsOrder :
      {later : List ℕ} (ms : List (Str × ℕ)) → KeepsOrder later (destroy_mounts lib ms)
  unfolding destroy_mounts
  destroy_mounts-KeepsOrder [] = skip-Preserves
  destroy_mounts-KeepsOrder {later} ((name, m) ∷ ms) =
      let rest = destroy_mounts-KeepsOrder {later = later} ms in
      search (ordering, destroy_mount-KeepsOrder) depth 8

  pub on_collect-KeepsOrder : {later : List ℕ} (m : ℕ) → KeepsOrder later (on_collect lib m)
  unfolding on_collect
  on_collect-KeepsOrder m = search (ordering, unmap-KeepsOrder, destroy_mount-KeepsOrder) depth 16

  -- HandleData works on the connection alone.
  handle_data-KeepsOrder :
      {later : List ℕ} (m : ℕ) (payload : Str)
      → KeepsOrder later (at_mount m (handle_data lib payload))
  handle_data-KeepsOrder m payload =
      at_mount-KeepsOrder m (handle_data lib payload)
        λ t. ap roster (handle_data_frame lib payload t)

  live_meta-KeepsOrder :
      {later : List ℕ} (m : ℕ) (meta : MetaPack) (client : ℕ)
      → KeepsOrder later (live_meta lib m meta client)
  unfolding live_meta
  live_meta-KeepsOrder m meta client = search (ordering, hold_back-KeepsOrder) depth 12

  other_meta-KeepsOrder :
      {later : List ℕ} (meta : MetaPack) (client : ℕ)
      → KeepsOrder later
          (do set_metadata client meta.payload; on_handlers (handle_metadata client meta.payload))
  other_meta-KeepsOrder meta client = search ordering depth 6

  mount_meta-KeepsOrder :
      {later : List ℕ} (m : ℕ) (meta : MetaPack) (active : ℕ)
      → KeepsOrder later (mount_meta lib m meta active)
  unfolding mount_meta
  mount_meta-KeepsOrder m meta active =
      bind-Preserves _ _ (gets-Preserves (λ w. hash (w.ids meta.id))) λ meta_hash.
        bind-Preserves _ _ (gets-Preserves (λ w. hash (w.ids active))) λ active_hash.
          if-Preserves (active_hash == meta_hash) _ _
            (bind-Preserves _ _
              (gets-Preserves (λ w. get_by_hash w.ids (w.mount_at m).clients active_hash))
              λ client.
                option-Preserves client skip (live_meta lib m meta) skip-Preserves
                  (live_meta-KeepsOrder m meta))
            (bind-Preserves _ _
              (gets-Preserves (λ w. get_by_hash w.ids (w.mount_at m).clients meta_hash))
              λ client. option-Preserves client skip _ skip-Preserves (other_meta-KeepsOrder meta))

  pub on_meta-KeepsOrder : {later : List ℕ} (meta : MetaPack) → KeepsOrder later (on_meta lib meta)
  unfolding on_meta
  on_meta-KeepsOrder meta =
      bind-Preserves _ _ (gets-Preserves (λ w. hash (w.ids meta.id))) λ meta_hash.
        bind-Preserves _ _ (gets-Preserves (λ w. lookup (w.ids meta.id).mount w.manager.mounts))
          λ found. option-Preserves found _ _ (store-KeepsOrder meta_hash meta.payload) λ m.
            bind-Preserves _ _ (gets-Preserves (λ w. (w.mount_at m).active)) λ active.
              option-Preserves active _ (mount_meta lib m meta)
                (panic-Preserves (bytes "nil pointer dereference")) (mount_meta-KeepsOrder m meta)

  data_for-KeepsOrder :
      {later : List ℕ} (payload : Str) (client m : ℕ)
      → KeepsOrder later (do
        id ← gets (λ w. id_of w client)
        active ← gets (λ w. (w.mount_at m).active)
        if is_active active id then at_mount m (handle_data lib payload) else skip)
  data_for-KeepsOrder payload client m = search (ordering, handle_data-KeepsOrder) depth 10

  pub on_data-KeepsOrder : {later : List ℕ} (pack : DataPack) → KeepsOrder later (on_data lib pack)
  unfolding on_data
  on_data-KeepsOrder pack =
      bind-Preserves _ _ (gets-Preserves (λ w. mount_name w pack.client)) λ name.
        bind-Preserves _ _ (gets-Preserves (λ w. lookup name w.manager.mounts)) λ found.
          option-Preserves found skip _ skip-Preserves
            (data_for-KeepsOrder pack.payload pack.client)

  module _ (yaml : Yaml) where
    read-KeepsOrder :
        {later : List ℕ} (client : ℕ)
        → KeepsOrder later (modify (λ w. record w { readers = w.readers ++ client ∷ [] }))
    read-KeepsOrder client = modify-KeepsOrder _ (λ w. refl) (λ w. refl) (λ w. refl)

    -- After AddClient the client is removed again, or its handler is called and it is read from.
    served-KeepsOrder :
        {later : List ℕ} (client : ℕ) (err : Option Str)
        → KeepsOrder later (elim err [
          | some text ↦ remove_client client
          | none ↦ do
            name ← gets (λ w. mount_name w client)
            on_handlers (handle_client_connect name client)
            modify (λ w. record w { readers = w.readers ++ client ∷ [] })
        ])
    served-KeepsOrder client (some text) = remove_client-KeepsOrder client
    served-KeepsOrder client none = search (ordering, read-KeepsOrder) depth 8

    pub on_client-InOrder :
        (later : List ℕ) (client : ℕ) (w : World)
        → Expects client later w
        → InOrder later (state_of (on_client lib yaml client w))
    unfolding on_client
    on_client-InOrder later client w s =
        by_outcome (add_client lib yaml client w) (add_client-InOrder lib yaml later client w s)
      where
        by_outcome :
            (o : Outcome World (Option Str))
            → InOrder later (state_of o)
            → InOrder later (
                state_of (
                  ((λ _. o) >>= λ err. elim err [
                    | some text ↦ remove_client client
                    | none ↦ do
                      name ← gets (λ w. mount_name w client)
                      on_handlers (handle_client_connect name client)
                      modify (λ w. record w { readers = w.readers ++ client ∷ [] })
                  ])
                    w))
        by_outcome (done err t) h = (served-KeepsOrder client err).apply t h
        by_outcome (panicked e t) h = h
        by_outcome (blocked t) h = h
