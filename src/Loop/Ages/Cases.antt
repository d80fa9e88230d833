-- ===== src/Loop/Ages/Cases.antt =====
-- The cases of the select statement start no manager, and hold metadata back for the present one.
use icecast_proxy_go.Prelude.{
  ℕ, List, [], ◌∷◌, Option, none, some, Str, ◌==◌, if◌then◌else◌, lookup, insert, text_eq, nat_eq,
  ◌>>=◌, ◌>>◌, skip, gets, panic, modify, bytes, bind-Preserves, if-Preserves, bool-Preserves,
  option-Preserves, skip-Preserves, gets-Preserves, panic-Preserves,
}
use icecast_proxy_go.ClientHash.{hash}
use icecast_proxy_go.Container.{get_by_id, get_by_hash}
use icecast_proxy_go.Handlers.{handle_client_unlive, handle_metadata}
use icecast_proxy_go.Mount.{handle_data}
use icecast_proxy_go.Shout.{LibShout}
use icecast_proxy_go.World.{MetaPack, DataPack, ErrPack, at_mount, on_handlers, id_of, mount_name}
use icecast_proxy_go.Manager.{is_active}
use icecast_proxy_go.Manager.Live.{unlive, swap_live_client, next_live_from, next_live_client}
use icecast_proxy_go.Manager.Remove.{
  drop_client, remove_from, remove_client, close_all, destroy_mount, destroy_mounts, on_collect,
}
use icecast_proxy_go.Manager.Serve.{on_data, on_meta, on_error, live_meta, mount_meta, set_metadata}
use icecast_proxy_go.Loop.Ages.{
  KeepsFirst, at_mount-KeepsFirst, on_handlers-KeepsFirst, on_manager-KeepsFirst, firsts,
}

module _ {first : ℕ} where
  unlive-KeepsFirst : (old : Option ℕ) → KeepsFirst first (unlive old)
  unlive-KeepsFirst none = skip-Preserves
  unlive-KeepsFirst (some client) = on_handlers-KeepsFirst (handle_client_unlive client)

  swap_live_client-KeepsFirst : (m client : ℕ) → KeepsFirst first (swap_live_client m client)
  unfolding swap_live_client
  swap_live_client-KeepsFirst m client = search (firsts, unlive-KeepsFirst) depth 18

  next_live_from-KeepsFirst : (m : ℕ) (queue : List ℕ) → KeepsFirst first (next_live_from m queue)
  unfolding next_live_from
  next_live_from-KeepsFirst m [] = skip-Preserves
  next_live_from-KeepsFirst m (new_id ∷ queue) =
      let rest = next_live_from-KeepsFirst m queue in
      bind-Preserves _ _ (at_mount-KeepsFirst m (modify (λ t. record t { client_queue = queue })))
        λ _.
          bind-Preserves _ _ (gets-Preserves (λ w. get_by_id (w.mount_at m).clients new_id))
            λ found. option-Preserves found (next_live_from m queue) _ rest λ new_client.
              bind-Preserves _ _ (gets-Preserves (λ w. id_of w new_client)) λ id.
                bool-Preserves (id == new_id) (swap_live_client m new_client)
                  (next_live_from m queue) (swap_live_client-KeepsFirst m new_client) rest

  next_live_client-KeepsFirst : (m : ℕ) → KeepsFirst first (next_live_client m)
  unfolding next_live_client
  next_live_client-KeepsFirst m = record {
    apply = λ w. (next_live_from-KeepsFirst m (w.mount_at m).client_queue).apply w;
  }

  drop_client-KeepsFirst : (m client : ℕ) → KeepsFirst first (drop_client m client)
  unfolding drop_client
  drop_client-KeepsFirst m client = search firsts depth 18

  remove_from-KeepsFirst : (m client : ℕ) → KeepsFirst first (remove_from m client)
  unfolding remove_from
  remove_from-KeepsFirst m client =
      search (firsts, next_live_client-KeepsFirst, drop_client-KeepsFirst) depth 14

  pub remove_client-KeepsFirst : (client : ℕ) → KeepsFirst first (remove_client client)
  unfolding remove_client
  remove_client-KeepsFirst client =
      bind-Preserves _ _ (gets-Preserves (λ w. mount_name w client)) λ name.
        bind-Preserves _ _ (gets-Preserves (λ w. lookup name w.manager.mounts)) λ found.
          option-Preserves found (panic (bytes "Unexisting mountpoint")) (λ m. remove_from m client)
            (panic-Preserves _) (λ m. remove_from-KeepsFirst m client)

  log-KeepsFirst :
      (err : Option Str)
      → KeepsFirst first {A = Unit {0}}
          (elim err [ none ↦ panic (bytes "nil pointer dereference") | some text ↦ skip ])
  log-KeepsFirst none = panic-Preserves _
  log-KeepsFirst (some text) = skip-Preserves

  pub on_error-KeepsFirst : (pack : ErrPack) → KeepsFirst first (on_error pack)
  unfolding on_error
  on_error-KeepsFirst pack =
      bind-Preserves _ _ (remove_client-KeepsFirst pack.client) λ _. log-KeepsFirst pack.err

  close_all-KeepsFirst : (cs : List ℕ) → KeepsFirst first (close_all cs)
  unfolding close_all
  close_all-KeepsFirst [] = skip-Preserves
  close_all-KeepsFirst (client ∷ cs) = let rest = close_all-KeepsFirst cs in search firsts depth 8

  module _ (lib : LibShout) where
    destroy_mount-KeepsFirst : (m : ℕ) → KeepsFirst first (destroy_mount lib m)
    unfolding destroy_mount
    destroy_mount-KeepsFirst m = search (firsts, close_all-KeepsFirst) depth 12

    pub destroy_mounts-KeepsFirst : (ms : List (Str × ℕ)) → KeepsFirst first (destroy_mounts lib ms)
    unfolding destroy_mounts
    destroy_mounts-KeepsFirst [] = skip-Preserves
    destroy_mounts-KeepsFirst ((name, m) ∷ ms) =
        let rest = destroy_mounts-KeepsFirst ms in search (firsts, destroy_mount-KeepsFirst) depth 8

    pub on_collect-KeepsFirst : (m : ℕ) → KeepsFirst first (on_collect lib m)
    unfolding on_collect
    on_collect-KeepsFirst m = search (firsts, destroy_mount-KeepsFirst) depth 16

    live_meta-KeepsFirst :
        (m : ℕ) (meta : MetaPack) (client : ℕ) → KeepsFirst first (live_meta lib m meta client)
    unfolding live_meta
    live_meta-KeepsFirst m meta client = search firsts depth 12

    other_meta-KeepsFirst :
        (meta : MetaPack) (client : ℕ)
        → KeepsFirst first
            (do set_metadata client meta.payload; on_handlers (handle_metadata client meta.payload))
    other_meta-KeepsFirst meta client = search firsts depth 6

    mount_meta-KeepsFirst :
        (m : ℕ) (meta : MetaPack) (active : ℕ) → KeepsFirst first (mount_meta lib m meta active)
    unfolding mount_meta
    mount_meta-KeepsFirst m meta active =
        bind-Preserves _ _ (gets-Preserves (λ w. hash (w.ids meta.id))) λ meta_hash.
          bind-Preserves _ _ (gets-Preserves (λ w. hash (w.ids active))) λ active_hash.
            if-Preserves (active_hash == meta_hash) _ _
              (bind-Preserves _ _
                (gets-Preserves (λ w. get_by_hash w.ids (w.mount_at m).clients active_hash))
                λ client.
                  option-Preserves client skip (live_meta lib m meta) skip-Preserves
                    (live_meta-KeepsFirst m meta))
              (bind-Preserves _ _
                (gets-Preserves (λ w. get_by_hash w.ids (w.mount_at m).clients meta_hash))
                λ client.
                  option-Preserves client skip _ skip-Preserves (other_meta-KeepsFirst meta))

    pub on_meta-KeepsFirst : (meta : MetaPack) → KeepsFirst first (on_meta lib meta)
    unfolding on_meta
    on_meta-KeepsFirst meta =
        bind-Preserves _ _ (gets-Preserves (λ w. hash (w.ids meta.id))) λ meta_hash.
          bind-Preserves _ _ (gets-Preserves (λ w. lookup (w.ids meta.id).mount w.manager.mounts))
            λ found.
              option-Preserves found _ _
                (on_manager-KeepsFirst (
                  modify λ r. record r { meta_store = insert meta_hash meta.payload r.meta_store }))
                λ m. bind-Preserves _ _ (gets-Preserves (λ w. (w.mount_at m).active)) λ active.
                  option-Preserves active _ (mount_meta lib m meta)
                    (panic-Preserves (bytes "nil pointer dereference"))
                    (mount_meta-KeepsFirst m meta)

    data_for-KeepsFirst :
        (payload : Str) (client m : ℕ)
        → KeepsFirst first (do
          id ← gets (λ w. id_of w client)
          active ← gets (λ w. (w.mount_at m).active)
          if is_active active id then at_mount m (handle_data lib payload) else skip)
    data_for-KeepsFirst payload client m = search firsts depth 10

    pub on_data-KeepsFirst : (pack : DataPack) → KeepsFirst first (on_data lib pack)
    unfolding on_data
    on_data-KeepsFirst pack =
        bind-Preserves _ _ (gets-Preserves (λ w. mount_name w pack.client)) λ name.
          bind-Preserves _ _ (gets-Preserves (λ w. lookup name w.manager.mounts)) λ found.
            option-Preserves found skip _ skip-Preserves
              (data_for-KeepsFirst pack.payload pack.client)
