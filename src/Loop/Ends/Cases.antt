-- ===== src/Loop/Ends/Cases.antt =====
-- The cases of the select statement for data, metadata and collected mounts do not wait.
use icecast_proxy_go.Prelude.{
  ℕ, Bool, true, false, List, [], ◌∷◌, Option, none, some, Str, ◌==◌, if◌then◌else◌, lookup, insert,
  text_eq, nat_eq, ◌>>=◌, ◌>>◌, skip, gets, modify, bytes,
}
use icecast_proxy_go.ClientHash.{hash}
use icecast_proxy_go.Container.{get_by_hash}
use icecast_proxy_go.Handlers.{handle_metadata}
use icecast_proxy_go.Mount.{handle_data, send_data, after_send}
use icecast_proxy_go.Shout.{
  ShoutError, Call, LibShout, call, connected, close, open_shout, send, send_metadata,
  create_shout_error, nil_if, destroy_shout,
}
use icecast_proxy_go.World.{
  Manager, MetaPack, DataPack, at_mount, on_handlers, on_manager, id_of, mount_name,
}
use icecast_proxy_go.Manager.{is_active}
use icecast_proxy_go.Manager.Serve.{on_data, on_meta, mount_meta, live_meta, set_metadata}
use icecast_proxy_go.Manager.Remove.{close_all, destroy_mount, on_collect}
use icecast_proxy_go.Loop.Ends.{NeverWaits}
use icecast_proxy_go.Loop.Ends.Waits.{
  bind-WaitsOnly, if-WaitsOnly, option-WaitsOnly, skip-WaitsOnly, gets-WaitsOnly, panic-WaitsOnly,
  modify-WaitsOnly, on_shout-WaitsOnly, at_mount-WaitsOnly, waiting,
}

module _ (lib : LibShout) where
  call-NeverWaits : (c : Call) → NeverWaits (call lib c)
  call-NeverWaits c = record { apply = λ s. tt }

  nil_if-NeverWaits : (ok : Bool) → NeverWaits (nil_if lib ok)
  unfolding create_shout_error
  nil_if-NeverWaits true = record { apply = λ s. tt }
  nil_if-NeverWaits false = record { apply = λ s. tt }

  close-NeverWaits : NeverWaits (close lib)
  unfolding close
  close-NeverWaits = search (waiting, call-NeverWaits, nil_if-NeverWaits) depth 6

  open_shout-NeverWaits : NeverWaits (open_shout lib)
  unfolding open_shout
  open_shout-NeverWaits = search (waiting, call-NeverWaits, nil_if-NeverWaits) depth 6

  send-NeverWaits : (payload : Str) → NeverWaits (send lib payload)
  unfolding send
  send-NeverWaits [] = panic-WaitsOnly _
  send-NeverWaits (b ∷ rest) = search (waiting, call-NeverWaits, nil_if-NeverWaits) depth 6

  after_send-NeverWaits : (err : Option ShoutError) → NeverWaits (after_send lib err)
  unfolding after_send
  after_send-NeverWaits none = skip-WaitsOnly
  after_send-NeverWaits (some e) = search (waiting, close-NeverWaits) depth 10

  send_data-NeverWaits : (payload : Str) → NeverWaits (send_data lib payload)
  unfolding send_data
  send_data-NeverWaits payload = search (waiting, send-NeverWaits, after_send-NeverWaits) depth 8

  handle_data-NeverWaits : (payload : Str) → NeverWaits (handle_data lib payload)
  unfolding handle_data connected
  handle_data-NeverWaits payload =
      bind-WaitsOnly _ _ (on_shout-WaitsOnly (connected lib) (record { apply = λ s. tt })) λ up.
        if-WaitsOnly up _ _ (send_data-NeverWaits payload) (
          bind-WaitsOnly _ _ (on_shout-WaitsOnly _ close-NeverWaits)
            λ _. bind-WaitsOnly _ _ (on_shout-WaitsOnly _ open_shout-NeverWaits) reopened)
    where
      reopened :
          (err : Option ShoutError)
          → NeverWaits (elim err [ none ↦ send_data lib payload | some e ↦ skip ])
      reopened none = send_data-NeverWaits payload
      reopened (some e) = skip-WaitsOnly

  data_for-NeverWaits :
      (payload : Str) (client m : ℕ)
      → NeverWaits (do
        id ← gets (λ w. id_of w client)
        active ← gets (λ w. (w.mount_at m).active)
        if is_active active id then at_mount m (handle_data lib payload) else skip)
  data_for-NeverWaits payload client m = search (waiting, handle_data-NeverWaits) depth 10

  pub on_data-NeverWaits : (pack : DataPack) → NeverWaits (on_data lib pack)
  unfolding on_data
  on_data-NeverWaits pack =
      bind-WaitsOnly _ _ (gets-WaitsOnly (λ w. mount_name w pack.client)) λ name.
        bind-WaitsOnly _ _ (gets-WaitsOnly (λ w. lookup name w.manager.mounts)) λ found.
          option-WaitsOnly found skip _ skip-WaitsOnly
            (data_for-NeverWaits pack.payload pack.client)

  send_metadata-NeverWaits : (meta : Str) → NeverWaits (send_metadata lib meta)
  unfolding send_metadata
  send_metadata-NeverWaits meta = search (waiting, call-NeverWaits, nil_if-NeverWaits) depth 8

  on_manager-NeverWaits : (f : Manager → Manager) → NeverWaits (on_manager (modify f))
  on_manager-NeverWaits f = record { apply = λ w. tt }

  live_meta-NeverWaits :
      (m : ℕ) (meta : MetaPack) (client : ℕ) → NeverWaits (live_meta lib m meta client)
  unfolding live_meta
  live_meta-NeverWaits m meta client =
      search
        (
          waiting, modify-WaitsOnly, at_mount-WaitsOnly, on_shout-WaitsOnly,
          send_metadata-NeverWaits,
        )
        depth 12

  other_meta-NeverWaits :
      (meta : MetaPack) (client : ℕ)
      → NeverWaits
          (do set_metadata client meta.payload; on_handlers (handle_metadata client meta.payload))
  other_meta-NeverWaits meta client = search waiting depth 6

  mount_meta-NeverWaits :
      (m : ℕ) (meta : MetaPack) (active : ℕ) → NeverWaits (mount_meta lib m meta active)
  unfolding mount_meta
  mount_meta-NeverWaits m meta active =
      bind-WaitsOnly _ _ (gets-WaitsOnly (λ w. hash (w.ids meta.id))) λ meta_hash.
        bind-WaitsOnly _ _ (gets-WaitsOnly (λ w. hash (w.ids active))) λ active_hash.
          if-WaitsOnly (active_hash == meta_hash) _ _
            (bind-WaitsOnly _ _
              (gets-WaitsOnly (λ w. get_by_hash w.ids (w.mount_at m).clients active_hash))
              λ client.
                option-WaitsOnly client skip (live_meta lib m meta) skip-WaitsOnly
                  (live_meta-NeverWaits m meta))
            (bind-WaitsOnly _ _
              (gets-WaitsOnly (λ w. get_by_hash w.ids (w.mount_at m).clients meta_hash))
              λ client. option-WaitsOnly client skip _ skip-WaitsOnly (other_meta-NeverWaits meta))

  pub on_meta-NeverWaits : (meta : MetaPack) → NeverWaits (on_meta lib meta)
  unfolding on_meta
  on_meta-NeverWaits meta =
      bind-WaitsOnly _ _ (gets-WaitsOnly (λ w. hash (w.ids meta.id))) λ meta_hash.
        bind-WaitsOnly _ _ (gets-WaitsOnly (λ w. lookup (w.ids meta.id).mount w.manager.mounts))
          λ found.
            option-WaitsOnly found _ _
              (on_manager-NeverWaits
                λ r. record r { meta_store = insert meta_hash meta.payload r.meta_store })
              λ m. bind-WaitsOnly _ _ (gets-WaitsOnly (λ w. (w.mount_at m).active)) λ active.
                option-WaitsOnly active _ (mount_meta lib m meta)
                  (panic-WaitsOnly (bytes "nil pointer dereference")) (mount_meta-NeverWaits m meta)

  close_all-NeverWaits : (cs : List ℕ) → NeverWaits (close_all cs)
  unfolding close_all
  close_all-NeverWaits [] = skip-WaitsOnly
  close_all-NeverWaits (client ∷ cs) = let rest = close_all-NeverWaits cs in search waiting depth 8

  destroy_shout-NeverWaits : NeverWaits (destroy_shout lib)
  unfolding destroy_shout
  destroy_shout-NeverWaits = search (waiting, call-NeverWaits) depth 8

  destroy_mount-NeverWaits : (m : ℕ) → NeverWaits (destroy_mount lib m)
  unfolding destroy_mount
  destroy_mount-NeverWaits m =
      search
        (
          waiting, at_mount-WaitsOnly, on_shout-WaitsOnly, destroy_shout-NeverWaits,
          close_all-NeverWaits,
        )
        depth 12

  pub on_collect-NeverWaits : (m : ℕ) → NeverWaits (on_collect lib m)
  unfolding on_collect
  on_collect-NeverWaits m =
      search
        (
          waiting, at_mount-WaitsOnly, on_shout-WaitsOnly, close-NeverWaits, on_manager-NeverWaits,
          destroy_mount-NeverWaits,
        )
        depth 16
