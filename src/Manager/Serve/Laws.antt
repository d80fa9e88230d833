-- ===== src/Manager/Serve/Laws.antt =====
-- What the cases of the select statement do with data, metadata, errors and new clients.
use mathlib.Core.List.{append-nil}
use icecast_proxy_go.Prelude.{
  ℕ, refl, ◌≡◌, ◌<◌, ap, ◌∙◌, inl, inr, false, List, [], ◌∷◌, ◌++◌, none, some, Str, arith, done,
  >>=-done, ◌>>◌, Option-cases, length, lookup, insert, lookup-insert_self, text_eq, nat_eq,
}
use icecast_proxy_go.ClientHash.{hash}
use icecast_proxy_go.Config.{Yaml, create_shout_map}
use icecast_proxy_go.Mount.{handle_data}
use icecast_proxy_go.Shout.{LibShout}
use icecast_proxy_go.World.{World, MetaPack, DataPack, id_of, mount_name, meta_cap, at_mount}
use icecast_proxy_go.Manager.{is_active}
use icecast_proxy_go.Manager.Add.{add_client}
use icecast_proxy_go.Manager.Add.Opens.{stored_pack, add_client-opens}
use icecast_proxy_go.Manager.Serve.{on_data, on_meta, on_tick}

-- Data of a client whose mount is not in the map, or that is not the live client there, change
-- nothing.
pub on_data-discards :
    (lib : LibShout) (pack : DataPack) (w : World)
    → ((m : ℕ)
        → lookup (mount_name w pack.client) w.manager.mounts ≡ some m
        → is_active (w.mount_at m).active (id_of w pack.client) ≡ false)
    → on_data lib pack w ≡ done tt w
unfolding on_data
on_data-discards lib pack w other =
    elim (Option-cases (lookup (mount_name w pack.client) w.manager.mounts)) [
      | inl e ↦ ground (arith, e)
      | inr (m, e) ↦ ground (arith, e, other m e)
    ]

-- Data of the live client are handed to its mount.
pub on_data-live :
    (lib : LibShout) (pack : DataPack) (m : ℕ) (w : World)
    → lookup (mount_name w pack.client) w.manager.mounts ≡ some m
    → (w.mount_at m).active ≡ some (id_of w pack.client)
    → on_data lib pack w ≡ at_mount m (handle_data lib pack.payload) w
unfolding on_data
on_data-live lib pack m w found active = ground (arith, found, active)

abbrev stored_world : MetaPack → World → World
stored_world meta w = record w {
  manager = record (w.manager) {
    meta_store = insert (hash (w.ids meta.id)) meta.payload w.manager.meta_store;
  };
}

lookup-none : (h : ℕ) → lookup {V = Str} h [] ≡ none
unfolding lookup
lookup-none h = refl

-- Metadata for a mount that is not there are stored under the hash of their identifier.
pub on_meta-stores :
    (lib : LibShout) (meta : MetaPack) (w : World)
    → lookup (w.ids meta.id).mount w.manager.mounts ≡ none
    → on_meta lib meta w ≡ done tt (stored_world meta w)
unfolding on_meta
on_meta-stores lib meta w missing = ground (arith, missing)

-- Metadata for a mount that is not in the map come in, and next the manager takes a client under an
-- identifier of the same hash, for a name that has no mount either, where the configuration gives
-- options and the channel of metadata has room. Then the client is added, and the metadata are sent
-- to the channel for it; but if the manager's ticker comes in between, the client is added and
-- nothing is sent.
pub early_metadata :
    (lib : LibShout) (yaml : Yaml) (meta : MetaPack) (options : List (Str × Str)) (client : ℕ)
    (w : World)
    → lookup (w.ids meta.id).mount w.manager.mounts ≡ none
    → lookup (mount_name w client) w.manager.mounts ≡ none
    → hash (w.ids (id_of w client)) ≡ hash (w.ids meta.id)
    → ((v : World) → create_shout_map yaml v ≡ done options v)
    → length w.manager.meta_chan < meta_cap
    → (w' : World) × ((do on_meta lib meta; add_client lib yaml client) w ≡ done none w')
      × (w'.manager.meta_chan
          ≡ w.manager.meta_chan
            ++ record { payload = meta.payload; id = id_of w client; seen = false } ∷ [])
      × (late : World) × ((do on_meta lib meta; on_tick; add_client lib yaml client) w
          ≡ done none late)
      × (late.manager.meta_chan ≡ w.manager.meta_chan)
early_metadata lib yaml meta options client w unknown missing same config room =
    let v = stored_world meta w in
    let (w', added, found, active, queue, listed, chan) =
      add_client-opens lib yaml options client v missing (config v) room in
    let u : World = record v { manager = record (v.manager) { meta_store = [] } } in
    let (late, opened, found', active', queue', listed', chan') =
      add_client-opens lib yaml options client u missing (config u) room in
    (
      w',
      >>=-done (on_meta lib meta) (λ _. add_client lib yaml client)
            (on_meta-stores lib meta w unknown)
          ∙ added,
      chan
          ∙ ap (λ o. w.manager.meta_chan ++ stored_pack o (id_of w client))
              (ap (λ h. lookup h v.manager.meta_store) same
                ∙ lookup-insert_self (hash (w.ids meta.id)) meta.payload w.manager.meta_store),
      late,
      >>=-done (on_meta lib meta) (λ _. do on_tick; add_client lib yaml client)
            (on_meta-stores lib meta w unknown)
          ∙ opened,
      chan'
          ∙ ap (λ o. w.manager.meta_chan ++ stored_pack o (id_of w client))
              (lookup-none (hash (w.ids (id_of w client))))
          ∙ append-nil w.manager.meta_chan,
    )
