-- ===== src/Loop/Ages/Adds.antt =====
-- AddClient, and the case of new clients, start no manager.
use icecast_proxy_go.Prelude.{
  ℕ, false, [], ◌∷◌, ◌++◌, Option, none, some, Str, arith, inl, inr, lookup, text_eq, nat_eq,
  panicked, ◌>>=◌, ◌>>◌, skip, return, gets, modify, bind-Preserves, option-Preserves,
  skip-Preserves, gets-Preserves, of_outcome,
}
use icecast_proxy_go.ClientHash.{hash}
use icecast_proxy_go.Config.{Yaml}
use icecast_proxy_go.Handlers.{handle_client_connect}
use icecast_proxy_go.Mount.{Mount, on_shout, new_mount, full_queue}
use icecast_proxy_go.Shout.{LibShout}
use icecast_proxy_go.Shout.Options.{apply_options}
use icecast_proxy_go.World.{at_mount, on_handlers, send_meta, mount_name}
use icecast_proxy_go.Manager.Remove.{remove_client}
use icecast_proxy_go.Manager.Add.{
  format_of, mount_options, allocate, finish_mount, place_mount, open_mount, join_mount, add_body,
  add_client,
}
use icecast_proxy_go.Manager.Serve.{on_client}
use icecast_proxy_go.Manager.Add.Opens.{new_mount_lem}
use icecast_proxy_go.Manager.Sound.Added.{config-cases}
use icecast_proxy_go.Loop.Ages.Cases.{remove_client-KeepsFirst}
use icecast_proxy_go.Loop.Ages.{
  IsFirst, KeepsFirst, on_handlers-KeepsFirst, on_manager-KeepsFirst, recover-KeepsFirst, firsts,
}

module _ {first : ℕ} where
  module _ (lib : LibShout) where
    new_mount-KeepsFirst : (yaml : Yaml) (name : Str) → KeepsFirst first (new_mount lib yaml name)
    unfolding new_mount
    new_mount-KeepsFirst yaml name = record {
      apply = λ w s. elim (config-cases yaml w) [
        | inl (options, e) ↦ of_outcome (IsFirst first) (new_mount_lem lib yaml name options w e) s
        | inr (reason, e) ↦
            of_outcome (IsFirst first) {o = new_mount lib yaml name w} {o' = panicked reason w}
              (ground arith) s
      ];
    }

    allocate-KeepsFirst : (t : Mount) → KeepsFirst first (allocate t)
    allocate-KeepsFirst t = record { apply = λ w s. s }

    stored-KeepsFirst :
        (o : Option Str) (id : ℕ)
        → KeepsFirst first (elim o [
          | none ↦ skip
          | some meta ↦ send_meta (record { payload = meta; id = id; seen = false })
        ])
    stored-KeepsFirst none id = skip-Preserves
    stored-KeepsFirst (some meta) id = on_manager-KeepsFirst _

  module _ (lib : LibShout) (yaml : Yaml) where
    options-KeepsFirst :
        (m id : ℕ) (name : Str)
        → KeepsFirst first {A = Option Str} (do
          format ← gets (λ w. format_of (w.ids id).audio_format)
          first ← gets (λ w. w.mount_first m)
          at_mount m (on_shout (apply_options lib (mount_options first name format)))
          return none)
    options-KeepsFirst m id name = search firsts depth 14

    finish_mount-KeepsFirst :
        (m id : ℕ) (name : Str) → KeepsFirst first (finish_mount lib yaml m name id)
    unfolding finish_mount
    finish_mount-KeepsFirst m id name =
        bind-Preserves _ _ (gets-Preserves (λ w. lookup (hash (w.ids id)) w.manager.meta_store))
          λ o. bind-Preserves _ _ (stored-KeepsFirst lib o id) λ _. options-KeepsFirst m id name

    place_mount-KeepsFirst :
        (t : Mount) (name : Str) (client : ℕ)
        → KeepsFirst first (place_mount lib yaml t name client)
    unfolding place_mount
    place_mount-KeepsFirst t name client =
        search (firsts, allocate-KeepsFirst lib, finish_mount-KeepsFirst) depth 18

    open_mount-KeepsFirst :
        (name : Str) (client : ℕ) → KeepsFirst first (open_mount lib yaml name client)
    unfolding open_mount
    open_mount-KeepsFirst name client =
        search (firsts, new_mount-KeepsFirst lib yaml, place_mount-KeepsFirst) depth 8

    join_mount-KeepsFirst : (m client : ℕ) → KeepsFirst first (join_mount lib yaml m client)
    unfolding join_mount
    join_mount-KeepsFirst m client = search firsts depth 14

    add_body-KeepsFirst : (client : ℕ) → KeepsFirst first (add_body lib yaml client)
    unfolding add_body
    add_body-KeepsFirst client =
        bind-Preserves _ _ (gets-Preserves (λ w. mount_name w client)) λ name.
          bind-Preserves _ _ (gets-Preserves (λ w. lookup name w.manager.mounts)) λ found.
            option-Preserves found (open_mount lib yaml name client)
              (λ m. join_mount lib yaml m client) (open_mount-KeepsFirst name client)
              (λ m. join_mount-KeepsFirst m client)

    add_client-KeepsFirst : (client : ℕ) → KeepsFirst first (add_client lib yaml client)
    unfolding add_client
    add_client-KeepsFirst client =
        recover-KeepsFirst (some full_queue) (add_body lib yaml client) (add_body-KeepsFirst client)

    read-KeepsFirst :
        (client : ℕ)
        → KeepsFirst first (modify (λ w. record w { readers = w.readers ++ client ∷ [] }))
    read-KeepsFirst client = record { apply = λ w s. s }

    served-KeepsFirst :
        (client : ℕ) (err : Option Str)
        → KeepsFirst first (elim err [
          | some text ↦ remove_client client
          | none ↦ do
            name ← gets (λ w. mount_name w client)
            on_handlers (handle_client_connect name client)
            modify (λ w. record w { readers = w.readers ++ client ∷ [] })
        ])
    served-KeepsFirst client (some text) = remove_client-KeepsFirst client
    served-KeepsFirst client none =
        bind-Preserves _ _ (gets-Preserves (λ w. mount_name w client)) λ name.
          bind-Preserves _ _ (on_handlers-KeepsFirst (handle_client_connect name client))
            λ _. read-KeepsFirst client

    pub on_client-KeepsFirst : (client : ℕ) → KeepsFirst first (on_client lib yaml client)
    unfolding on_client
    on_client-KeepsFirst client =
        bind-Preserves _ _ (add_client-KeepsFirst client) (served-KeepsFirst client)
