-- ===== src/Manager/Add.antt =====
-- AddClient.
pub mod Laws
pub mod Opens
use icecast_proxy_go.Prelude.{
  ℕ, ◌+◌, Bool, true, false, List, [], ◌∷◌, ◌++◌, Option, none, some, Str, bytes, ltb, length,
  if◌then◌else◌, lookup, insert, text_eq, nat_eq, str_eq, Go, done, blocked, ◌>>=◌, ◌>>◌, return,
  skip, block, gets, modify, recover, update,
}
use icecast_proxy_go.ClientHash.{hash}
use icecast_proxy_go.Config.{Yaml, queue_limit}
use icecast_proxy_go.Container.{add}
use icecast_proxy_go.Mount.{Mount, new_mount, full_queue, on_shout}
use icecast_proxy_go.Shout.{LibShout}
use icecast_proxy_go.Shout.Options.{apply_options}
use icecast_proxy_go.World.{World, at_mount, on_manager, send_meta, id_of, mount_name}

abbrev pub format_of : Str → Str
format_of [] = bytes "MP3"
format_of (c ∷ s) = c ∷ s

-- The map of a client's two options, in the order that a range over it takes.
abbrev pub mount_options : Bool → Str → Str → List (Str × Str)
mount_options true name format = (bytes "mount", name) ∷ (bytes "format", format) ∷ []
mount_options false name format = (bytes "format", format) ∷ (bytes "mount", name) ∷ []

-- `mount.ClientQueue <- id` into the buffered channel.
abbrev pub push_queue : ℕ → Go Mount (Unit {0})
push_queue id t = elim (ltb (length t.client_queue) queue_limit) [
  | true ↦ done tt (record t { client_queue = t.client_queue ++ id ∷ [] })
  | false ↦ blocked t
]

-- A new mount at a new address.
abbrev pub allocate : Mount → Go World ℕ
allocate t = do
  m ← gets (λ w. w.next_mount)
  modify (λ w. record w { mount_at = update m t w.mount_at; next_mount = m + 1 })
  return m

module _ (lib : LibShout) (yaml : Yaml) where
  -- The branch for a name with no mount, from the look into the stored metadata on.
  unfoldable pub finish_mount : ℕ → Str → ℕ → Go World (Option Str)
  finish_mount m name id = do
    stored ← gets (λ w. lookup (hash (w.ids id)) w.manager.meta_store)
    elim stored [
      | none ↦ skip
      | some meta ↦ send_meta (record { payload = meta; id = id; seen = false })
    ]
    format ← gets (λ w. format_of (w.ids id).audio_format)
    first ← gets (λ w. w.mount_first m)
    at_mount m (on_shout (apply_options lib (mount_options first name format)))
    return none

  -- The same from the entry in the mount map on.
  unfoldable pub place_mount : Mount → Str → ℕ → Go World (Option Str)
  place_mount t name client = do
    m ← allocate t
    on_manager (modify (λ r. record r { mounts = insert name m r.mounts }))
    id ← gets (λ w. id_of w client)
    at_mount m (modify (λ r. record r { clients = add id client r.clients }))
    at_mount m (modify (λ r. record r { active = some id }))
    finish_mount m name id

  unfoldable pub open_mount : Str → ℕ → Go World (Option Str)
  open_mount name client = do t ← new_mount lib yaml name; place_mount t name client

  -- The branch for a mount that is there.
  unfoldable pub join_mount : ℕ → ℕ → Go World (Option Str)
  unfolding add
  join_mount m client = do
    id ← gets (λ w. id_of w client)
    at_mount m (modify (λ r. record r { clients = add id client r.clients }))
    queue ← gets (λ w. (w.mount_at m).client_queue)
    if ltb (length queue) queue_limit
        then (do at_mount m (push_queue id); return none)
        else return (some full_queue)

  -- The body under the deferred recover.
  unfoldable pub add_body : ℕ → Go World (Option Str)
  add_body client = do
    name ← gets (λ w. mount_name w client)
    found ← gets (λ w. lookup name w.manager.mounts)
    elim found [ none ↦ open_mount name client | some m ↦ join_mount m client ]

  unfoldable pub add_client : ℕ → Go World (Option Str)
  add_client client = recover (some full_queue) (add_body client)
