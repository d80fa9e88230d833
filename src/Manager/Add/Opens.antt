-- ===== src/Manager/Add/Opens.antt =====
-- AddClient for a name that has no mount.
use mathlib.Core.List.{append-nil}
use icecast_proxy_go.Prelude.{
  ℕ, ◌+◌, ◌≡◌, ◌<◌, refl, ◌∙◌, inl, inr, Bool, false, List, [], ◌∷◌, ◌++◌, Option, none, some, Str,
  arith, state_of, done, panicked, >>=-done, Option-cases, length, update, update_self,
  update-update, lookup, insert, lookup-insert_self, text_eq, nat_eq,
}
use icecast_proxy_go.Client.{ClientId}
use icecast_proxy_go.ClientHash.{hash}
use icecast_proxy_go.Config.{Yaml, create_shout_map}
use icecast_proxy_go.Container.{new_container, add}
use icecast_proxy_go.Mount.{Mount, new_mount, full_queue}
use icecast_proxy_go.Shout.{Call, Shout, LibShout}
use icecast_proxy_go.Shout.Options.{apply_options, new_shout, option_call}
use icecast_proxy_go.World.{World, MetaPack, id_of, mount_name, meta_cap}
use icecast_proxy_go.Manager.Add.{
  finish_mount, place_mount, open_mount, add_body, add_client, format_of, mount_options,
}

-- ApplyOptions neither panics nor waits.
pub apply_options-done :
    (lib : LibShout) (options : List (Str × Str)) (s : Shout)
    → apply_options lib options s ≡ done tt (state_of (apply_options lib options s))
unfolding apply_options
apply_options-done lib [] s = refl
apply_options-done lib ((k, v) ∷ options) s = elim (Option-cases (option_call lib k v)) [
  | inl e ↦ rw e (apply_options-done lib options s)
  | inr (c, e) ↦ rw e (apply_options-done lib options (record { calls = c ∷ s.calls }))
]

-- The mount that NewMount makes.
abbrev pub fresh_mount : LibShout → List (Str × Str) → Str → Mount
fresh_mount lib options name = record {
  client_queue = [];
  clients = new_container;
  active = none;
  mount = name;
  shout = state_of (new_shout lib options (record { calls = [] }));
}

pub new_mount_lem :
    (lib : LibShout) (yaml : Yaml) (name : Str) (options : List (Str × Str)) (w : World)
    → create_shout_map yaml w ≡ done options w
    → new_mount lib yaml name w ≡ done (fresh_mount lib options name) w
unfolding new_mount
new_mount_lem lib yaml name options w e = ground arith

-- The metadata that are kept for an identifier, as the packet that is sent.
abbrev pub stored_pack : Option Str → ℕ → List MetaPack
stored_pack none id = []
stored_pack (some meta) id = record { payload = meta; id = id; seen = false } ∷ []

-- What the options of a client make of a connection, set in one order or the other.
abbrev pub with_options : LibShout → Bool → ClientId → Str → Shout → Shout
with_options lib first id name s =
    state_of (apply_options lib (mount_options first name (format_of id.audio_format)) s)

finish_mount_lem :
    (lib : LibShout) (yaml : Yaml) (m id : ℕ) (name : Str) (w : World)
    → length w.manager.meta_chan < meta_cap
    → finish_mount lib yaml m name id w
      ≡ done none (record w {
        mount_at =
            update m
              (record (w.mount_at m) {
                shout = with_options lib (w.mount_first m) (w.ids id) name (w.mount_at m).shout;
              })
              w.mount_at;
        manager = record (w.manager) {
          meta_chan =
              w.manager.meta_chan ++ stored_pack (lookup (hash (w.ids id)) w.manager.meta_store) id;
        };
      })
unfolding finish_mount
finish_mount_lem lib yaml m id name w room = ground (
  arith,
  append-nil w.manager.meta_chan,
  apply_options-done lib (mount_options (w.mount_first m) name (format_of (w.ids id).audio_format))
      (w.mount_at m).shout,
)

module _ (lib : LibShout) (options : List (Str × Str)) (client : ℕ) (w : World) where
  -- The new mount with the client listed and live.
  abbrev pub live_mount : Mount
  live_mount = record (fresh_mount lib options (mount_name w client)) {
    clients = add (id_of w client) client new_container;
    active = some (id_of w client);
  }

  -- The world with that mount under its name.
  abbrev pub placed : World
  placed = record w {
    mount_at = update w.next_mount live_mount w.mount_at;
    next_mount = w.next_mount + 1;
    manager = record (w.manager) {
      mounts = insert (mount_name w client) w.next_mount w.manager.mounts;
    };
  }

  pub place_mount_lem :
      (yaml : Yaml)
      → place_mount lib yaml
          (fresh_mount lib options (mount_name w client))
          (mount_name w client)
          client
          w
        ≡ finish_mount lib yaml w.next_mount (mount_name w client) (id_of w client) placed
  unfolding place_mount
  place_mount_lem yaml = simp (update_self, update-update)

  -- What open_mount leaves.
  abbrev pub opened : World
  opened = record placed {
    mount_at =
        update w.next_mount
          (record live_mount {
            shout =
                with_options lib (w.mount_first w.next_mount) (w.ids (id_of w client))
                  (mount_name w client) live_mount.shout;
          })
          w.mount_at;
    manager = record (placed.manager) {
      meta_chan =
          w.manager.meta_chan
          ++ stored_pack (lookup (hash (w.ids (id_of w client))) w.manager.meta_store)
              (id_of w client);
    };
  }

  finish-placed :
      (yaml : Yaml)
      → length w.manager.meta_chan < meta_cap
      → finish_mount lib yaml w.next_mount (mount_name w client) (id_of w client) placed
        ≡ done none opened
  finish-placed yaml room =
      finish_mount_lem lib yaml w.next_mount (id_of w client) (mount_name w client) placed room
      ∙ simp (update_self, update-update)

  open_mount_lem :
      (yaml : Yaml)
      → create_shout_map yaml w ≡ done options w
      → length w.manager.meta_chan < meta_cap
      → open_mount lib yaml (mount_name w client) client w ≡ done none opened
  unfolding open_mount
  open_mount_lem yaml config room =
      >>=-done (new_mount lib yaml (mount_name w client))
        (λ t. place_mount lib yaml t (mount_name w client) client)
        (new_mount_lem lib yaml (mount_name w client) options w config)
      ∙ place_mount_lem yaml
      ∙ finish-placed yaml room

pub add_client-opened :
    (lib : LibShout) (yaml : Yaml) (options : List (Str × Str)) (client : ℕ) (w : World)
    → lookup (mount_name w client) w.manager.mounts ≡ none
    → create_shout_map yaml w ≡ done options w
    → length w.manager.meta_chan < meta_cap
    → add_client lib yaml client w ≡ done none (opened lib options client w)
unfolding add_client add_body
add_client-opened lib yaml options client w missing config room =
    ground (arith, open_mount_lem lib options client w yaml config room)

-- The calls on the connection of the new mount.
abbrev pub opened_calls : LibShout → List (Str × Str) → ℕ → World → List Call
opened_calls lib options client w =
    (with_options lib (w.mount_first w.next_mount) (w.ids (id_of w client)) (mount_name w client)
      (live_mount lib options client w).shout).calls

-- A client for a name that has no mount gets a new one, if the configuration gives options and the
-- channel for metadata has room: the mount is in the map under the name, the client alone is listed
-- on it and is live, the queue is empty, and metadata that were stored under the client's hash are
-- sent to the channel for it.
pub add_client-opens :
    (lib : LibShout) (yaml : Yaml) (options : List (Str × Str)) (client : ℕ) (w : World)
    → lookup (mount_name w client) w.manager.mounts ≡ none
    → create_shout_map yaml w ≡ done options w
    → length w.manager.meta_chan < meta_cap
    → (w' : World) × (add_client lib yaml client w ≡ done none w')
      × (lookup (mount_name w client) w'.manager.mounts ≡ some w.next_mount)
      × ((w'.mount_at w.next_mount).active ≡ some (id_of w client))
      × ((w'.mount_at w.next_mount).client_queue ≡ [])
      × ((w'.mount_at w.next_mount).clients.by_id ≡ (id_of w client, client) ∷ [])
      × (w'.manager.meta_chan
          ≡ w.manager.meta_chan
            ++ stored_pack
                (lookup (hash (w.ids (id_of w client))) w.manager.meta_store)
                (id_of w client))
unfolding add insert new_container
add_client-opens lib yaml options client w missing config room = (
  opened lib options client w,
  add_client-opened lib yaml options client w missing config room,
  lookup-insert_self (mount_name w client) w.next_mount w.manager.mounts,
  rw update_self,
  rw update_self,
  rw update_self,
  refl,
)

-- Where the configuration lacks its icecast mapping, a client for a new mount is refused as if the
-- queue were full, and no mount is made.
pub add_client-bad_config :
    (lib : LibShout) (yaml : Yaml) (client : ℕ) (e : Str) (w : World)
    → lookup (mount_name w client) w.manager.mounts ≡ none
    → create_shout_map yaml w ≡ panicked e w
    → add_client lib yaml client w ≡ done (some full_queue) w
unfolding add_client add_body open_mount new_mount
add_client-bad_config lib yaml client e w missing config = ground arith
