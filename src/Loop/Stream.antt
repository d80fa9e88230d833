-- ===== src/Loop/Stream.antt =====
-- What the proxy of server/icecast.go is for: the data of a source reach libshout.
use icecast_proxy_go.Prelude.{
  ℕ, ◌<◌, ◌≤◌, ◌≡◌, refl, ◌∙◌, true, false, List, [], ◌∷◌, ◌++◌, some, none, Str, arith, done,
  length, lookup, lookup-insert_self, text_eq, update, update_self,
}
use icecast_proxy_go.Config.{Yaml, buffer_size, create_shout_map}
use icecast_proxy_go.Handlers.{is_member}
use icecast_proxy_go.Handlers.Laws.{connected_table, is_member-append}
use icecast_proxy_go.Mount.Laws.{IsUp, handle_data_sends}
use icecast_proxy_go.Shout.{Call, LibShout, shout_send}
use icecast_proxy_go.World.{World, id_of, mount_name, meta_cap}
use icecast_proxy_go.Manager.Add.Opens.{opened, add_client-opened, opened_calls}
use icecast_proxy_go.Manager.Serve.Laws.{on_data-live}
use icecast_proxy_go.Manager.Serve.Clients.{on_client-added}
use icecast_proxy_go.Loop.{
  client_arrives, reads, selects, receiver_case, data_case, running, serve, step, run,
}
use icecast_proxy_go.Loop.Inputs.{up, run-cons, run-nil}

-- The world with these calls on the connection of a mount.
abbrev pub with_calls : ℕ → List Call → World → World
with_calls m calls w = record w {
  mount_at = update m (record (w.mount_at m) { shout = record { calls = calls } }) w.mount_at;
}

module _ (lib : LibShout) (yaml : Yaml) where
  read :
      (client : ℕ) (payload : Str) (w : World)
      → w.data_chan ≡ []
      → is_member client w.readers ≡ true
      → length payload ≤ buffer_size
      → step lib yaml (reads client payload) w
        ≡ up (record w { data_chan = record { payload = payload; client = client } ∷ [] })
  unfolding step
  read client payload w empty reading fits = ground (arith, empty, reading, fits)

  select_data :
      (client m b : ℕ) (rest : Str) (calls : List Call) (w : World)
      → w.data_chan ≡ []
      → lookup (mount_name w client) w.manager.mounts ≡ some m
      → (w.mount_at m).active ≡ some (id_of w client)
      → IsUp lib (w.mount_at m).shout.calls calls
      → lib.result calls (shout_send (b ∷ rest)) ≡ lib.err_success
      → step lib yaml
          (selects data_case)
          (record w { data_chan = record { payload = b ∷ rest; client = client } ∷ [] })
        ≡ up (with_calls m (shout_send (b ∷ rest) ∷ calls) w)
  unfolding step serve
  select_data client m b rest calls w empty found live opens sent = ground (
    arith,
    empty,
    on_data-live lib (record { payload = b ∷ rest; client = client }) m
        (record w { data_chan = [] }) found live,
    handle_data_sends lib b rest calls (w.mount_at m) opens sent,
  )

  -- The live client of a mount, which is read from, reads some data that its buffer holds while no
  -- other data are under way, and the data are taken. If the mount's connection is up or is opened
  -- with success, and the send succeeds, then the manager runs, and nothing of the state has
  -- changed but that the last call on the connection was shout_send of the data, right after those
  -- that brought it up.
  pub data_delivered :
      (client m b : ℕ) (rest : Str) (calls : List Call) (w : World)
      → w.data_chan ≡ []
      → is_member client w.readers ≡ true
      → length (b ∷ rest) ≤ buffer_size
      → lookup (mount_name w client) w.manager.mounts ≡ some m
      → (w.mount_at m).active ≡ some (id_of w client)
      → IsUp lib (w.mount_at m).shout.calls calls
      → lib.result calls (shout_send (b ∷ rest)) ≡ lib.err_success
      → run lib yaml
          (record { world = w; status = running })
          (reads client (b ∷ rest) ∷ selects data_case ∷ [])
        ≡ record { world = with_calls m (shout_send (b ∷ rest) ∷ calls) w; status = running }
  data_delivered client m b rest calls w empty reading fits found live opens sent =
      run-cons lib yaml _ _ _ _ (read client (b ∷ rest) w empty reading fits)
      ∙ run-cons lib yaml _ _ _ _ (select_data client m b rest calls w empty found live opens sent)
      ∙ run-nil lib yaml _

  -- The manager with nothing in the channel of clients.
  abbrev received : World → World
  received w = record w { manager = record (w.manager) { receiver = [] } }

  -- A client that has got a new mount and is read from.
  abbrev started : List (Str × Str) → ℕ → World → World
  started options client w =
      let v = opened lib options client (received w) in
      record v {
        handlers = connected_table (mount_name v client) client v.handlers;
        readers = v.readers ++ client ∷ [];
      }

  arrive :
      (client : ℕ) (w : World)
      → w.manager.receiver ≡ []
      → step lib yaml (client_arrives client) w
        ≡ up (record w { manager = record (w.manager) { receiver = client ∷ [] } })
  unfolding step
  arrive client w empty = rw empty

  select_client :
      (options : List (Str × Str)) (client : ℕ) (w : World)
      → lookup (mount_name w client) w.manager.mounts ≡ none
      → ((v : World) → create_shout_map yaml v ≡ done options v)
      → length w.manager.meta_chan < meta_cap
      → w.handlers.locked ≡ false
      → step lib yaml
          (selects receiver_case)
          (record w { manager = record (w.manager) { receiver = client ∷ [] } })
        ≡ up (started options client w)
  unfolding step serve
  select_client options client w missing config room free =
      rw
        (on_client-added lib yaml client (received w) (opened lib options client (received w))
          (add_client-opened lib yaml options client (received w) missing (config (received w))
            room)
          free)
        refl

  -- A client comes in for a name that has no mount, while no client waits in the channel, no data
  -- are under way, the channel of metadata has room and the lock is free, and the configuration
  -- gives options. It is taken on, reads some data that its buffer holds, and the data are taken.
  -- If then the connection of its new mount is up or is opened with success, and the send succeeds,
  -- the manager runs, the mount stands under its name with the client live, and the last call on
  -- the connection was shout_send of the data, right after those that brought it up.
  pub stream_begins :
      (options : List (Str × Str)) (client b : ℕ) (rest : Str) (calls : List Call) (w : World)
      → w.manager.receiver ≡ []
      → w.data_chan ≡ []
      → lookup (mount_name w client) w.manager.mounts ≡ none
      → ((v : World) → create_shout_map yaml v ≡ done options v)
      → length w.manager.meta_chan < meta_cap
      → w.handlers.locked ≡ false
      → length (b ∷ rest) ≤ buffer_size
      → IsUp lib (opened_calls lib options client w) calls
      → lib.result calls (shout_send (b ∷ rest)) ≡ lib.err_success
      → (w' : World) × (run lib yaml
            (record { world = w; status = running })
            (client_arrives client
              ∷ selects receiver_case
              ∷ reads client (b ∷ rest)
              ∷ selects data_case
              ∷ [])
          ≡ record { world = w'; status = running })
        × (lookup (mount_name w client) w'.manager.mounts ≡ some w.next_mount)
        × ((w'.mount_at w.next_mount).active ≡ some (id_of w client))
        × ((w'.mount_at w.next_mount).shout.calls ≡ shout_send (b ∷ rest) ∷ calls)
  stream_begins options client b rest calls w alone empty missing config room free fits opens sent =
      let m = w.next_mount in
      let v = started options client w in
      let mapped : lookup (mount_name w client) v.manager.mounts ≡ some m =
        lookup-insert_self (mount_name w client) m w.manager.mounts in
      (
        with_calls m (shout_send (b ∷ rest) ∷ calls) v,
        run-cons lib yaml _ _ _ _ (arrive client w alone)
            ∙ run-cons lib yaml _ _ _ _ (select_client options client w missing config room free)
            ∙ data_delivered client m b rest calls v empty (is_member-append client w.readers) fits
                mapped (simp update_self) (simp update_self opens) sent,
        mapped,
        simp update_self,
        simp update_self,
      )
