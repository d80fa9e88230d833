-- ===== src/Manager/Serve/Clients.antt =====
-- What the select statement does with errors and new clients.
use icecast_proxy_go.Prelude.{
  ℕ, ◌+◌, ◌≡◌, ◌≢◌, ◌<◌, ◌≤◌, sym, ap, subst, ◌∙◌, true, false, List, [], ◌∷◌, ◌++◌, Option, none,
  some, Str, arith, ◌==◌, if◌then◌else◌, done, panicked, length, update, update_self, lookup,
  insert, text_eq, nat_eq, bytes,
}
use icecast_proxy_go.Config.{Yaml, create_shout_map, queue_limit}
use icecast_proxy_go.Container.{get_by_id, add, remove}
use icecast_proxy_go.Container.Laws.{IsValid, add-IsValid, get_by_id-add, length-remove-add}
use icecast_proxy_go.Handlers.Laws.{connected_table, connect_unlocked}
use icecast_proxy_go.Mount.{full_queue}
use icecast_proxy_go.Shout.{LibShout}
use icecast_proxy_go.World.{World, id_of, mount_name}
use icecast_proxy_go.Manager.{is_active}
use icecast_proxy_go.Manager.Add.{add_client}
use icecast_proxy_go.Manager.Add.Opens.{add_client-bad_config}
use icecast_proxy_go.Manager.Add.Laws.{
  add_client-joined, add_client-refused, with_joined, with_listed, put_mount,
}
use icecast_proxy_go.Manager.Remove.{remove_client}
use icecast_proxy_go.Manager.Remove.Laws.{remove_client-missing, remove_client-waiting}
use icecast_proxy_go.Manager.Serve.{on_error, on_data, on_client}
use icecast_proxy_go.Manager.Serve.Laws.{on_data-discards}

-- A reader that failed with no error, as after its own panic, takes the whole manager down: once
-- its client is removed, the log line panics.
pub on_error-nil :
    (client : ℕ) (w w' : World)
    → remove_client client w ≡ done tt w'
    → on_error (record { err = none; client = client }) w
      ≡ panicked (bytes "nil pointer dereference") w'
unfolding on_error
on_error-nil client w w' e = ground (arith, e)

-- Where the configuration lacks its icecast mapping, the first client of a mount takes the manager
-- down: it is refused, and its removal finds no mount.
pub on_client-bad_config :
    (lib : LibShout) (yaml : Yaml) (client : ℕ) (e : Str) (w : World)
    → lookup (mount_name w client) w.manager.mounts ≡ none
    → create_shout_map yaml w ≡ panicked e w
    → on_client lib yaml client w ≡ panicked (bytes "Unexisting mountpoint") w
unfolding on_client
on_client-bad_config lib yaml client e w missing config = ground (
  arith,
  add_client-bad_config lib yaml client e w missing config,
  remove_client-missing client w missing,
)

pub on_client-added :
    (lib : LibShout) (yaml : Yaml) (client : ℕ) (w v : World)
    → add_client lib yaml client w ≡ done none v
    → v.handlers.locked ≡ false
    → on_client lib yaml client w
      ≡ done tt (record v {
        handlers = connected_table (mount_name v client) client v.handlers;
        readers = v.readers ++ client ∷ [];
      })
unfolding on_client
on_client-added lib yaml client w v added free =
    ground (arith, added, connect_unlocked (mount_name v client) client v.handlers free)

on_client-rejected :
    (lib : LibShout) (yaml : Yaml) (client : ℕ) (w v : World) (e : Str)
    → add_client lib yaml client w ≡ done (some e) v
    → on_client lib yaml client w ≡ remove_client client v
unfolding on_client
on_client-rejected lib yaml client w v e added = ground (arith, added)

one_value : {o : Option ℕ} {m n : ℕ} → o ≡ some m → o ≡ some n → m ≡ n
one_value p q = cc

-- A mount with no clients and an empty queue, whose live identifier is that of a client that left,
-- is joined by a client, with the lock free: the client is listed, queued and read from, but not
-- made live, and all that it sends is discarded.
pub revived_mount_is_silent :
    (lib : LibShout) (yaml : Yaml) (client m : ℕ) (w : World)
    → lookup (mount_name w client) w.manager.mounts ≡ some m
    → (w.mount_at m).clients.by_id ≡ []
    → (w.mount_at m).client_queue ≡ []
    → is_active (w.mount_at m).active (id_of w client) ≡ false
    → w.handlers.locked ≡ false
    → (w' : World) × (on_client lib yaml client w ≡ done tt w')
      × ((w'.mount_at m).clients.by_id ≡ (id_of w client, client) ∷ [])
      × ((w'.mount_at m).client_queue ≡ id_of w client ∷ [])
      × ((w'.mount_at m).active ≡ (w.mount_at m).active)
      × ((payload : Str)
          → on_data lib (record { payload = payload; client = client }) w' ≡ done tt w')
unfolding add insert
revived_mount_is_silent lib yaml client m w found nobody queue dead free =
    let v = put_mount m (with_joined m client w) w in
    let w' : World = record v {
      handlers = connected_table (mount_name v client) client v.handlers;
      readers = v.readers ++ client ∷ [];
    } in
    (
      w',
      on_client-added lib yaml client w v
          (add_client-joined lib yaml client m w found (ground (arith, queue))) free,
      simp update_self (ground (arith, nobody)),
      simp update_self (ground (arith, queue)),
      simp update_self,
      λ payload.
          on_data-discards lib (record { payload = payload; client = client }) w'
            (λ n e.
              subst
                (λ k.
                  is_active (update m (with_joined m client w) w.mount_at k).active (id_of w client)
                  ≡ false)
                (one_value found e) (simp update_self dead)),
    )

-- A client that finds the queue full, is not listed yet and is not the live one is turned away: it
-- is not read from, its connection is closed, and the listed clients, the live one and the queue
-- are as before. The mount's container is valid, not empty and has room in its counter, the lock is
-- free and the mount is in the table.
pub on_client-turns_away :
    (lib : LibShout) (yaml : Yaml) (client m : ℕ) (cs : List ℕ) (w : World)
    → lookup (mount_name w client) w.manager.mounts ≡ some m
    → queue_limit ≤ length (w.mount_at m).client_queue
    → is_active (w.mount_at m).active (id_of w client) ≡ false
    → IsValid (w.mount_at m).clients
    → (w.mount_at m).clients.length ≢ 0
    → (w.mount_at m).clients.length + 1 < 2147483648
    → get_by_id (w.mount_at m).clients (id_of w client) ≡ none
    → w.handlers.locked ≡ false
    → lookup (mount_name w client) w.handlers.handler_mounts ≡ some cs
    → (w' : World) × (on_client lib yaml client w ≡ done tt w')
      × ((j : ℕ) → get_by_id (w'.mount_at m).clients j ≡ get_by_id (w.mount_at m).clients j)
      × ((w'.mount_at m).active ≡ (w.mount_at m).active)
      × ((w'.mount_at m).client_queue ≡ (w.mount_at m).client_queue)
      × (w'.closed (w.clients client).conn ≡ true)
      × (w'.readers ≡ w.readers)
on_client-turns_away lib yaml client m cs w found full other valid some_listed room fresh free
      entry =
    let v = put_mount m (with_listed m client w) w in
    let same : v.mount_at m ≡ with_listed m client w = update_self m _ w.mount_at in
    let valid' : IsValid (v.mount_at m).clients =
      subst (λ t. IsValid t.clients) (sym same)
        (add-IsValid (id_of w client) client (w.mount_at m).clients valid fresh room) in
    let left : (remove (id_of w client) (v.mount_at m).clients).length ≢ 0 = λ e. some_listed (
      sym (length-remove-add (id_of w client) client (w.mount_at m).clients valid.bounded)
      ∙ ap (λ t. (remove (id_of w client) t.clients).length) (sym same)
      ∙ e) in
    let (w', removed, listed, active, queue, conn, manager, readers) =
      remove_client-waiting client m cs v found
        (ap (λ t. is_active t.active (id_of w client)) same ∙ other) valid' left free entry in
    (
      w',
      on_client-rejected lib yaml client w v full_queue
            (add_client-refused lib yaml client m w found full)
          ∙ removed,
      λ j.
          listed j
          ∙ ap (λ t. if id_of w client == j then none else get_by_id t.clients j) same
          ∙ ground (arith, get_by_id-add (id_of w client) j client (w.mount_at m).clients, fresh),
      active ∙ ap (λ t. t.active) same,
      queue ∙ ap (λ t. t.client_queue) same,
      conn,
      readers,
    )
