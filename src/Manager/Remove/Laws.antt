-- ===== src/Manager/Remove/Laws.antt =====
-- RemoveClient, and the collection of a mount that no client is left on.
use icecast_proxy_go.Prelude.{
  ℕ, ◌≡◌, ◌≢◌, ◌<◌, refl, ap, ◌∙◌, true, false, List, [], ◌∷◌, ◌++◌, none, some, arith, ◌==◌,
  if◌then◌else◌, done, panicked, length, All, update, update_self, lookup, text_eq, nat_eq, bytes,
}
use icecast_proxy_go.Container.{get_by_id, remove}
use icecast_proxy_go.Container.Laws.{IsValid, get_by_id-remove, remove-IsValid, length_of_get_by_id}
use icecast_proxy_go.Handlers.Laws.{
  disconnected_table, disconnect_unlocked, handle_client_live-locked, handle_client_live-keeps,
}
use icecast_proxy_go.World.{World, id_of, mount_name, meta_cap, collector_cap, send_collector}
use icecast_proxy_go.Manager.{is_active}
use icecast_proxy_go.Manager.Live.{next_live_client, next_live_from}
use icecast_proxy_go.Manager.Live.Laws.{IsStale, with_queue, promoted, next_live_client-promoted}
use icecast_proxy_go.Manager.Remove.{drop_client, remove_from, remove_client}

-- Without its mount a client cannot be removed: the manager panics.
pub remove_client-missing :
    (client : ℕ) (w : World)
    → lookup (mount_name w client) w.manager.mounts ≡ none
    → remove_client client w ≡ panicked (bytes "Unexisting mountpoint") w
unfolding remove_client
remove_client-missing client w missing = ground arith

-- The world after the client left the mount at `m`, before the count of those that are left.
abbrev pub dropped : ℕ → ℕ → List ℕ → World → World
dropped m client cs w = record w {
  mount_at =
      update m (record (w.mount_at m) { clients = remove (id_of w client) (w.mount_at m).clients })
        w.mount_at;
  closed = update (w.clients client).conn true w.closed;
  handlers = disconnected_table (mount_name w client) client cs w.handlers;
}

abbrev pub left_over : ℕ → ℕ → World → ℕ
left_over m client w = (remove (id_of w client) (w.mount_at m).clients).length

pub drop_client-stays :
    (m client : ℕ) (cs : List ℕ) (w : World)
    → w.handlers.locked ≡ false
    → lookup (mount_name w client) w.handlers.handler_mounts ≡ some cs
    → (left_over m client w == 0) ≡ false
    → drop_client m client w ≡ done tt (dropped m client cs w)
unfolding drop_client
drop_client-stays m client cs w free entry others = ground (
  arith,
  disconnect_unlocked (mount_name w client) client cs w.handlers free entry,
  update_self m (record (w.mount_at m) { clients = remove (id_of w client) (w.mount_at m).clients })
      w.mount_at,
)

pub drop_client-last :
    (m client : ℕ) (cs : List ℕ) (w : World)
    → w.handlers.locked ≡ false
    → lookup (mount_name w client) w.handlers.handler_mounts ≡ some cs
    → (left_over m client w == 0) ≡ true
    → drop_client m client w ≡ send_collector m (dropped m client cs w)
unfolding drop_client
drop_client-last m client cs w free entry others = ground (
  arith,
  disconnect_unlocked (mount_name w client) client cs w.handlers free entry,
  update_self m (record (w.mount_at m) { clients = remove (id_of w client) (w.mount_at m).clients })
      w.mount_at,
)

pub remove_client-found :
    (client m : ℕ) (w : World)
    → lookup (mount_name w client) w.manager.mounts ≡ some m
    → remove_client client w ≡ remove_from m client w
unfolding remove_client
remove_client-found client m w found = ground arith

pub remove_from-waiting :
    (m client : ℕ) (w : World)
    → is_active (w.mount_at m).active (id_of w client) ≡ false
    → remove_from m client w ≡ drop_client m client w
unfolding remove_from
remove_from-waiting m client w other = ground arith

pub remove_from-live :
    (m client : ℕ) (w w' : World)
    → is_active (w.mount_at m).active (id_of w client) ≡ true
    → next_live_client m w ≡ done tt w'
    → remove_from m client w ≡ drop_client m client w'
unfolding remove_from
remove_from-live m client w w' live next = ground arith

-- A client that is not the live one leaves a mount whose container is valid and not empty without
-- it: it is no longer listed while the others are, its connection is closed, and the live client,
-- the queue and the manager stay. The lock is free and the mount is in the table.
pub remove_client-waiting :
    (client m : ℕ) (cs : List ℕ) (w : World)
    → lookup (mount_name w client) w.manager.mounts ≡ some m
    → is_active (w.mount_at m).active (id_of w client) ≡ false
    → IsValid (w.mount_at m).clients
    → (remove (id_of w client) (w.mount_at m).clients).length ≢ 0
    → w.handlers.locked ≡ false
    → lookup (mount_name w client) w.handlers.handler_mounts ≡ some cs
    → (w' : World) × (remove_client client w ≡ done tt w')
      × ((j : ℕ)
          → get_by_id (w'.mount_at m).clients j
            ≡ (if id_of w client == j then none else get_by_id (w.mount_at m).clients j))
      × ((w'.mount_at m).active ≡ (w.mount_at m).active)
      × ((w'.mount_at m).client_queue ≡ (w.mount_at m).client_queue)
      × (w'.closed (w.clients client).conn ≡ true)
      × (w'.manager ≡ w.manager)
      × (w'.readers ≡ w.readers)
remove_client-waiting client m cs w found other valid left free entry = (
  dropped m client cs w,
  remove_client-found client m w found
      ∙ remove_from-waiting m client w other
      ∙ drop_client-stays m client cs w free entry (ground arith),
  λ j. simp update_self (get_by_id-remove (id_of w client) j (w.mount_at m).clients valid),
  rw update_self,
  rw update_self,
  rw update_self,
  refl,
  refl,
)

-- If the live client leaves, the queue is empty, the counter drops to zero and the collector has
-- room, then the mount is registered for collection and stays in the map until then; the client's
-- connection is closed. The lock is free and the mount is in the table.
pub remove_client-last :
    (client m : ℕ) (cs : List ℕ) (w : World)
    → lookup (mount_name w client) w.manager.mounts ≡ some m
    → (w.mount_at m).active ≡ some (id_of w client)
    → (w.mount_at m).client_queue ≡ []
    → (remove (id_of w client) (w.mount_at m).clients).length ≡ 0
    → w.handlers.locked ≡ false
    → lookup (mount_name w client) w.handlers.handler_mounts ≡ some cs
    → length w.manager.mount_collector < collector_cap
    → (w' : World) × (remove_client client w ≡ done tt w')
      × (w'.manager.mount_collector ≡ w.manager.mount_collector ++ m ∷ [])
      × (w'.manager.mounts ≡ w.manager.mounts)
      × ((w'.mount_at m).active ≡ some (id_of w client))
      × ((w'.mount_at m).clients.length ≡ 0)
      × (w'.closed (w.clients client).conn ≡ true)
unfolding next_live_client next_live_from
remove_client-last client m cs w found active queue empty free entry room = (
  record (dropped m client cs w) {
    manager = record (w.manager) { mount_collector = w.manager.mount_collector ++ m ∷ [] };
  },
  remove_client-found client m w found
      ∙ remove_from-live m client w w (ground (arith, active)) (ground (arith, queue))
      ∙ drop_client-last m client cs w free entry (ground (arith, empty))
      ∙ ground arith,
  refl,
  refl,
  rw update_self active,
  rw update_self empty,
  rw update_self,
)

-- The live client leaves while others wait. If its container is valid and it is listed, if the
-- first identifier of the queue that is not stale is listed under another client's address that has
-- it, if the channel for metadata has room, the lock is free and the mount is in the table, then
-- RemoveClient makes that next client live, drops the stale identifiers before it, takes the one
-- that left off the list and closes its connection; the mount map stays.
pub remove_client-hands_over :
    (client m id next : ℕ) (cs stale rest : List ℕ) (w : World)
    → lookup (mount_name w client) w.manager.mounts ≡ some m
    → (w.mount_at m).active ≡ some (id_of w client)
    → IsValid (w.mount_at m).clients
    → get_by_id (w.mount_at m).clients (id_of w client) ≡ some client
    → (w.mount_at m).client_queue ≡ stale ++ (id ∷ rest)
    → All (IsStale w.clients (w.mount_at m).clients) stale
    → get_by_id (w.mount_at m).clients id ≡ some next
    → id_of w next ≡ id
    → id ≢ id_of w client
    → length w.manager.meta_chan < meta_cap
    → w.handlers.locked ≡ false
    → lookup (mount_name w client) w.handlers.handler_mounts ≡ some cs
    → (w' : World) × (remove_client client w ≡ done tt w')
      × ((w'.mount_at m).active ≡ some id)
      × ((w'.mount_at m).client_queue ≡ rest)
      × (get_by_id (w'.mount_at m).clients (id_of w client) ≡ none)
      × (get_by_id (w'.mount_at m).clients id ≡ some next)
      × (w'.closed (w.clients client).conn ≡ true)
      × (w'.manager.mounts ≡ w.manager.mounts)
remove_client-hands_over client m id next cs stale rest w found active valid listed queue h
      next_listed same other room free entry =
    let p = promoted m next (with_queue m rest w) in
    let (ds, entry') =
      handle_client_live-keeps (mount_name w next) (mount_name w client) next cs w.handlers entry in
    let left = remove (id_of w client) (w.mount_at m).clients in
    let gone : get_by_id left (id_of w client) ≡ none =
      ground
        (arith, get_by_id-remove (id_of w client) (id_of w client) (w.mount_at m).clients valid) in
    let kept : get_by_id left id ≡ some next =
      ground (arith, get_by_id-remove (id_of w client) id (w.mount_at m).clients valid) in
    let some_left : (left.length == 0) ≡ false = ground (
      arith,
      length_of_get_by_id id next left
          (remove-IsValid (id_of w client) client (w.mount_at m).clients valid listed) kept,
    ) in
    let same_clients : (p.mount_at m).clients ≡ (w.mount_at m).clients = simp update_self in
    (
      dropped m client ds p,
      remove_client-found client m w found
          ∙ remove_from-live m client w p (ground (arith, active)) (
              next_live_client-promoted m stale rest id next w queue h next_listed same
                (ground (arith, active)) room)
          ∙ drop_client-stays m client ds p
              (handle_client_live-locked (mount_name w next) next w.handlers ∙ free) entry'
              (ap (λ c. (remove (id_of w client) c).length == 0) same_clients ∙ some_left),
      simp update_self (ap some same),
      simp update_self,
      simp update_self gone,
      simp update_self kept,
      simp update_self,
      refl,
    )
