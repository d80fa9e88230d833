-- ===== src/Manager/Live/Laws.antt =====
-- NextLiveClient promotes the first queued client that is still connected.
use icecast_proxy_go.Prelude.{
  ℕ, ◌≡◌, ◌≢◌, ◌<◌, sym, ap, subst, ◌∙◌, ◌⊎◌, inl, inr, false, List, [], ◌∷◌, ◌++◌, none, some,
  arith, state_of, done, blocked, length, All, update, update_self, update-update, ◌≤◌, state_of,
}
use icecast_proxy_go.Container.{Container, get_by_id}
use icecast_proxy_go.Client.{Client}
use icecast_proxy_go.Handlers.{handle_client_live}
use icecast_proxy_go.Handlers.Laws.{handle_client_live-done}
use icecast_proxy_go.World.{World, id_of, mount_name, meta_cap}
use icecast_proxy_go.Manager.{is_active}
use icecast_proxy_go.Manager.Live.{swap_live_client, next_live_from, next_live_client}

-- A queued identifier that NextLiveClient passes over: nobody is listed under it, or a client
-- whose identifier is another.
abbrev pub IsStale : (ℕ → Client) → Container → ℕ → Type 0
IsStale clients c id =
    (get_by_id c id ≡ none)
    ⊎ ((client : ℕ) × (get_by_id c id ≡ some client) × ((clients client).client_id ≢ id))

abbrev pub with_queue : ℕ → List ℕ → World → World
with_queue m queue w = record w {
  mount_at = update m (record (w.mount_at m) { client_queue = queue }) w.mount_at;
}

pub next_live_from-stale :
    (m id : ℕ) (queue : List ℕ) (w : World)
    → IsStale w.clients (w.mount_at m).clients id
    → next_live_from m (id ∷ queue) w ≡ next_live_from m queue (with_queue m queue w)
unfolding next_live_from update
next_live_from-stale m id queue w (inl e) = ground arith
next_live_from-stale m id queue w (inr (client, e, n)) = ground arith

pub next_live_from-hit :
    (m id client : ℕ) (rest : List ℕ) (w : World)
    → get_by_id (w.mount_at m).clients id ≡ some client
    → (w.clients client).client_id ≡ id
    → next_live_from m (id ∷ rest) w ≡ swap_live_client m client (with_queue m rest w)
unfolding next_live_from update
next_live_from-hit m id client rest w found same = ground arith

with_queue-queue :
    (m : ℕ) (q r : List ℕ) (w : World) → with_queue m r (with_queue m q w) ≡ with_queue m r w
with_queue-queue m q r w =
    ap (λ f. record w { mount_at = f })
      (rw (update_self m (record (w.mount_at m) { client_queue = q }) w.mount_at)
        (update-update m _ _ w.mount_at))

clients-with_queue :
    (m : ℕ) (q : List ℕ) (w : World)
    → ((with_queue m q w).mount_at m).clients ≡ (w.mount_at m).clients
clients-with_queue m q w = rw update_self

-- All queued identifiers are stale: the queue is emptied, and nothing else happens.
pub next_live_from-All_stale :
    (m s : ℕ) (queue : List ℕ) (w : World)
    → All (IsStale w.clients (w.mount_at m).clients) (s ∷ queue)
    → next_live_from m (s ∷ queue) w ≡ done tt (with_queue m [] w)
unfolding next_live_from
next_live_from-All_stale m s [] w h = next_live_from-stale m s [] w h.0
next_live_from-All_stale m s (s' ∷ queue) w h =
    next_live_from-stale m s (s' ∷ queue) w h.0
    ∙ next_live_from-All_stale m s' queue (with_queue m (s' ∷ queue) w) (
        subst (λ c. All (IsStale w.clients c) (s' ∷ queue))
          (sym (clients-with_queue m (s' ∷ queue) w)) h.1)
    ∙ ap (done tt) (with_queue-queue m (s' ∷ queue) [] w)

-- Stale identifiers are dropped from the queue, and the first other one's client is promoted.
next_live_from-skips :
    (m : ℕ) (stale rest : List ℕ) (id client : ℕ) (w : World)
    → All (IsStale w.clients (w.mount_at m).clients) stale
    → get_by_id (w.mount_at m).clients id ≡ some client
    → (w.clients client).client_id ≡ id
    → next_live_from m (stale ++ (id ∷ rest)) w ≡ swap_live_client m client (with_queue m rest w)
next_live_from-skips m [] rest id client w h found same =
    next_live_from-hit m id client rest w found same
next_live_from-skips m (s ∷ stale) rest id client w h found same =
    let q = stale ++ (id ∷ rest) in
    next_live_from-stale m s q w h.0
    ∙ next_live_from-skips m stale rest id client (with_queue m q w)
        (subst (λ c. All (IsStale w.clients c) stale) (sym (clients-with_queue m q w)) h.1)
        (ap (λ c. get_by_id c id) (clients-with_queue m q w) ∙ found) same
    ∙ ap (swap_live_client m client) (with_queue-queue m q rest w)

-- The world after the client at `client` was promoted on the mount at `m`.
abbrev pub promoted : ℕ → ℕ → World → World
promoted m client w = record w {
  mount_at = update m (record (w.mount_at m) { active = some (id_of w client) }) w.mount_at;
  handlers = state_of (handle_client_live (mount_name w client) client w.handlers);
  manager = record (w.manager) {
    meta_chan =
        w.manager.meta_chan
        ++ record { payload = (w.clients client).metadata; id = id_of w client; seen = false } ∷ [];
  };
}

swap_live_client_lem :
    (m client : ℕ) (w : World)
    → is_active (w.mount_at m).active (id_of w client) ≡ false
    → length w.manager.meta_chan < meta_cap
    → swap_live_client m client w ≡ done tt (promoted m client w)
unfolding swap_live_client
swap_live_client_lem m client w other room =
    ground (arith, handle_client_live-done (mount_name w client) client w.handlers)

-- The channel for metadata is full: the manager waits for itself.
pub swap_live_client-blocked :
    (m client : ℕ) (w : World)
    → is_active (w.mount_at m).active (id_of w client) ≡ false
    → meta_cap ≤ length w.manager.meta_chan
    → (w' : World) × (swap_live_client m client w ≡ blocked w')
unfolding swap_live_client
swap_live_client-blocked m client w other full = (
  record w {
    mount_at = update m (record (w.mount_at m) { active = some (id_of w client) }) w.mount_at;
    handlers = state_of (handle_client_live (mount_name w client) client w.handlers);
  },
  ground (arith, handle_client_live-done (mount_name w client) client w.handlers),
)

-- The same for NextLiveClient.
pub next_live_client-blocked :
    (m : ℕ) (stale rest : List ℕ) (id client : ℕ) (w : World)
    → (w.mount_at m).client_queue ≡ stale ++ (id ∷ rest)
    → All (IsStale w.clients (w.mount_at m).clients) stale
    → get_by_id (w.mount_at m).clients id ≡ some client
    → id_of w client ≡ id
    → is_active (w.mount_at m).active id ≡ false
    → meta_cap ≤ length w.manager.meta_chan
    → (w' : World) × (next_live_client m w ≡ blocked w')
unfolding next_live_client update
next_live_client-blocked m stale rest id client w queue h found same other full =
    let (w', e) =
      swap_live_client-blocked m client (with_queue m rest w) (ground (arith, same)) full in
    (
      w',
      ap (λ q. next_live_from m q w) queue
          ∙ next_live_from-skips m stale rest id client w h found same
          ∙ e,
    )

pub next_live_client-promoted :
    (m : ℕ) (stale rest : List ℕ) (id client : ℕ) (w : World)
    → (w.mount_at m).client_queue ≡ stale ++ (id ∷ rest)
    → All (IsStale w.clients (w.mount_at m).clients) stale
    → get_by_id (w.mount_at m).clients id ≡ some client
    → id_of w client ≡ id
    → is_active (w.mount_at m).active id ≡ false
    → length w.manager.meta_chan < meta_cap
    → next_live_client m w ≡ done tt (promoted m client (with_queue m rest w))
unfolding next_live_client update
next_live_client-promoted m stale rest id client w queue h found same other room =
    ap (λ q. next_live_from m q w) queue
    ∙ next_live_from-skips m stale rest id client w h found same
    ∙ swap_live_client_lem m client (with_queue m rest w) (ground (arith, same)) room

-- If the queue is stale identifiers followed by one that is listed for a client that has it and
-- that is not the live one, and the channel for metadata has room, then NextLiveClient makes that
-- client live, leaves the rest of the queue and the list of clients as they were, and sends the
-- client's metadata to the channel, behind what was there.
pub next_live_client-promotes :
    (m : ℕ) (stale rest : List ℕ) (id client : ℕ) (w : World)
    → (w.mount_at m).client_queue ≡ stale ++ (id ∷ rest)
    → All (IsStale w.clients (w.mount_at m).clients) stale
    → get_by_id (w.mount_at m).clients id ≡ some client
    → id_of w client ≡ id
    → is_active (w.mount_at m).active id ≡ false
    → length w.manager.meta_chan < meta_cap
    → (w' : World) × (next_live_client m w ≡ done tt w')
      × ((w'.mount_at m).active ≡ some id)
      × ((w'.mount_at m).client_queue ≡ rest)
      × ((w'.mount_at m).clients ≡ (w.mount_at m).clients)
      × (w'.manager.meta_chan
          ≡ w.manager.meta_chan
            ++ record { payload = (w.clients client).metadata; id = id; seen = false } ∷ [])
unfolding update
next_live_client-promotes m stale rest id client w queue h found same other room = (
  promoted m client (with_queue m rest w),
  next_live_client-promoted m stale rest id client w queue h found same other room,
  ground arith,
  ground arith,
  ground arith,
  ground arith,
)
