-- ===== src/Manager/Seats/Queue.antt =====
-- What NextLiveClient and RemoveClient of server/icecast.go find in the queue of a mount.
use icecast_proxy_go.Prelude.{
  ℕ, ◌<◌, ◌≡◌, refl, ap, ap₂, ◌∙◌, inl, inr, Bool-cases, Option-cases, false, List, [], ◌∷◌, ◌++◌,
  some, ◌==◌, All, arith, done, length, lookup, text_eq, update_self,
}
use icecast_proxy_go.Client.{Client}
use icecast_proxy_go.Container.{Container, get_by_id}
use icecast_proxy_go.Mount.{Mount}
use icecast_proxy_go.World.{World, id_of, mount_name, collector_cap}
use icecast_proxy_go.Manager.Live.{next_live_client, next_live_from}
use icecast_proxy_go.Manager.Live.Laws.{IsStale, with_queue, promoted, next_live_from-All_stale}
use icecast_proxy_go.Manager.Remove.{drop_client}
use icecast_proxy_go.Manager.Remove.Laws.{dropped, left_over, drop_client-stays, drop_client-last}
use icecast_proxy_go.Manager.Seats.{is_some, is_on}

-- The queue is stale identifiers, or such and then one that is not.
pub data Queue (clients : ℕ → Client) (c : Container) (queue : List ℕ) : Type 0 where
  all_stale : All (IsStale clients c) queue → Queue clients c queue
  next_up :
      (stale rest : List ℕ) (id client : ℕ)
      → queue ≡ stale ++ (id ∷ rest)
      → All (IsStale clients c) stale
      → get_by_id c id ≡ some client
      → Queue clients c queue

behind :
    (clients : ℕ → Client) (c : Container) (id : ℕ) (queue : List ℕ)
    → IsStale clients c id
    → Queue clients c queue
    → Queue clients c (id ∷ queue)
behind clients c id queue h (all_stale hs) = all_stale (h, hs)
behind clients c id queue h (next_up stale rest next client e hs found) =
    next_up (id ∷ stale) rest next client (ap (◌∷◌ id) e) (h, hs) found

pub inspect : (clients : ℕ → Client) (c : Container) (queue : List ℕ) → Queue clients c queue
inspect clients c [] = all_stale tt
inspect clients c (id ∷ queue) = elim (Option-cases (get_by_id c id)) [
  | inr (client, found) ↦ next_up [] queue id client refl tt found
  | inl missing ↦ behind clients c id queue (inl missing) (inspect clients c queue)
]

pub stale-is_on :
    (clients : ℕ → Client) (c : Container) (xs : List ℕ)
    → ((id client : ℕ) → get_by_id c id ≡ some client → (clients client).client_id ≡ id)
    → All (IsStale clients c) xs
    → All (λ x. is_on c x ≡ false) xs
stale-is_on clients c [] owned h = tt
stale-is_on clients c (x ∷ xs) owned h = (by_stale h.0, stale-is_on clients c xs owned h.1)
  where
    by_stale : IsStale clients c x → is_on c x ≡ false
    by_stale (inl missing) = ap is_some missing
    by_stale (inr (client, found, other)) = absurd (other (owned x client found))

-- The client is off the list and its connection closed, whether or not the mount is empty then.
pub drop_client-ends :
    (m client : ℕ) (cs : List ℕ) (w : World)
    → w.handlers.locked ≡ false
    → lookup (mount_name w client) w.handlers.handler_mounts ≡ some cs
    → length w.manager.mount_collector < collector_cap
    → (w' : World) × (drop_client m client w ≡ done tt w')
      × (w'.mount_at ≡ (dropped m client cs w).mount_at)
      × (w'.clients ≡ w.clients)
drop_client-ends m client cs w free entry room = elim (Bool-cases (left_over m client w == 0)) [
  | inl empty ↦ (
    record (dropped m client cs w) {
      manager = record (w.manager) { mount_collector = w.manager.mount_collector ++ m ∷ [] };
    },
    drop_client-last m client cs w free entry empty ∙ ground arith,
    refl,
    refl,
  )
  | inr others ↦
      (dropped m client cs w, drop_client-stays m client cs w free entry others, refl, refl)
]

-- NextLiveClient where nobody that waits is connected.
pub next_alone :
    (m : ℕ) (queue : List ℕ) (w : World)
    → (w.mount_at m).client_queue ≡ queue
    → All (IsStale w.clients (w.mount_at m).clients) queue
    → (p : World) × (next_live_client m w ≡ done tt p)
      × (p.mount_at m ≡ record (w.mount_at m) { client_queue = [] })
      × (p.clients ≡ w.clients)
      × (p.ids ≡ w.ids)
      × (p.manager ≡ w.manager)
      × (p.handlers ≡ w.handlers)
unfolding next_live_client next_live_from
next_alone m [] w e stale = (
  w,
  ap (λ q. next_live_from m q w) e,
  ap (λ q. record (w.mount_at m) { client_queue = q }) e,
  refl,
  refl,
  refl,
  refl,
)
next_alone m (s ∷ queue) w e stale = (
  with_queue m [] w,
  ap (λ q. next_live_from m q w) e ∙ next_live_from-All_stale m s queue w stale,
  update_self m _ w.mount_at,
  refl,
  refl,
  refl,
  refl,
)

pub promoted_at :
    (m next id : ℕ) (rest : List ℕ) (w : World)
    → id_of w next ≡ id
    → (promoted m next (with_queue m rest w)).mount_at m
      ≡ record (w.mount_at m) { active = some id; client_queue = rest }
promoted_at m next id rest w same =
    update_self m _ (with_queue m rest w).mount_at
    ∙ ap₂ (λ (r : Mount) j. record r { active = some j }) (update_self m _ w.mount_at) same
