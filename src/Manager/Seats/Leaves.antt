-- ===== src/Manager/Seats/Leaves.antt =====
-- RemoveClient of server/icecast.go takes a source out of the line, or off the air.
use icecast_proxy_go.Prelude.{
  ℕ, ◌<◌, ◌≡◌, ◌≢◌, refl, sym, ap, ap₂, subst, ◌∙◌, inl, inr, Bool-cases, true, false, List, [],
  ◌∷◌, ◌++◌, some, All, done, length, lookup, text_eq, update_self,
}
use icecast_proxy_go.Client.{ClientId}
use icecast_proxy_go.Container.{get_by_id, remove}
use icecast_proxy_go.Container.Laws.{IsValid}
use icecast_proxy_go.Handlers.Laws.{handle_client_live-locked, handle_client_live-keeps}
use icecast_proxy_go.Mount.{Mount}
use icecast_proxy_go.World.{World, id_of, mount_name, meta_cap, collector_cap}
use icecast_proxy_go.Manager.{is_active}
use icecast_proxy_go.Manager.Live.{next_live_client}
use icecast_proxy_go.Manager.Live.Laws.{IsStale, with_queue, promoted, next_live_client-promoted}
use icecast_proxy_go.Manager.Remove.{remove_client}
use icecast_proxy_go.Manager.Remove.Laws.{
  remove_client-found, remove_from-waiting, remove_from-live,
}
use icecast_proxy_go.Manager.Seats.{is_some, seats, leave, Distinct, line, line_from, IsTidy}
use icecast_proxy_go.Manager.Seats.Laws.{==_ne, Distinct-append_right, All-append_right}
use icecast_proxy_go.Manager.Seats.Queue.{
  Queue, all_stale, next_up, inspect, stale-is_on, drop_client-ends, next_alone, promoted_at,
}
use icecast_proxy_go.Manager.Seats.Views.{
  removed-IsTidy, seats-waiting, seats-last, seats-next, active_of_is_active, Distinct-head,
}

-- What RemoveClient has done when it is over: it returned, the view is as promised and the mount is
-- in good order.
abbrev pub HasLeft : ℕ → ℕ → World → Type 0
HasLeft client m w =
    (w' : World) × (remove_client client w ≡ done tt w')
    × (seats (w'.mount_at m) ≡ leave (id_of w client) (seats (w.mount_at m)))
    × IsTidy w' m

module _ (client m : ℕ) (cs : List ℕ) (w : World)
    (found : lookup (mount_name w client) w.manager.mounts ≡ some m) (tidy : IsTidy w m)
    (listed : get_by_id (w.mount_at m).clients (id_of w client) ≡ some client)
    (room : length w.manager.meta_chan < meta_cap)
    (space : length w.manager.mount_collector < collector_cap) (free : w.handlers.locked ≡ false)
    (entry : lookup (mount_name w client) w.handlers.handler_mounts ≡ some cs) where
  leaves_waiting : is_active (w.mount_at m).active (id_of w client) ≡ false → HasLeft client m w
  leaves_waiting other =
      let id = id_of w client in
      let (w', e, places, same) = drop_client-ends m client cs w free entry space in
      let left : w'.mount_at m
          ≡ record (w.mount_at m) { clients = remove id (w.mount_at m).clients } =
        ap (λ f. f m) places ∙ update_self m _ w.mount_at in
      (
        w',
        remove_client-found client m w found ∙ remove_from-waiting m client w other ∙ e,
        ap seats left ∙ seats-waiting id (w.mount_at m) tidy.valid other,
        removed-IsTidy w w' m id client (w.mount_at m) tidy.valid tidy.owned tidy.lined listed left
            same,
      )

  -- The live source leaves, and `p` is the world once NextLiveClient has returned.
  leaves_live :
      (p : World) (t : Mount)
      → is_active (w.mount_at m).active (id_of w client) ≡ true
      → next_live_client m w ≡ done tt p
      → p.mount_at m ≡ t
      → p.clients ≡ w.clients
      → p.ids ≡ w.ids
      → p.manager.mount_collector ≡ w.manager.mount_collector
      → p.handlers.locked ≡ false
      → (ds : List ℕ) → lookup (mount_name w client) p.handlers.handler_mounts ≡ some ds
      → t.clients ≡ (w.mount_at m).clients
      → Distinct (line t)
      → seats (record t { clients = remove (id_of w client) t.clients })
        ≡ leave (id_of w client) (seats (w.mount_at m))
      → HasLeft client m w
  leaves_live p t live next at clients ids collector unlocked ds entry' kept lined view =
      let id = id_of w client in
      let named : mount_name p client ≡ mount_name w client =
        ap₂ (λ (f : ℕ → ClientId) g. (f (g client).client_id).mount) ids clients in
      let owner : id_of p client ≡ id = ap (λ g. (g client).client_id) clients in
      let (w', e, places, same) =
        drop_client-ends m client ds p unlocked
          (ap (λ n. lookup n p.handlers.handler_mounts) named ∙ entry')
          (subst (λ l. length l < collector_cap) (sym collector) space) in
      let left : w'.mount_at m ≡ record t { clients = remove id t.clients } =
        ap (λ f. f m) places
        ∙ update_self m _ p.mount_at
        ∙ ap₂ (λ (r : Mount) j. record r { clients = remove j r.clients }) at owner in
      (
        w',
        remove_client-found client m w found ∙ remove_from-live m client w p live next ∙ e,
        ap seats left ∙ view,
        removed-IsTidy w w' m id client t (subst IsValid (sym kept) tidy.valid)
            (λ j k h. tidy.owned j k (ap (λ c. get_by_id c j) (sym kept) ∙ h)) lined
            (ap (λ c. get_by_id c id) kept ∙ listed) left (same ∙ clients),
      )

  -- Nobody that waits is connected any more.
  leaves_alone :
      is_active (w.mount_at m).active (id_of w client) ≡ true
      → All (IsStale w.clients (w.mount_at m).clients) (w.mount_at m).client_queue
      → HasLeft client m w
  leaves_alone live stale =
      let t = w.mount_at m in
      let on_air = active_of_is_active t.active (id_of w client) live in
      let (p, next, at, clients, ids, manager, handlers) =
        next_alone m t.client_queue w refl stale in
      leaves_live p (record t { client_queue = [] }) live next at clients ids
        (ap (λ r. r.mount_collector) manager) (ap (λ h. h.locked) handlers ∙ free) cs
        (ap (λ h. lookup (mount_name w client) h.handler_mounts) handlers ∙ entry) refl
        (subst (λ a. Distinct (line_from a [])) (sym on_air) (tt, tt))
        (seats-last (id_of w client) client t tidy.valid on_air listed
          (stale-is_on w.clients t.clients t.client_queue tidy.owned stale))

  -- One that waits is connected.
  leaves_next :
      (stale rest : List ℕ) (id next : ℕ)
      → is_active (w.mount_at m).active (id_of w client) ≡ true
      → (w.mount_at m).client_queue ≡ stale ++ (id ∷ rest)
      → All (IsStale w.clients (w.mount_at m).clients) stale
      → get_by_id (w.mount_at m).clients id ≡ some next
      → HasLeft client m w
  leaves_next stale rest id next live queue gone next_listed =
      let t = w.mount_at m in
      let on_air = active_of_is_active t.active (id_of w client) live in
      let same = tidy.owned id next next_listed in
      let whole : Distinct (id_of w client ∷ (stale ++ (id ∷ rest))) =
        subst (λ q. Distinct (id_of w client ∷ q)) queue
          (Distinct-head t.active (id_of w client) t.client_queue on_air tidy.lined) in
      let new : All (λ y. id_of w client ≢ y) (id ∷ rest) =
        All-append_right (λ y. id_of w client ≢ y) stale (id ∷ rest) whole.0 in
      let other : is_active t.active id ≡ false =
        ap (λ a. is_active a id) on_air ∙ ==_ne (id_of w client) id new.0 in
      let (ds, entry') =
        handle_client_live-keeps (mount_name w next) (mount_name w client) next cs w.handlers
          entry in
      leaves_live (promoted m next (with_queue m rest w))
        (record t { active = some id; client_queue = rest }) live
        (next_live_client-promoted m stale rest id next w queue gone next_listed same other room)
        (promoted_at m next id rest w same) refl refl refl
        (handle_client_live-locked (mount_name w next) next w.handlers ∙ free) ds entry' refl
        (Distinct-append_right stale (id ∷ rest) whole.1)
        (seats-next (id_of w client) client id stale rest t tidy.valid on_air listed queue
          (stale-is_on w.clients t.clients stale tidy.owned gone) (ap is_some next_listed) new)

  -- A listed source leaves a mount in good order: if the channels of the manager have room, the
  -- lock is free and the mount is in the table, then RemoveClient returns. If the source was on the
  -- air, the first one that waits and is still connected is now; else it is taken out of the line
  -- and the others keep their places. The mount is in good order again.
  pub remove_client-seats : HasLeft client m w
  remove_client-seats = elim (Bool-cases (is_active (w.mount_at m).active (id_of w client))) [
    | inr other ↦ leaves_waiting other
    | inl live ↦
        by_queue live (inspect w.clients (w.mount_at m).clients (w.mount_at m).client_queue)
  ]
    where
      by_queue :
          is_active (w.mount_at m).active (id_of w client) ≡ true
          → Queue w.clients (w.mount_at m).clients (w.mount_at m).client_queue
          → HasLeft client m w
      by_queue live (all_stale stale) = leaves_alone live stale
      by_queue live (next_up stale rest id next queue gone next_listed) =
          leaves_next stale rest id next live queue gone next_listed
