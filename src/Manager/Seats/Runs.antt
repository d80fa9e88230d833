-- ===== src/Manager/Seats/Runs.antt =====
-- Sources that come and go on one mount: the manager of server/icecast.go serves them in the order of
-- a line.
use icecast_proxy_go.Prelude.{
  ℕ, ◌+◌, ◌<◌, ◌≡◌, refl, sym, ap, subst, ◌∙◌, false, List, [], ◌∷◌, none, some, done,
  done_injective, length, lookup, text_eq,
}
use icecast_proxy_go.Config.{Yaml, queue_limit}
use icecast_proxy_go.Container.{get_by_id}
use icecast_proxy_go.Shout.{LibShout}
use icecast_proxy_go.World.{World, id_of, mount_name, meta_cap, collector_cap}
use icecast_proxy_go.Manager.Add.{add_client}
use icecast_proxy_go.Manager.Remove.{remove_client}
use icecast_proxy_go.Manager.Seats.{Seats, seats, join, leave, IsTidy}
use icecast_proxy_go.Manager.Seats.Joins.{IsNew, add_client-seats}
use icecast_proxy_go.Manager.Seats.Leaves.{remove_client-seats}

-- A source comes or goes, by its identifier.
pub data Change : Type 0 where
  comes goes : ℕ → Change

abbrev pub change : Change → Seats → Seats
change (comes id) s = join id s
change (goes id) s = leave id s

-- One change after the other.
abbrev pub changes : List Change → Seats → Seats
changes [] s = s
changes (c ∷ cs) s = changes cs (change c s)

-- The mount is there and has room, and the client is not known to it.
pub record CanJoin (client m : ℕ) (w : World) : Type 0 where
  pub found : lookup (mount_name w client) w.manager.mounts ≡ some m
  pub room : length (w.mount_at m).client_queue < queue_limit
  pub new : IsNew (id_of w client) (w.mount_at m)
  pub fresh : get_by_id (w.mount_at m).clients (id_of w client) ≡ none
  pub small : (w.mount_at m).clients.length + 1 < 2147483648

-- The client is listed on the mount, the manager's channels have room and the lock is free.
pub record CanLeave (client m : ℕ) (cs : List ℕ) (w : World) : Type 0 where
  pub found : lookup (mount_name w client) w.manager.mounts ≡ some m
  pub listed : get_by_id (w.mount_at m).clients (id_of w client) ≡ some client
  pub room : length w.manager.meta_chan < meta_cap
  pub space : length w.manager.mount_collector < collector_cap
  pub free : w.handlers.locked ≡ false
  pub entry : lookup (mount_name w client) w.handlers.handler_mounts ≡ some cs

module _ (lib : LibShout) (yaml : Yaml) (m : ℕ) where
  -- AddClient and RemoveClient, called one after the other for clients of the mount.
  pub data Serves : World → List Change → World → Type 0 where
    idle : {w : World} → Serves w [] w
    adds :
        {w u v : World} {cs : List Change} (client id : ℕ)
        → id ≡ id_of w client
        → CanJoin client m w
        → add_client lib yaml client w ≡ done none u
        → Serves u cs v
        → Serves w (comes id ∷ cs) v
    removes :
        {w u v : World} {cs : List Change} (client id : ℕ) (listed : List ℕ)
        → id ≡ id_of w client
        → CanLeave client m listed w
        → remove_client client w ≡ done tt u
        → Serves u cs v
        → Serves w (goes id ∷ cs) v

  -- Sources join a mount and leave it in any order, one at a time: each that joins is new to the
  -- mount, which is there and has room; each that leaves is listed on it, while the channels of the
  -- manager have room, the lock is free and the mount is in the table. If the mount was in good
  -- order before, then afterwards it is as a line that they joined at the end and left says: who is
  -- on the air, and who waits in which order. It is in good order again.
  pub Serves-refines :
      {w v : World} {cs : List Change}
      → Serves w cs v
      → IsTidy w m
      → (seats (v.mount_at m) ≡ changes cs (seats (w.mount_at m))) × IsTidy v m
  Serves-refines idle tidy = (refl, tidy)
  Serves-refines {w} (adds {u = u} {cs = cs} client id same can called later) tidy =
      let (u', e, view, tidy') =
        add_client-seats lib yaml client m w can.found can.room tidy can.new can.fresh can.small in
      let at : u' ≡ u = (done_injective (sym e ∙ called)).1 in
      let (rest, end) = Serves-refines later (subst (λ x. IsTidy x m) at tidy') in
      (
        rest
            ∙ ap (changes cs) (
                ap (λ x. seats (x.mount_at m)) (sym at)
                ∙ view
                ∙ ap (λ i. join i (seats (w.mount_at m))) (sym same)),
        end,
      )
  Serves-refines {w} (removes {u = u} {cs = cs} client id listed same can called later) tidy =
      let (u', e, view, tidy') =
        remove_client-seats client m listed w can.found tidy can.listed can.room can.space can.free
          can.entry in
      let at : u' ≡ u = (done_injective (sym e ∙ called)).1 in
      let (rest, end) = Serves-refines later (subst (λ x. IsTidy x m) at tidy') in
      (
        rest
            ∙ ap (changes cs) (
                ap (λ x. seats (x.mount_at m)) (sym at)
                ∙ view
                ∙ ap (λ i. leave i (seats (w.mount_at m))) (sym same)),
        end,
      )
