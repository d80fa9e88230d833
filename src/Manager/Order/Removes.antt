-- ===== src/Manager/Order/Removes.antt =====
-- RemoveClient keeps the order.
use icecast_proxy_go.Prelude.{
  bind-Preserves, gets-Preserves, option-Preserves, panic-Preserves, ℕ, ◌≡◌, List, ◌++◌, Option,
  none, some, All-imp, arith, lookup, nat_eq, lookup-delete, delete-HasUniqueKeys, panic, modify,
  bytes, text_eq,
}
use icecast_proxy_go.Container.{Container, get_by_id, remove}
use icecast_proxy_go.World.{at_mount, id_of, mount_name}
use icecast_proxy_go.Manager.Remove.{drop_client, remove_from, remove_client}
use icecast_proxy_go.Manager.Order.{roster, IsUnknown, IsProper, KeepsOrder}
use icecast_proxy_go.Manager.Order.Steps.{ordering, put-InOrder}
use icecast_proxy_go.Manager.Order.Lives.{next_live_client-KeepsOrder}

-- Nobody is listed anew by a removal.
get_by_id-removed :
    (id j client : ℕ) (c : Container) (owner : ℕ → ℕ) (queue : List ℕ) (active : Option ℕ)
    → IsProper owner (record { queue = queue; clients = c; active = active })
    → get_by_id (remove id c) j ≡ some client
    → get_by_id c j ≡ some client
unfolding get_by_id remove
get_by_id-removed id j client c owner queue active p e =
    ground (arith, lookup-delete id j c.by_id p.keyed)

get_by_id-removed_none :
    (id j : ℕ) (c : Container) (owner : ℕ → ℕ) (queue : List ℕ) (active : Option ℕ)
    → IsProper owner (record { queue = queue; clients = c; active = active })
    → get_by_id c j ≡ none
    → get_by_id (remove id c) j ≡ none
unfolding get_by_id remove
get_by_id-removed_none id j c owner queue active p e =
    ground (arith, lookup-delete id j c.by_id p.keyed)

keyed-remove :
    (id : ℕ) (c : Container) (owner : ℕ → ℕ) (queue : List ℕ) (active : Option ℕ)
    → IsProper owner (record { queue = queue; clients = c; active = active })
    → IsProper owner (record { queue = queue; clients = remove id c; active = active })
unfolding remove
keyed-remove id c owner queue active p = record {
  keyed = delete-HasUniqueKeys id c.by_id p.keyed;
  owned = λ j client e. p.owned j client (get_by_id-removed id j client c owner queue active p e);
  lined = p.lined;
}

delist-KeepsOrder :
    {later : List ℕ} (m id : ℕ)
    → KeepsOrder later (at_mount m (modify (λ t. record t { clients = remove id t.clients })))
delist-KeepsOrder {later} m id = record {
  apply = λ w s.
      let t = w.mount_at m in
      put-InOrder later w m (record t { clients = remove id t.clients })
        (keyed-remove id t.clients (id_of w) t.client_queue t.active (s.proper m))
        (All-imp (λ c. IsUnknown (id_of w c) (roster t))
          (λ c. IsUnknown (id_of w c) (roster (record t { clients = remove id t.clients })))
          (λ c u. (
            u.0,
            get_by_id-removed_none id (id_of w c) t.clients (id_of w) t.client_queue t.active
                (s.proper m) u.1,
          ))
          (w.manager.receiver ++ later) (s.unknown m))
        s;
}

drop_client-KeepsOrder : {later : List ℕ} (m client : ℕ) → KeepsOrder later (drop_client m client)
unfolding drop_client
drop_client-KeepsOrder m client = search (ordering, delist-KeepsOrder) depth 18

remove_from-KeepsOrder : {later : List ℕ} (m client : ℕ) → KeepsOrder later (remove_from m client)
unfolding remove_from
remove_from-KeepsOrder m client =
    search (ordering, next_live_client-KeepsOrder, drop_client-KeepsOrder) depth 14

pub remove_client-KeepsOrder :
    {later : List ℕ} (client : ℕ) → KeepsOrder later (remove_client client)
unfolding remove_client
remove_client-KeepsOrder client =
    bind-Preserves _ _ (gets-Preserves (λ w. mount_name w client)) λ name.
      bind-Preserves _ _ (gets-Preserves (λ w. lookup name w.manager.mounts)) λ found.
        option-Preserves found (panic (bytes "Unexisting mountpoint")) (λ m. remove_from m client)
          (panic-Preserves (bytes "Unexisting mountpoint")) (λ m. remove_from-KeepsOrder m client)
