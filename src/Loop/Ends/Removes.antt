-- ===== src/Loop/Ends/Removes.antt =====
-- What RemoveClient waits for, and the error case of the select statement.
use icecast_proxy_go.Prelude.{
  ℕ, List, [], ◌∷◌, Option, none, some, Str, ◌==◌, lookup, text_eq, nat_eq, skip, panic, bytes,
}
use icecast_proxy_go.Container.{get_by_id}
use icecast_proxy_go.World.{ErrPack, id_of, mount_name}
use icecast_proxy_go.Manager.Live.{unlive, swap_live_client, next_live_from, next_live_client}
use icecast_proxy_go.Manager.Remove.{drop_client, remove_from, remove_client}
use icecast_proxy_go.Manager.Serve.{on_error}
use icecast_proxy_go.Loop.Ends.{Reasoned}
use icecast_proxy_go.Loop.Ends.Waits.{
  bind-WaitsOnly, bool-WaitsOnly, option-WaitsOnly, skip-WaitsOnly, gets-WaitsOnly, panic-WaitsOnly,
  modify-WaitsOnly, at_mount-WaitsOnly, reasons,
}

unlive-Reasoned : (old : Option ℕ) → Reasoned (unlive old)
unlive-Reasoned none = skip-WaitsOnly
unlive-Reasoned (some client) = record { apply = λ w. tt }

swap_live_client-Reasoned : (m client : ℕ) → Reasoned (swap_live_client m client)
unfolding swap_live_client
swap_live_client-Reasoned m client = search (reasons, unlive-Reasoned) depth 18

next_live_from-Reasoned : (m : ℕ) (queue : List ℕ) → Reasoned (next_live_from m queue)
unfolding next_live_from
next_live_from-Reasoned m [] = skip-WaitsOnly
next_live_from-Reasoned m (new_id ∷ queue) =
    let rest = next_live_from-Reasoned m queue in
    bind-WaitsOnly _ _
      (at_mount-WaitsOnly m _ (modify-WaitsOnly (λ t. record t { client_queue = queue })))
      λ _.
        bind-WaitsOnly _ _ (gets-WaitsOnly (λ w. get_by_id (w.mount_at m).clients new_id)) λ found.
          option-WaitsOnly found (next_live_from m queue) _ rest λ new_client.
            bind-WaitsOnly _ _ (gets-WaitsOnly (λ w. id_of w new_client)) λ id.
              bool-WaitsOnly (id == new_id) (swap_live_client m new_client) (next_live_from m queue)
                (swap_live_client-Reasoned m new_client) rest

next_live_client-Reasoned : (m : ℕ) → Reasoned (next_live_client m)
unfolding next_live_client
next_live_client-Reasoned m = record {
  apply = λ w. (next_live_from-Reasoned m (w.mount_at m).client_queue).apply w;
}

drop_client-Reasoned : (m client : ℕ) → Reasoned (drop_client m client)
unfolding drop_client
drop_client-Reasoned m client = search reasons depth 18

remove_from-Reasoned : (m client : ℕ) → Reasoned (remove_from m client)
unfolding remove_from
remove_from-Reasoned m client =
    search (reasons, next_live_client-Reasoned, drop_client-Reasoned) depth 14

pub remove_client-Reasoned : (client : ℕ) → Reasoned (remove_client client)
unfolding remove_client
remove_client-Reasoned client =
    bind-WaitsOnly _ _ (gets-WaitsOnly (λ w. mount_name w client)) λ name.
      bind-WaitsOnly _ _ (gets-WaitsOnly (λ w. lookup name w.manager.mounts)) λ found.
        option-WaitsOnly found (panic (bytes "Unexisting mountpoint")) (λ m. remove_from m client)
          (panic-WaitsOnly (bytes "Unexisting mountpoint")) (λ m. remove_from-Reasoned m client)

log-Reasoned :
    (err : Option Str)
    → Reasoned {A = Unit {0}}
        (elim err [ none ↦ panic (bytes "nil pointer dereference") | some text ↦ skip ])
log-Reasoned none = panic-WaitsOnly _
log-Reasoned (some text) = skip-WaitsOnly

pub on_error-Reasoned : (pack : ErrPack) → Reasoned (on_error pack)
unfolding on_error
on_error-Reasoned pack =
    bind-WaitsOnly _ _ (remove_client-Reasoned pack.client) λ _. log-Reasoned pack.err
