-- ===== src/Manager/Sound/Steps.antt =====
-- The methods of the manager keep its state sound.
use icecast_proxy_go.Prelude.{
  bind-Preserves, bool-Preserves, gets-Preserves, if-Preserves, option-Preserves, panic-Preserves,
  skip-Preserves, of_outcome, of_recover, preserving, Preserves, ℕ, ◌≡◌, ◌≢◌, ◌≤◌, ap, sym, ◌∙◌,
  HasUniqueKeys, Bool, false, str_eq, str_eq_iff, update_ne, update_cases, refl, ◌>>=◌, ◌>>◌, List,
  [], ◌∷◌, Option, none, some, Str, arith, ◌==◌, Outcome, state_of, done, panicked, blocked, length,
  lookup, delete, lookup-delete, delete-HasUniqueKeys, text_eq, Go, skip, modify, gets, panic,
  bytes,
}
use icecast_proxy_go.Config.{queue_limit}
use icecast_proxy_go.Container.{get_by_id, remove}
use icecast_proxy_go.Mount.{Mount, on_shout}
use icecast_proxy_go.Shout.{Shout, LibShout, is_freed}
use icecast_proxy_go.World.{id_of, mount_name, close_conn}
use icecast_proxy_go.Handlers.{handle_client_unlive}
use icecast_proxy_go.Manager.Live.{unlive, swap_live_client, next_live_from, next_live_client}
use icecast_proxy_go.Manager.Remove.{drop_client, remove_from, remove_client}
use icecast_proxy_go.Mount.Laws.{IsGuarded}
use icecast_proxy_go.Manager.Sound.Calls.{IsPlainly}
use icecast_proxy_go.Manager.Sound.{
  IsSound, Keeps, IsMild, IsMildly, at_mount-Keeps, same-IsSound, on_handlers-Keeps,
  send_meta-Keeps, send_collector-Keeps, put-IsSound,
}

pub close_conn-Keeps : {lib : LibShout} (client : ℕ) → Keeps lib (close_conn client)
close_conn-Keeps client = record { apply = λ w s. same-IsSound w _ s refl refl refl s.capped }

pub on_shout-IsMildly :
    {lib : LibShout} {A : Type 0} (k : Go Shout A) → IsPlainly lib k → IsMildly lib (on_shout k)
on_shout-IsMildly {lib} {A} k plainly = record {
  apply = λ t. by_outcome t (k t.shout) (plainly.apply t.shout) (plainly.keeps t.shout);
}
  where
    mild :
        (t : Mount) (s : Shout)
        → (IsGuarded lib t.shout.calls → IsGuarded lib s.calls)
        → (is_freed t.shout.calls ≡ false → is_freed s.calls ≡ false)
        → IsMild lib t (record t { shout = s })
    mild t s g f = record {
      same_name = refl;
      still_guarded = g;
      still_live = λ h. h;
      still_queued = λ h. h;
      still_usable = f;
    }

    by_outcome :
        (t : Mount) (o : Outcome Shout A)
        → (IsGuarded lib t.shout.calls → IsGuarded lib (state_of o).calls)
        → (is_freed t.shout.calls ≡ false → is_freed (state_of o).calls ≡ false)
        → IsMild lib t (state_of (on_shout (λ _. o) t))
    by_outcome t (done a s) g f = mild t s g f
    by_outcome t (panicked e s) g f = mild t s g f
    by_outcome t (blocked s) g f = mild t s g f

set_active-IsMildly :
    {lib : LibShout} (id : ℕ) → IsMildly lib (modify (λ t. record t { active = some id }))
set_active-IsMildly id = record {
  apply = λ t. record {
    same_name = refl;
    still_guarded = λ g. g;
    still_live = λ h e. cc;
    still_queued = λ h. h;
    still_usable = λ f. f;
  };
}

remove_listed-IsMildly :
    {lib : LibShout} (id : ℕ)
    → IsMildly lib (modify (λ t. record t { clients = remove id t.clients }))
remove_listed-IsMildly id = record {
  apply = λ t. record {
    same_name = refl;
    still_guarded = λ g. g;
    still_live = λ h. h;
    still_queued = λ h. h;
    still_usable = λ f. f;
  };
}

-- The rules for `search`.
pub ruleset keeping = (
  preserving, at_mount-Keeps, on_handlers-Keeps, send_meta-Keeps, send_collector-Keeps,
  close_conn-Keeps,
)

unlive-Keeps : {lib : LibShout} (old : Option ℕ) → Keeps lib (unlive old)
unlive-Keeps none = skip-Preserves
unlive-Keeps (some client) = on_handlers-Keeps (handle_client_unlive client)

pub swap_live_client-Keeps : {lib : LibShout} (m client : ℕ) → Keeps lib (swap_live_client m client)
unfolding swap_live_client
swap_live_client-Keeps m client = search (keeping, set_active-IsMildly, unlive-Keeps) depth 16

set_queue-IsMildly :
    {lib : LibShout} (queue : List ℕ)
    → length queue ≤ queue_limit
    → IsMildly lib (modify (λ t. record t { client_queue = queue }))
set_queue-IsMildly queue h = record {
  apply = λ t. record {
    same_name = refl;
    still_guarded = λ g. g;
    still_live = λ l. l;
    still_queued = λ _. h;
    still_usable = λ f. f;
  };
}

next_live_from-Keeps :
    {lib : LibShout} (m : ℕ) (queue : List ℕ)
    → length queue ≤ queue_limit
    → Keeps lib (next_live_from m queue)
unfolding next_live_from
next_live_from-Keeps m [] h = skip-Preserves
next_live_from-Keeps {lib} m (new_id ∷ queue) h =
    let rest = next_live_from-Keeps {lib = lib} m queue (omega arith) in
    let popped = set_queue-IsMildly {lib = lib} queue (omega arith) in
    bind-Preserves _ _ (at_mount-Keeps m _ popped) λ _.
      bind-Preserves _ _ (gets-Preserves (λ w. get_by_id (w.mount_at m).clients new_id)) λ found.
        option-Preserves found (next_live_from m queue) _ rest λ new_client.
          bind-Preserves _ _ (gets-Preserves (λ w. id_of w new_client)) λ id.
            bool-Preserves (id == new_id) (swap_live_client m new_client) (next_live_from m queue)
              (swap_live_client-Keeps m new_client) rest

next_live_client-Keeps : {lib : LibShout} (m : ℕ) → Keeps lib (next_live_client m)
unfolding next_live_client
next_live_client-Keeps m = record {
  apply = λ w s. (next_live_from-Keeps m (w.mount_at m).client_queue (s.queued m)).apply w s;
}

drop_client-Keeps : {lib : LibShout} (m client : ℕ) → Keeps lib (drop_client m client)
unfolding drop_client
drop_client-Keeps m client = search (keeping, remove_listed-IsMildly) depth 14

remove_from-Keeps : {lib : LibShout} (m client : ℕ) → Keeps lib (remove_from m client)
unfolding remove_from
remove_from-Keeps m client = search (keeping, next_live_client-Keeps, drop_client-Keeps) depth 14

pub remove_client-Keeps : {lib : LibShout} (client : ℕ) → Keeps lib (remove_client client)
unfolding remove_client
remove_client-Keeps client = bind-Preserves _ _ (gets-Preserves (λ w. mount_name w client)) λ name.
    bind-Preserves _ _ (gets-Preserves (λ w. lookup name w.manager.mounts)) λ found.
      option-Preserves found (panic (bytes "Unexisting mountpoint")) (λ m. remove_from m client)
        (panic-Preserves _) λ m. remove_from-Keeps m client
