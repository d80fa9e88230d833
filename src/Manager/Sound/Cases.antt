-- ===== src/Manager/Sound/Cases.antt =====
-- The cases of the select statement keep the state of the manager sound.
use icecast_proxy_go.Prelude.{
  bind-Preserves, gets-Preserves, if-Preserves, option-Preserves, panic-Preserves, skip-Preserves,
  ℕ, refl, sym, subst, true, [], ◌∷◌, ◌++◌, Option, none, some, Str, ◌==◌, if◌then◌else◌, ◌>>=◌,
  lookup, insert, text_eq, nat_eq, skip, modify, gets, panic, bytes,
}
use icecast_proxy_go.ClientHash.{hash}
use icecast_proxy_go.Container.{get_by_hash}
use icecast_proxy_go.Mount.{handle_data}
use icecast_proxy_go.Mount.Laws.{handle_data_frame, handle_data-IsGuarded, handle_data-is_freed}
use icecast_proxy_go.Shout.{LibShout}
use icecast_proxy_go.World.{MetaPack, DataPack, ErrPack, at_mount, on_manager, id_of, mount_name}
use icecast_proxy_go.Manager.{is_active}
use icecast_proxy_go.Manager.Serve.{
  on_data, on_meta, on_error, on_tick, live_meta, mount_meta, set_metadata,
}
use icecast_proxy_go.Manager.Sound.Calls.{send_metadata-IsPlainly}
use icecast_proxy_go.Manager.Sound.{Keeps, IsMild, IsMildly, same-IsSound}
use icecast_proxy_go.Manager.Sound.Steps.{keeping, on_shout-IsMildly, remove_client-Keeps}

-- Metadata of a client are not part of what the invariant reads.
set_metadata-Keeps :
    {lib : LibShout} (client : ℕ) (meta : Str) → Keeps lib (set_metadata client meta)
set_metadata-Keeps client meta = record {
  apply = λ w s. same-IsSound w _ s refl refl refl s.capped;
}

hold_back-Keeps :
    {lib : LibShout} (meta : MetaPack)
    → Keeps lib (
        modify (λ w. record w {
          sleepers = w.sleepers ++ (w.generation, record meta { seen = true }) ∷ [];
        }))
hold_back-Keeps meta = record { apply = λ w s. same-IsSound w _ s refl refl refl s.capped }

store-Keeps :
    {lib : LibShout} (h : ℕ) (meta : Str)
    → Keeps lib (on_manager (modify (λ r. record r { meta_store = insert h meta r.meta_store })))
store-Keeps h meta = record { apply = λ w s. same-IsSound w _ s refl refl refl s.capped }

pub on_tick-Keeps : {lib : LibShout} → Keeps lib on_tick
on_tick-Keeps = record { apply = λ w s. same-IsSound w _ s refl refl refl s.capped }

-- The log line of the error case.
log-Keeps :
    {lib : LibShout} (err : Option Str)
    → Keeps lib {A = Unit {0}}
        (elim err [ none ↦ panic (bytes "nil pointer dereference") | some text ↦ skip ])
log-Keeps none = panic-Preserves _
log-Keeps (some text) = skip-Preserves

pub on_error-Keeps : {lib : LibShout} (pack : ErrPack) → Keeps lib (on_error pack)
unfolding on_error
on_error-Keeps pack = bind-Preserves _ _ (remove_client-Keeps pack.client) λ _. log-Keeps pack.err

module _ (lib : LibShout) where
  handle_data-IsMildly : (payload : Str) → IsMildly lib (handle_data lib payload)
  handle_data-IsMildly payload = record {
    apply = λ t.
        let framed =
          subst (λ r. IsMild lib t r) (sym (handle_data_frame lib payload t))
            (record {
              same_name = refl;
              still_guarded = λ g. g;
              still_live = λ h. h;
              still_queued = λ h. h;
              still_usable = λ f. f;
            }) in
        record {
          same_name = framed.same_name;
          still_guarded = handle_data-IsGuarded lib payload t;
          still_live = framed.still_live;
          still_queued = framed.still_queued;
          still_usable = handle_data-is_freed lib payload t;
        };
  }

  live_meta-Keeps : (m : ℕ) (meta : MetaPack) (client : ℕ) → Keeps lib (live_meta lib m meta client)
  unfolding live_meta
  live_meta-Keeps m meta client =
      search
        (keeping, set_metadata-Keeps, hold_back-Keeps, on_shout-IsMildly, send_metadata-IsPlainly)
        depth 12

  mount_meta-Keeps :
      (m : ℕ) (meta : MetaPack) (active : ℕ) → Keeps lib (mount_meta lib m meta active)
  unfolding mount_meta
  mount_meta-Keeps m meta active =
      bind-Preserves _ _ (gets-Preserves (λ w. hash (w.ids meta.id))) λ meta_hash.
        bind-Preserves _ _ (gets-Preserves (λ w. hash (w.ids active))) λ active_hash.
          if-Preserves (active_hash == meta_hash) _ _
            (bind-Preserves _ _
              (gets-Preserves (λ w. get_by_hash w.ids (w.mount_at m).clients active_hash))
              λ client.
                option-Preserves client skip (live_meta lib m meta) skip-Preserves
                  (live_meta-Keeps m meta))
            (bind-Preserves _ _
              (gets-Preserves (λ w. get_by_hash w.ids (w.mount_at m).clients meta_hash))
              λ client.
                option-Preserves client skip (λ c. set_metadata c meta.payload) skip-Preserves
                  λ c. set_metadata-Keeps c meta.payload)

  pub on_meta-Keeps : (meta : MetaPack) → Keeps lib (on_meta lib meta)
  unfolding on_meta
  on_meta-Keeps meta = bind-Preserves _ _ (gets-Preserves (λ w. hash (w.ids meta.id))) λ meta_hash.
      bind-Preserves _ _ (gets-Preserves (λ w. lookup (w.ids meta.id).mount w.manager.mounts))
        λ found. option-Preserves found _ _ (store-Keeps meta_hash meta.payload) λ m.
          bind-Preserves _ _ (gets-Preserves (λ w. (w.mount_at m).active)) λ active.
            option-Preserves active _ (mount_meta lib m meta)
              (panic-Preserves (bytes "nil pointer dereference")) (mount_meta-Keeps m meta)

  data_for-Keeps :
      (payload : Str) (client m : ℕ)
      → Keeps lib (do
        id ← gets (λ w. id_of w client)
        active ← gets (λ w. (w.mount_at m).active)
        if is_active active id then at_mount m (handle_data lib payload) else skip)
  data_for-Keeps payload client m = search (keeping, handle_data-IsMildly) depth 10

  pub on_data-Keeps : (pack : DataPack) → Keeps lib (on_data lib pack)
  unfolding on_data
  on_data-Keeps pack = bind-Preserves _ _ (gets-Preserves (λ w. mount_name w pack.client)) λ name.
      bind-Preserves _ _ (gets-Preserves (λ w. lookup name w.manager.mounts)) λ found.
        option-Preserves found skip _ skip-Preserves (data_for-Keeps pack.payload pack.client)
