-- ===== src/Tests/Clients.antt =====
-- The theorems on the manager at concrete inputs.
use icecast_proxy_go.Prelude.{
  ℕ, ◌≡◌, ◌≢◌, ◌⊎◌, refl, inl, true, false, [], ◌∷◌, ◌++◌, none, some, Str, bytes, arith, str_eq,
  lookup, insert, text_eq, nat_eq, state_of, done, ◌>>◌, IsDone,
}
use icecast_proxy_go.ClientHash.{hash}
use icecast_proxy_go.Container.{get_by_id, remove}
use icecast_proxy_go.Config.{create_shout_map, fill_options}
use icecast_proxy_go.Shout.{shout_close, shout_free, shout_metadata_free}
use icecast_proxy_go.World.{World, id_of, mount_name}
use icecast_proxy_go.Manager.Add.{add_client}
use icecast_proxy_go.Manager.Add.Opens.{stored_pack}
use icecast_proxy_go.Manager.Remove.{remove_client, on_collect}
use icecast_proxy_go.Manager.Serve.{on_data, on_meta, on_client, on_tick}
use icecast_proxy_go.Manager.Serve.Metadata.{IsListedFor}
use icecast_proxy_go.Samples.{good_lib, small_yaml, quiet, busy, full, solo, left, song_for}
use icecast_proxy_go.Manager.Remove.Laws.{remove_client-hands_over, remove_client-last}
use icecast_proxy_go.Manager.Serve.Metadata.{on_meta-changes_only_listed}
use icecast_proxy_go.Manager.Sound.Returns.{on_meta-IsDone}
use icecast_proxy_go.Manager.Add.Opens.{add_client-opens}
use icecast_proxy_go.Manager.Serve.Clients.{on_client-turns_away, revived_mount_is_silent}
use icecast_proxy_go.Manager.Serve.Laws.{early_metadata}
use icecast_proxy_go.Manager.Remove.Collect.{on_collect-frees}
use icecast_proxy_go.Tests.{quiet-IsSound, busy-IsValid}

remove_client-hands_over_example :
    (w' : World) × (remove_client 1 busy ≡ done tt w')
    × ((w'.mount_at 0).active ≡ some 2)
    × ((w'.mount_at 0).client_queue ≡ [])
    × (get_by_id (w'.mount_at 0).clients (id_of busy 1) ≡ none)
    × (get_by_id (w'.mount_at 0).clients 2 ≡ some 2)
    × (w'.closed (busy.clients 1).conn ≡ true)
    × (w'.manager.mounts ≡ busy.manager.mounts)
unfolding lookup str_eq get_by_id
remove_client-hands_over_example =
    remove_client-hands_over 1 0 2 2 (1 ∷ 2 ∷ []) (9 ∷ []) [] busy refl refl busy-IsValid refl refl
      (inl refl, tt) refl refl (λ e. omega (arith, e)) (omega arith) refl refl

on_meta-changes_only_listed_example :
    ((state_of (on_meta good_lib (song_for true) busy)).clients 2 ≡ busy.clients 2)
    ⊎ IsListedFor 0 (song_for true) 2 busy
unfolding lookup str_eq
on_meta-changes_only_listed_example =
    on_meta-changes_only_listed good_lib (song_for true) 0 2 busy refl busy-IsValid

on_meta-IsDone_example : IsDone (on_meta good_lib (song_for true) quiet)
on_meta-IsDone_example = on_meta-IsDone good_lib (song_for true) quiet quiet-IsSound

add_client-opens_example :
    (w' : World) × (add_client good_lib small_yaml 1 quiet ≡ done none w')
    × (lookup (mount_name quiet 1) w'.manager.mounts ≡ some quiet.next_mount)
    × ((w'.mount_at quiet.next_mount).active ≡ some (id_of quiet 1))
    × ((w'.mount_at quiet.next_mount).client_queue ≡ [])
    × ((w'.mount_at quiet.next_mount).clients.by_id ≡ (id_of quiet 1, 1) ∷ [])
    × (w'.manager.meta_chan
        ≡ quiet.manager.meta_chan
          ++ stored_pack
              (lookup (hash (quiet.ids (id_of quiet 1))) quiet.manager.meta_store)
              (id_of quiet 1))
unfolding lookup create_shout_map fill_options insert str_eq
add_client-opens_example =
    add_client-opens good_lib small_yaml ((bytes "host", bytes "h") ∷ []) 1 quiet refl refl
      (omega arith)

on_client-turns_away_example :
    (w' : World) × (on_client good_lib small_yaml 3 full ≡ done tt w')
    × ((j : ℕ) → get_by_id (w'.mount_at 0).clients j ≡ get_by_id (full.mount_at 0).clients j)
    × ((w'.mount_at 0).active ≡ (full.mount_at 0).active)
    × ((w'.mount_at 0).client_queue ≡ (full.mount_at 0).client_queue)
    × (w'.closed (full.clients 3).conn ≡ true)
    × (w'.readers ≡ full.readers)
unfolding lookup str_eq get_by_id
on_client-turns_away_example =
    on_client-turns_away good_lib small_yaml 3 0 (1 ∷ 2 ∷ []) full refl (omega arith) refl
      busy-IsValid (λ e. omega (arith, e)) (omega arith) refl refl refl

early_metadata_example :
    (w' : World) × ((do on_meta good_lib (song_for false); add_client good_lib small_yaml 1) quiet
      ≡ done none w')
    × (w'.manager.meta_chan
        ≡ quiet.manager.meta_chan
          ++ record { payload = (song_for false).payload; id = id_of quiet 1; seen = false } ∷ [])
    × (late : World) × ((do
      on_meta good_lib (song_for false)
      on_tick
      add_client good_lib small_yaml 1)
          quiet
        ≡ done none late)
    × (late.manager.meta_chan ≡ quiet.manager.meta_chan)
unfolding lookup create_shout_map fill_options insert str_eq
early_metadata_example =
    early_metadata good_lib small_yaml (song_for false) ((bytes "host", bytes "h") ∷ []) 1 quiet
      refl refl refl (λ v. refl) (omega arith)

remove_client-last_example :
    (w' : World) × (remove_client 1 solo ≡ done tt w')
    × (w'.manager.mount_collector ≡ solo.manager.mount_collector ++ 0 ∷ [])
    × (w'.manager.mounts ≡ solo.manager.mounts)
    × ((w'.mount_at 0).active ≡ some (id_of solo 1))
    × ((w'.mount_at 0).clients.length ≡ 0)
    × (w'.closed (solo.clients 1).conn ≡ true)
unfolding lookup str_eq remove
remove_client-last_example =
    remove_client-last 1 0 (1 ∷ 2 ∷ []) solo refl refl refl refl refl refl (omega arith)

on_collect-frees_example :
    (w' : World) × (on_collect good_lib 0 left ≡ done tt w')
    × (lookup (left.mount_at 0).mount w'.manager.mounts ≡ none)
    × ((w'.mount_at 0).shout.calls
        ≡ shout_metadata_free ∷ shout_free ∷ shout_close ∷ (left.mount_at 0).shout.calls)
    × ((j : ℕ) → 0 ≢ j → w'.mount_at j ≡ left.mount_at j)
unfolding lookup str_eq
on_collect-frees_example = on_collect-frees good_lib 0 left refl (tt, tt)

revived_mount_is_silent_example :
    (w' : World) × (on_client good_lib small_yaml 2 left ≡ done tt w')
    × ((w'.mount_at 0).clients.by_id ≡ (id_of left 2, 2) ∷ [])
    × ((w'.mount_at 0).client_queue ≡ id_of left 2 ∷ [])
    × ((w'.mount_at 0).active ≡ (left.mount_at 0).active)
    × ((payload : Str)
        → on_data good_lib (record { payload = payload; client = 2 }) w' ≡ done tt w')
unfolding lookup str_eq
revived_mount_is_silent_example =
    revived_mount_is_silent good_lib small_yaml 2 0 left refl refl refl refl refl
