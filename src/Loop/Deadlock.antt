-- ===== src/Loop/Deadlock.antt =====
-- The manager of server/icecast.go sends to a channel that it alone receives from.
use icecast_proxy_go.Prelude.{
  ℕ, ◌≡◌, ◌≢◌, ◌≤◌, refl, ap, ◌∙◌, List, [], ◌∷◌, ◌++◌, some, All, arith, length, lookup, text_eq,
  blocked,
}
use icecast_proxy_go.Config.{Yaml}
use icecast_proxy_go.Container.{get_by_id}
use icecast_proxy_go.Shout.{LibShout}
use icecast_proxy_go.World.{World, ErrPack, id_of, mount_name, meta_cap}
use icecast_proxy_go.Manager.Live.{next_live_client}
use icecast_proxy_go.Manager.Live.Laws.{IsStale, next_live_client-blocked}
use icecast_proxy_go.Manager.Remove.{remove_from, remove_client}
use icecast_proxy_go.Manager.Serve.{on_error}
use icecast_proxy_go.Loop.{
  Input, selects, err_case, running, deadlocked, serve, after_serve, step, run,
}

remove_client-blocked :
    (client m : ℕ) (w w' : World)
    → lookup (mount_name w client) w.manager.mounts ≡ some m
    → (w.mount_at m).active ≡ some (id_of w client)
    → next_live_client m w ≡ blocked w'
    → remove_client client w ≡ blocked w'
unfolding remove_client remove_from
remove_client-blocked client m w w' found live e = ground (arith, found, live, e)

module _ (lib : LibShout) (yaml : Yaml) where
  -- It waits for ever.
  run-deadlocked :
      (is : List Input) (w : World)
      → run lib yaml (record { world = w; status = deadlocked }) is
        ≡ record { world = w; status = deadlocked }
  unfolding run
  run-deadlocked [] w = refl
  run-deadlocked (i ∷ is) w = run-deadlocked is w

  serve-blocked :
      (pack : ErrPack) (others : List ErrPack) (w w' : World)
      → w.err_chan ≡ pack ∷ others
      → remove_client pack.client (record w { err_chan = others }) ≡ blocked w'
      → serve lib yaml err_case w ≡ blocked w'
  unfolding serve on_error
  serve-blocked pack others w w' failed e = ground (arith, failed, e)

  -- The reader of the live client has failed, and the queue of its mount holds stale identifiers
  -- followed by that of another listed client. If the channel of metadata is full when the manager
  -- takes the error, then it waits for ever, whatever else happens.
  pub handover_deadlocks :
      (pack : ErrPack) (others : List ErrPack) (m id next : ℕ) (stale rest : List ℕ) (w : World)
      (is : List Input)
      → w.err_chan ≡ pack ∷ others
      → lookup (mount_name w pack.client) w.manager.mounts ≡ some m
      → (w.mount_at m).active ≡ some (id_of w pack.client)
      → (w.mount_at m).client_queue ≡ stale ++ (id ∷ rest)
      → All (IsStale w.clients (w.mount_at m).clients) stale
      → get_by_id (w.mount_at m).clients id ≡ some next
      → id_of w next ≡ id
      → id ≢ id_of w pack.client
      → meta_cap ≤ length w.manager.meta_chan
      → (run lib yaml (record { world = w; status = running }) (selects err_case ∷ is)).status
        ≡ deadlocked
  unfolding run step
  handover_deadlocks pack others m id next stale rest w is failed found live queue old listed same
        other full =
      let w0 = record w { err_chan = others } in
      let (w', e) =
        next_live_client-blocked m stale rest id next w0 queue old listed same
          (ground (arith, live, other)) full in
      let stuck =
        serve-blocked pack others w w' failed
          (remove_client-blocked pack.client m w0 w' found live e) in
      ap (λ o. (run lib yaml (after_serve lib yaml o) is).status) stuck
      ∙ ap (λ q. q.status) (run-deadlocked is w')
