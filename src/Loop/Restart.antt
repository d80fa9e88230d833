-- ===== src/Loop/Restart.antt =====
-- What a panic of the manager leads to: the loop of init in server/icecast.go.
use icecast_proxy_go.Prelude.{
  ℕ, ◌+◌, ◌≡◌, ◌≢◌, refl, ap, ◌∙◌, false, some, get_elem?, subst, IsDone, List, [], ◌∷◌, Str, arith,
  Outcome, state_of, done, panicked, blocked, ◌>>◌,
}
use icecast_proxy_go.Config.{Yaml}
use icecast_proxy_go.Shout.{LibShout, destroy_shout}
use icecast_proxy_go.World.{World, MetaPack, new_manager}
use icecast_proxy_go.Manager.Remove.{destroy_mount, destroy_mounts, close_all}
use icecast_proxy_go.Loop.Inputs.{received_cases, select-safe}
use icecast_proxy_go.Manager.Sound.Returns.{on_collect-IsDone}
use icecast_proxy_go.Loop.{
  Channel, data_case, err_case, receiver_case, collector_case, meta_case, tick_case, uses_freed,
  after_serve, wakes, selects, running, crashed, serve, restart, wake, step, run,
}

close_all_frame :
    (cs : List ℕ) (w : World) → record (state_of (close_all cs w)) { closed = w.closed } ≡ w
unfolding close_all
close_all_frame [] w = refl
close_all_frame (c ∷ cs) w =
    ap {A = World} (λ x. record x { closed = w.closed }) (close_all_frame cs _)

module _ (lib : LibShout) where
  destroy_mount_frame :
      (m : ℕ) (w : World)
      → record (state_of (destroy_mount lib m w)) { mount_at = w.mount_at; closed = w.closed } ≡ w
  unfolding destroy_mount destroy_shout
  destroy_mount_frame m w =
      ap {A = World} (λ x. record x { mount_at = w.mount_at; closed = w.closed })
        (close_all_frame _ _)

  destroy_mounts_frame :
      (ms : List (Str × ℕ)) (w : World)
      → record (state_of (destroy_mounts lib ms w)) { mount_at = w.mount_at; closed = w.closed } ≡ w
  unfolding destroy_mounts
  destroy_mounts_frame [] w = refl
  destroy_mounts_frame ((name, m) ∷ ms) w =
      by_outcome (destroy_mounts_frame ms) (destroy_mount lib m w) (destroy_mount_frame m w)
    where
      by_outcome :
          ((t : World)
            → record (state_of (destroy_mounts lib ms t)) {
              mount_at = t.mount_at;
              closed = t.closed;
            }
              ≡ t)
          → (o : Outcome World (Unit {0}))
          → record (state_of o) { mount_at = w.mount_at; closed = w.closed } ≡ w
          → record (state_of (((λ _. o) >> destroy_mounts lib ms) w)) {
            mount_at = w.mount_at;
            closed = w.closed;
          }
            ≡ w
      by_outcome later (done a t) h =
          ap {A = World} (λ x. record x { mount_at = w.mount_at; closed = w.closed }) (later t) ∙ h
      by_outcome later (panicked e t) h = h
      by_outcome later (blocked t) h = h

wake_crashes :
    (n : ℕ) (w : World) (manager : ℕ) (pack : MetaPack)
    → get_elem? w.sleepers n ≡ some (manager, pack)
    → manager ≢ w.generation
    → (wake n w).status ≡ crashed
unfolding wake
wake_crashes n w manager pack held old = ground arith

collected-IsDone :
    (lib : LibShout) (yaml : Yaml) (w : World) → IsDone (serve lib yaml collector_case w)
unfolding serve
collected-IsDone lib yaml w =
    received_cases IsDone w w.manager.mount_collector _ tt λ m rest e. on_collect-IsDone lib m _

-- The collection of a mount returns, so a case that panics uses no freed connection.
uses_freed_none :
    (lib : LibShout) (yaml : Yaml) (channel : Channel) (w w' : World) (e : Str)
    → serve lib yaml channel w ≡ panicked e w'
    → uses_freed channel w ≡ false
unfolding uses_freed
uses_freed_none lib yaml data_case w w' e panics = refl
uses_freed_none lib yaml err_case w w' e panics = refl
uses_freed_none lib yaml receiver_case w w' e panics = refl
uses_freed_none lib yaml meta_case w w' e panics = refl
uses_freed_none lib yaml tick_case w w' e panics = refl
uses_freed_none lib yaml collector_case w w' e panics =
    absurd (subst IsDone panics (collected-IsDone lib yaml w))

module _ (lib : LibShout) (yaml : Yaml) where
  -- After a panic the manager is new, the old one's readers are heard no more, and what was held
  -- back for the old one is still held back.
  pub restart_frame :
      (w : World)
      → record (restart lib yaml w) { mount_at = w.mount_at; closed = w.closed } ≡ record w {
        manager = new_manager;
        data_chan = [];
        err_chan = [];
        readers = [];
        generation = w.generation + 1;
      }
  unfolding restart
  restart_frame w = destroy_mounts_frame lib w.manager.mounts _

  -- If a case of the manager panics while metadata are held back for it, then the process ends when
  -- their second has passed, in whatever place they stand among those held back: the goroutine
  -- sends on the closed channel of the old manager.
  pub restart_crashes :
      (channel : Channel) (w w' : World) (e : Str) (n : ℕ) (pack : MetaPack)
      → serve lib yaml channel w ≡ panicked e w'
      → get_elem? w'.sleepers n ≡ some (w'.generation, pack)
      → (run lib yaml
          (record { world = w; status = running })
          (selects channel ∷ wakes n ∷ [])).status
        ≡ crashed
  unfolding run step
  restart_crashes channel w w' e n pack panics held =
      let framed = restart_frame w' in
      let panicking =
        select-safe lib yaml channel w (uses_freed_none lib yaml channel w w' e panics) in
      let restarted = panicking ∙ ap (after_serve lib yaml) panics in
      ap (λ q. (run lib yaml q (wakes n ∷ [])).status) restarted
      ∙ wake_crashes n (restart lib yaml w') w'.generation pack
          (ap (λ x. get_elem? x.sleepers n) framed ∙ held)
          (λ e. omega (arith, e, ap (λ x. x.generation) framed))
