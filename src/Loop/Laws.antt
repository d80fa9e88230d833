-- ===== src/Loop/Laws.antt =====
-- The goroutines of server/icecast.go over any sequence of inputs.
use icecast_proxy_go.Prelude.{
  if_cases, ℕ, ◌≢◌, ◌≤◌, refl, List, [], ◌∷◌, Option, some, Str, arith, ◌&&◌, Outcome, state_of,
  done, panicked, blocked, length, length-append, ltb, leb, lookup, text_eq,
}
use icecast_proxy_go.Config.{Yaml, buffer_size}
use icecast_proxy_go.Handlers.{is_member}
use icecast_proxy_go.Shout.{LibShout}
use icecast_proxy_go.World.{World, new_manager, meta_cap, data_cap, err_cap, receiver_cap}
use icecast_proxy_go.Manager.Sound.{IsSound, same-IsSound}
use icecast_proxy_go.Manager.Sound.Frees.{on_collect-Keeps, destroy_mounts-KeepsAway}
use icecast_proxy_go.Manager.Sound.Added.{on_client-Keeps}
use icecast_proxy_go.Manager.Sound.Cases.{
  on_meta-Keeps, on_data-Keeps, on_error-Keeps, on_tick-Keeps,
}
use icecast_proxy_go.Loop.Inputs.{received_cases, wake_cases, select_cases}
use icecast_proxy_go.Loop.{
  Channel, data_case, err_case, receiver_case, collector_case, meta_case, tick_case, Input,
  client_arrives, meta_arrives, reads, read_fails, wakes, selects, Status, running, deadlocked,
  crashed, undefined, System, serve, restart, after_serve, offer, wake, read_into, stop_reading,
  step, proceed, run,
}

length-offer :
    {A : Type 0} (bound : ℕ) (a : A) (chan : List A)
    → length chan ≤ bound
    → length (offer bound a chan) ≤ bound
length-offer bound a chan h = ground (arith, length-append chan (a ∷ []))

module _ (lib : LibShout) (yaml : Yaml) where
  serve-IsSound :
      (channel : Channel) (w : World)
      → IsSound lib w
      → IsSound lib (state_of (serve lib yaml channel w))
  unfolding serve
  serve-IsSound data_case w s =
      received_cases (λ o. IsSound lib (state_of o)) w w.data_chan _ s
        λ a rest e.
          (on_data-Keeps lib a).apply (record w { data_chan = rest })
            (same-IsSound w _ s refl refl refl (ground (arith, s.capped, e)))
  serve-IsSound err_case w s =
      received_cases (λ o. IsSound lib (state_of o)) w w.err_chan _ s
        λ a rest e.
          (on_error-Keeps a).apply (record w { err_chan = rest })
            (same-IsSound w _ s refl refl refl (ground (arith, s.capped, e)))
  serve-IsSound receiver_case w s =
      received_cases (λ o. IsSound lib (state_of o)) w w.manager.receiver _ s
        λ a rest e.
          (on_client-Keeps lib yaml a).apply
            (record w { manager = record (w.manager) { receiver = rest } })
            (same-IsSound w _ s refl refl refl (ground (arith, s.capped, e)))
  serve-IsSound collector_case w s =
      received_cases (λ o. IsSound lib (state_of o)) w w.manager.mount_collector _ s
        λ a rest e.
          (on_collect-Keeps lib a).apply
            (record w { manager = record (w.manager) { mount_collector = rest } })
            (same-IsSound w _ s refl refl refl (ground (arith, s.capped, e)))
  serve-IsSound meta_case w s =
      received_cases (λ o. IsSound lib (state_of o)) w w.manager.meta_chan _ s
        λ a rest e.
          (on_meta-Keeps lib a).apply
            (record w { manager = record (w.manager) { meta_chan = rest } })
            (same-IsSound w _ s refl refl refl (ground (arith, s.capped, e)))
  serve-IsSound tick_case w s = on_tick-Keeps.apply w s

  no_entry : (name : Str) (m : ℕ) → lookup {V = ℕ} name [] ≢ some m
  unfolding lookup
  no_entry name m = ground arith

  restart-IsSound : (w : World) → IsSound lib w → IsSound lib (restart lib yaml w)
  unfolding restart new_manager
  restart-IsSound w s =
      ((destroy_mounts-KeepsAway lib w.manager.mounts).apply _ (
        record {
          capped = ground arith;
          guarded = s.guarded;
          queued = s.queued;
          unique = tt;
          entries = λ name m found. absurd (no_entry name m found);
        },
        λ m all name j found. absurd (no_entry name j found),
      )).0

  wake-IsSound : (n : ℕ) (w : World) → IsSound lib w → IsSound lib (wake n w).world
  wake-IsSound n w s =
      wake_cases (λ q. IsSound lib q.world) n w s
        (λ pack e room.
          same-IsSound w _ s refl refl refl
            (ground (arith, s.capped, room, length-append w.manager.meta_chan (pack ∷ []))))
        (λ manager pack e other. s)

  after_serve-IsSound :
      (o : Outcome World (Unit {0}))
      → IsSound lib (state_of o)
      → IsSound lib (after_serve lib yaml o).world
  after_serve-IsSound (done _ w) s = s
  after_serve-IsSound (panicked e w) s = restart-IsSound w s
  after_serve-IsSound (blocked w) s = s

  stop_reading-IsSound :
      (client : ℕ) (err : Option Str) (w : World)
      → IsSound lib w
      → IsSound lib (stop_reading client err w)
  stop_reading-IsSound client err w s =
      if_cases (IsSound lib) (is_member client w.readers && ltb (length w.err_chan) err_cap)
        (λ e. same-IsSound w _ s refl refl refl (
          ground (
            arith,
            s.capped,
            e,
            length-append w.err_chan (record { err = err; client = client } ∷ []),
          )))
        (λ e. s)

  read_into-IsSound :
      (client : ℕ) (payload : Str) (w : World)
      → IsSound lib w
      → IsSound lib (read_into client payload w)
  read_into-IsSound client payload w s =
      if_cases (IsSound lib) (is_member client w.readers && leb (length payload) buffer_size)
        (λ e. same-IsSound w _ s refl refl refl (
          ground (
            arith,
            s.capped,
            length-offer data_cap (record { payload = payload; client = client }) w.data_chan,
          )))
        (λ e. s)

  -- Whatever happens next, the state stays sound: every channel within its capacity, every queue
  -- within its limit, each mount of the map once, under its own name and with a live client.
  pub step-IsSound : (i : Input) (w : World) → IsSound lib w → IsSound lib (step lib yaml i w).world
  unfolding step
  step-IsSound (client_arrives client) w s =
      same-IsSound w _ s refl refl refl
        (ground (arith, s.capped, length-offer receiver_cap client w.manager.receiver))
  step-IsSound (meta_arrives pack) w s =
      same-IsSound w _ s refl refl refl
        (ground (arith, s.capped, length-offer meta_cap pack w.manager.meta_chan))
  step-IsSound (reads client payload) w s = read_into-IsSound client payload w s
  step-IsSound (read_fails client err) w s = stop_reading-IsSound client err w s
  step-IsSound (wakes n) w s = wake-IsSound n w s
  step-IsSound (selects channel) w s =
      let served = after_serve-IsSound (serve lib yaml channel w) (serve-IsSound channel w s) in
      select_cases lib yaml (λ q. IsSound lib q.world) channel w (λ e. served) served

  proceed-IsSound :
      (i : Input) (q : System) → IsSound lib q.world → IsSound lib (proceed lib yaml i q).world
  proceed-IsSound i q s = by_status q.status
    where
      by_status :
          (status : Status) → IsSound lib (proceed lib yaml i (record q { status = status })).world
      by_status running = step-IsSound i q.world s
      by_status deadlocked = s
      by_status crashed = s
      by_status undefined = s

  -- From a sound state every run of the system, over any inputs in any order, ends in a sound
  -- state: no channel is over its capacity and no queue over its limit, each mount of the map has
  -- one entry, under its own name, with a live client, an address that was given out and a shout_t
  -- that was not freed, and no mount's connection has been sent data but where the library said
  -- that it was connected, or had just opened it with success.
  pub run-IsSound :
      (q : System) (is : List Input) → IsSound lib q.world → IsSound lib (run lib yaml q is).world
  unfolding run
  run-IsSound q [] s = s
  run-IsSound q (i ∷ is) s = run-IsSound (proceed lib yaml i q) is (proceed-IsSound i q s)
