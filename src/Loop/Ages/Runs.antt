-- ===== src/Loop/Ages/Runs.antt =====
-- As long as no manager of server/icecast.go has panicked, the process does not end.
use icecast_proxy_go.Prelude.{
  ℕ, ◌+◌, ◌<◌, ◌≡◌, ◌≢◌, sym, some, get_elem?, erase_idx, All-erase_idx, All-get_elem?, ◌∙◌, ◌⊎◌,
  inl, inr, List, [], ◌∷◌, ◌&&◌, All, arith, length, leb, ltb, if_cases, Outcome, state_of, done,
  panicked, blocked,
}
use icecast_proxy_go.Config.{Yaml, buffer_size}
use icecast_proxy_go.Handlers.{is_member}
use icecast_proxy_go.Shout.{LibShout}
use icecast_proxy_go.World.{World, MetaPack, err_cap}
use icecast_proxy_go.Loop.{
  Channel, data_case, err_case, receiver_case, collector_case, meta_case, tick_case, Input,
  client_arrives, meta_arrives, reads, read_fails, wakes, selects, Status, running, deadlocked,
  crashed, undefined, System, serve, restart, after_serve, wake, step, proceed, run,
}
use icecast_proxy_go.Loop.Inputs.{received_cases, wake_cases, select_cases}
use icecast_proxy_go.Loop.Ages.{IsFirst}
use icecast_proxy_go.Loop.Ages.Adds.{on_client-KeepsFirst}
use icecast_proxy_go.Loop.Ages.Cases.{
  on_data-KeepsFirst, on_error-KeepsFirst, on_collect-KeepsFirst, on_meta-KeepsFirst,
  destroy_mounts-KeepsFirst,
}

-- The process has not ended, or has in the time of a later manager.
abbrev pub Lasts : ℕ → System → Type 0
Lasts first q = IsFirst first q.world × (q.status ≡ crashed → first < q.world.generation)

module _ (lib : LibShout) (yaml : Yaml) (first : ℕ) where
  serve-IsFirst :
      (channel : Channel) (w : World)
      → IsFirst first w
      → IsFirst first (state_of (serve lib yaml channel w))
  unfolding serve
  serve-IsFirst data_case w s =
      received_cases (λ o. IsFirst first (state_of o)) w w.data_chan _ s
        λ a rest e. (on_data-KeepsFirst lib a).apply _ s
  serve-IsFirst err_case w s =
      received_cases (λ o. IsFirst first (state_of o)) w w.err_chan _ s
        λ a rest e. (on_error-KeepsFirst a).apply _ s
  serve-IsFirst receiver_case w s =
      received_cases (λ o. IsFirst first (state_of o)) w w.manager.receiver _ s
        λ a rest e. (on_client-KeepsFirst lib yaml a).apply _ s
  serve-IsFirst collector_case w s =
      received_cases (λ o. IsFirst first (state_of o)) w w.manager.mount_collector _ s
        λ a rest e. (on_collect-KeepsFirst lib a).apply _ s
  serve-IsFirst meta_case w s =
      received_cases (λ o. IsFirst first (state_of o)) w w.manager.meta_chan _ s
        λ a rest e. (on_meta-KeepsFirst lib a).apply _ s
  serve-IsFirst tick_case w s = s

  -- The next manager is a later one.
  restart-IsFirst : (w : World) → IsFirst first w → IsFirst first (restart lib yaml w)
  unfolding restart
  restart-IsFirst w s = (destroy_mounts-KeepsFirst lib w.manager.mounts).apply _ (inr (later s))
    where
      later : IsFirst first w → first < w.generation + 1
      later (inl (e, h)) = omega (arith, e)
      later (inr l) = omega (arith, l)

  after_serve-Lasts :
      (o : Outcome World (Unit {0}))
      → IsFirst first (state_of o)
      → Lasts first (after_serve lib yaml o)
  after_serve-Lasts (done _ w) s = (s, λ e. cc)
  after_serve-Lasts (panicked e w) s = (restart-IsFirst w s, λ f. cc)
  after_serve-Lasts (blocked w) s = (s, λ e. cc)

  wake-Lasts : (n : ℕ) (w : World) → IsFirst first w → Lasts first (wake n w)
  wake-Lasts n w s =
      wake_cases (Lasts first) n w (s, λ e. cc) (λ pack e room. (sent s, λ f. cc))
        (λ manager pack e other. (s, λ f. ended manager pack e other s))
    where
      sent :
          IsFirst first w
          → ((w.generation ≡ first) × All (λ sleeper. sleeper.0 ≡ first) (erase_idx w.sleepers n))
            ⊎ (first < w.generation)
      sent (inl (g, h)) = inl (g, All-erase_idx (λ sleeper. sleeper.0 ≡ first) w.sleepers n h)
      sent (inr l) = inr l

      ended :
          (manager : ℕ) (pack : MetaPack)
          → get_elem? w.sleepers n ≡ some (manager, pack)
          → manager ≢ w.generation
          → IsFirst first w
          → first < w.generation
      ended manager pack e other (inl (g, h)) = absurd (
          other (
            All-get_elem? (λ (sleeper : ℕ × MetaPack). sleeper.0 ≡ first) w.sleepers n _ h e
            ∙ sym g))
      ended manager pack e other (inr l) = l

  step-Lasts : (i : Input) (w : World) → IsFirst first w → Lasts first (step lib yaml i w)
  unfolding step
  step-Lasts (client_arrives client) w s = (s, λ e. cc)
  step-Lasts (meta_arrives pack) w s = (s, λ e. cc)
  step-Lasts (reads client payload) w s = (
    if_cases (IsFirst first) (is_member client w.readers && leb (length payload) buffer_size)
        (λ e. s) (λ e. s),
    λ e. cc,
  )
  step-Lasts (read_fails client err) w s = (
    if_cases (IsFirst first) (is_member client w.readers && ltb (length w.err_chan) err_cap)
        (λ e. s) (λ e. s),
    λ e. cc,
  )
  step-Lasts (wakes n) w s = wake-Lasts n w s
  step-Lasts (selects channel) w s =
      let served = after_serve-Lasts (serve lib yaml channel w) (serve-IsFirst channel w s) in
      select_cases lib yaml (Lasts first) channel w (λ e. (served.0, λ f. cc)) served

  proceed-Lasts : (i : Input) (q : System) → Lasts first q → Lasts first (proceed lib yaml i q)
  proceed-Lasts i q h = by_status q.status h
    where
      by_status :
          (status : Status)
          → Lasts first (record q { status = status })
          → Lasts first (proceed lib yaml i (record q { status = status }))
      by_status running l = step-Lasts i q.world l.0
      by_status deadlocked l = l
      by_status crashed l = l
      by_status undefined l = l

  run-Lasts : (q : System) (is : List Input) → Lasts first q → Lasts first (run lib yaml q is)
  unfolding run
  run-Lasts q [] h = h
  run-Lasts q (i ∷ is) h = run-Lasts (proceed lib yaml i q) is (proceed-Lasts i q h)

  -- If the system runs and every packet that is held back is so for the present manager, then
  -- however long it goes on with any inputs, the process is ended by a panic only after that
  -- manager has panicked and another has come.
  pub run_crashes_later :
      (w : World) (is : List Input)
      → w.generation ≡ first
      → All (λ sleeper. sleeper.0 ≡ first) w.sleepers
      → (run lib yaml (record { world = w; status = running }) is).status ≡ crashed
      → first < (run lib yaml (record { world = w; status = running }) is).world.generation
  run_crashes_later w is g h e =
      (run-Lasts (record { world = w; status = running }) is (inl (g, h), λ f. cc)).1 e
