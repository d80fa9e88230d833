-- ===== src/Loop/Ends/Runs.antt =====
-- How a run of the goroutines of server/icecast.go can end.
use icecast_proxy_go.Prelude.{
  ℕ, ◌≡◌, ◌⊎◌, inl, inr, refl, sym, subst, ap, ◌∙◌, Bool, true, false, arith, List, [], ◌∷◌, not,
  ◌&&◌, Outcome, done, panicked, blocked,
}
use icecast_proxy_go.Config.{Yaml}
use icecast_proxy_go.Container.{is_positive}
use icecast_proxy_go.Shout.{LibShout, is_freed}
use icecast_proxy_go.World.{World}
use icecast_proxy_go.Loop.{
  Channel, data_case, err_case, receiver_case, collector_case, meta_case, tick_case, Input,
  client_arrives, meta_arrives, reads, read_fails, wakes, selects, Status, running, deadlocked,
  crashed, undefined, System, uses_freed, serve, after_serve, step, run,
}
use icecast_proxy_go.Loop.Inputs.{up, run-nil, run-cons, received_cases, wake_cases, select_cases}
use icecast_proxy_go.Loop.Ends.{IsStuck, WaitsIn, StopsBy, Explained}
use icecast_proxy_go.Loop.Ends.Removes.{on_error-Reasoned}
use icecast_proxy_go.Loop.Ends.Adds.{on_client-Reasoned}
use icecast_proxy_go.Loop.Ends.Cases.{on_data-NeverWaits, on_meta-NeverWaits, on_collect-NeverWaits}

-- The states that a case of the select statement waits in, where it waits.
abbrev StuckBy : Channel → World → Type 0
StuckBy err_case w = IsStuck w
StuckBy receiver_case w = IsStuck w
StuckBy _ w = ⊥

StuckBy-deadlocked :
    (channel : Channel) (w w' : World)
    → StuckBy channel w'
    → StopsBy deadlocked (selects channel) w w'
StuckBy-deadlocked err_case w w' h = (inl refl, h)
StuckBy-deadlocked receiver_case w w' h = (inr refl, h)
StuckBy-deadlocked data_case w w' h = absurd h
StuckBy-deadlocked collector_case w w' h = absurd h
StuckBy-deadlocked meta_case w w' h = absurd h
StuckBy-deadlocked tick_case w w' h = absurd h

freed_mount :
    (channel : Channel) (w w' : World)
    → uses_freed channel w ≡ true
    → StopsBy undefined (selects channel) w w'
unfolding uses_freed
freed_mount collector_case w w' e = by_chan w.manager.mount_collector refl e
  where
    by_chan :
        (chan : List ℕ)
        → w.manager.mount_collector ≡ chan
        → (elim chan as (λ _. Bool) [
          | [] ↦ false
          | m ∷ rest ↦
              not (is_positive (w.mount_at m).clients.length) && is_freed (w.mount_at m).shout.calls
        ])
          ≡ true
        → StopsBy undefined (selects collector_case) w w'
    by_chan [] c h = absurd (ground (arith, h))
    by_chan (m ∷ rest) c h = (m, rest, refl, c, ground (arith, h))
freed_mount data_case w w' e = absurd (ground (arith, e))
freed_mount err_case w w' e = absurd (ground (arith, e))
freed_mount receiver_case w w' e = absurd (ground (arith, e))
freed_mount meta_case w w' e = absurd (ground (arith, e))
freed_mount tick_case w w' e = absurd (ground (arith, e))

-- The system runs on, or the input has stopped it.
abbrev RunsOn : Input → World → System → Type 0
RunsOn i w q = (q.status ≡ running) ⊎ StopsBy q.status i w q.world

module _ (lib : LibShout) (yaml : Yaml) where
  serve-WaitsIn :
      (channel : Channel) (w : World) → WaitsIn (StuckBy channel) (serve lib yaml channel w)
  unfolding serve
  serve-WaitsIn data_case w =
      received_cases (WaitsIn (λ _. ⊥)) w w.data_chan _ tt
        λ a rest e. (on_data-NeverWaits lib a).apply _
  serve-WaitsIn err_case w =
      received_cases (WaitsIn IsStuck) w w.err_chan _ tt λ a rest e. (on_error-Reasoned a).apply _
  serve-WaitsIn receiver_case w =
      received_cases (WaitsIn IsStuck) w w.manager.receiver _ tt
        λ a rest e. (on_client-Reasoned lib yaml a).apply _
  serve-WaitsIn collector_case w =
      received_cases (WaitsIn (λ _. ⊥)) w w.manager.mount_collector _ tt
        λ a rest e. (on_collect-NeverWaits lib a).apply _
  serve-WaitsIn meta_case w =
      received_cases (WaitsIn (λ _. ⊥)) w w.manager.meta_chan _ tt
        λ a rest e. (on_meta-NeverWaits lib a).apply _
  serve-WaitsIn tick_case w = tt

  after_serve-RunsOn :
      (channel : Channel) (w : World) (o : Outcome World (Unit {0}))
      → WaitsIn (StuckBy channel) o
      → RunsOn (selects channel) w (after_serve lib yaml o)
  after_serve-RunsOn channel w (done _ t) h = inl refl
  after_serve-RunsOn channel w (panicked e t) h = inl refl
  after_serve-RunsOn channel w (blocked t) h = inr (StuckBy-deadlocked channel w t h)

  step-RunsOn : (i : Input) (w : World) → RunsOn i w (step lib yaml i w)
  unfolding step
  step-RunsOn (client_arrives client) w = inl refl
  step-RunsOn (meta_arrives pack) w = inl refl
  step-RunsOn (reads client payload) w = inl refl
  step-RunsOn (read_fails client err) w = inl refl
  step-RunsOn (wakes n) w =
      wake_cases (RunsOn (wakes n) w) n w (inl refl) (λ pack e room. inl refl)
        λ manager pack e other. inr (n, manager, pack, refl, e, other)
  step-RunsOn (selects channel) w =
      select_cases lib yaml (RunsOn (selects channel) w) channel w
        (λ e. inr (freed_mount channel w (after_serve lib yaml (serve lib yaml channel w)).world e))
        (after_serve-RunsOn channel w (serve lib yaml channel w) (serve-WaitsIn channel w))

  -- A system that has stopped stays so.
  run-stopped :
      (i : Input) (v w w' : World) (status : Status) (is : List Input)
      → StopsBy status i v w'
      → run lib yaml (record { world = w; status = status }) is
        ≡ record { world = w; status = status }
  unfolding run
  run-stopped i v w w' status [] h = refl
  run-stopped i v w w' running (j ∷ is) h = absurd h
  run-stopped i v w w' deadlocked (j ∷ is) h = run-stopped i v w w' deadlocked is h
  run-stopped i v w w' crashed (j ∷ is) h = run-stopped i v w w' crashed is h
  run-stopped i v w w' undefined (j ∷ is) h = run-stopped i v w w' undefined is h

  -- An input after which the system runs, before an explained run.
  later-Explained :
      (i : Input) (w v : World) (is : List Input) (q : System)
      → step lib yaml i w ≡ up v
      → Explained lib yaml v is q
      → Explained lib yaml w (i ∷ is) q
  later-Explained i w v is q e (inl h) = inl h
  later-Explained i w v is q e (inr (before, j, after, u, split, runs, last, why)) = inr (
    i ∷ before,
    j,
    after,
    u,
    ap (λ js. i ∷ js) split,
    run-cons lib yaml i before w v e ∙ runs,
    last,
    why,
  )

  -- The input that stops the system.
  stopped-Explained :
      (i : Input) (w v : World) (status : Status) (is : List Input)
      → step lib yaml i w ≡ record { world = v; status = status }
      → StopsBy status i w v
      → Explained lib yaml w (i ∷ is) (run lib yaml (record { world = v; status = status }) is)
  stopped-Explained i w v status is e why =
      subst (Explained lib yaml w (i ∷ is)) (sym (run-stopped i w v v status is why))
        (inr ([], i, is, w, refl, run-nil lib yaml (up w), sym e, why))

  step-Explained :
      (i : Input) (w v : World) (status : Status) (is : List Input)
      → step lib yaml i w ≡ record { world = v; status = status }
      → RunsOn i w (record { world = v; status = status })
      → Explained lib yaml v is (run lib yaml (up v) is)
      → Explained lib yaml w (i ∷ is) (run lib yaml (record { world = v; status = status }) is)
  step-Explained i w v running is e h rest =
      later-Explained i w v is (run lib yaml (up v) is) e rest
  step-Explained i w v deadlocked is e (inl h) rest = absurd (ground (arith, h))
  step-Explained i w v deadlocked is e (inr why) rest = stopped-Explained i w v deadlocked is e why
  step-Explained i w v crashed is e (inl h) rest = absurd (ground (arith, h))
  step-Explained i w v crashed is e (inr why) rest = stopped-Explained i w v crashed is e why
  step-Explained i w v undefined is e (inl h) rest = absurd (ground (arith, h))
  step-Explained i w v undefined is e (inr why) rest = stopped-Explained i w v undefined is e why

  -- A system that runs still does so after any inputs, or one of them stopped it, in the state that
  -- those before it led to while it ran. If the manager then waits for itself, it took the error of
  -- a reader or a new client, and the table of the handlers is locked, or the channel of metadata
  -- or the collector is full. If the process panicked, it was by the goroutine of a packet that was
  -- held back for another manager than the present one. If a freed shout_t was used, the manager
  -- collected a mount whose shout_t had been freed before.
  pub run-Explained :
      (w : World) (is : List Input)
      → Explained lib yaml w is (run lib yaml (record { world = w; status = running }) is)
  unfolding run
  run-Explained w [] = inl refl
  run-Explained w (i ∷ is) =
      let q = step lib yaml i w in
      step-Explained i w q.world q.status is refl (step-RunsOn i w) (run-Explained q.world is)
