-- ===== src/Loop/Ends.antt =====
-- How a run of the goroutines of server/icecast.go can end: what the manager waits for where it waits
-- for itself, which goroutine panics, and which case uses a freed shout_t.
pub mod Waits
pub mod Removes
pub mod Adds
pub mod Cases
pub mod Runs
use icecast_proxy_go.Prelude.{
  ℕ, ◌≡◌, ◌≢◌, ◌≤◌, ◌⊎◌, true, List, ◌∷◌, ◌++◌, some, get_elem?, length, Go, Outcome, done,
  panicked, blocked,
}
use icecast_proxy_go.World.{World, MetaPack, meta_cap, collector_cap}
use icecast_proxy_go.Config.{Yaml}
use icecast_proxy_go.Shout.{LibShout, is_freed}
use icecast_proxy_go.Loop.{
  System, Status, Input, wakes, selects, err_case, receiver_case, collector_case, running,
  deadlocked, crashed, undefined, step, run,
}

-- Nobody will unlock the table of the handlers or receive from the channel while the manager waits.
abbrev pub IsStuck : World → Type 0
IsStuck w =
    (w.handlers.locked ≡ true)
    ⊎ ((meta_cap ≤ length w.manager.meta_chan) ⊎ (collector_cap ≤ length w.manager.mount_collector))

-- What stopped the system: the input that took it from the first of the worlds to the second.
abbrev pub StopsBy : Status → Input → World → World → Type 0
StopsBy running i w w' = ⊥
StopsBy deadlocked i w w' = ((i ≡ selects err_case) ⊎ (i ≡ selects receiver_case)) × IsStuck w'
StopsBy crashed i w w' =
    (n : ℕ) × (manager : ℕ) × (pack : MetaPack) × (i ≡ wakes n)
    × (get_elem? w.sleepers n ≡ some (manager, pack))
    × (manager ≢ w.generation)
StopsBy undefined i w w' =
    (m : ℕ) × (rest : List ℕ) × (i ≡ selects collector_case)
    × (w.manager.mount_collector ≡ m ∷ rest)
    × (is_freed (w.mount_at m).shout.calls ≡ true)

-- After the inputs the system runs, or one of them stopped it.
abbrev pub Explained : LibShout → Yaml → World → List Input → System → Type 0
Explained lib yaml w is q =
    (q.status ≡ running)
    ⊎ ((before : List Input) × (i : Input) × (after : List Input) × (v : World) × (is
          ≡ before ++ i ∷ after)
        × (run lib yaml (record { world = w; status = running }) before
            ≡ record { world = v; status = running })
        × (q ≡ step lib yaml i v)
        × StopsBy q.status i v q.world)

-- Where the outcome is one that waits, its state is so.
abbrev pub WaitsIn : {S A : Type 0} → (S → Type 0) → Outcome S A → Type 0
WaitsIn P (done a s) = Unit {0}
WaitsIn P (panicked e s) = Unit {0}
WaitsIn P (blocked s) = P s

-- The computation waits only in such states.
pub record WaitsOnly {S A : Type 0} (P : S → Type 0) (k : Go S A) : Type 0 where
  pub apply : (s : S) → WaitsIn P (k s)

abbrev pub NeverWaits : {S A : Type 0} → Go S A → Type 0
NeverWaits = WaitsOnly (λ s. ⊥)

-- Where the computation waits, the manager is stuck.
abbrev pub Reasoned : {A : Type 0} → Go World A → Type 0
Reasoned = WaitsOnly IsStuck
