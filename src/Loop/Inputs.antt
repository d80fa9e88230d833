-- ===== src/Loop/Inputs.antt =====
-- How an input of Loop.antt is taken, by cases.
use icecast_proxy_go.Prelude.{
  ℕ, ◌≡◌, ◌≢◌, ◌<◌, refl, ap, Bool, true, false, List, [], ◌∷◌, ◌++◌, arith, ◌==◌, if◌then◌else◌,
  length, ltb, Option, none, some, get_elem?, erase_idx, Outcome, done,
}
use icecast_proxy_go.Config.{Yaml}
use icecast_proxy_go.Shout.{LibShout}
use icecast_proxy_go.World.{World, MetaPack, meta_cap}
use icecast_proxy_go.Loop.{
  System, Input, Channel, selects, uses_freed, serve, after_serve, running, crashed, undefined,
  wake, step, run,
}

abbrev pub up : World → System
up w = record { world = w; status = running }

pub run-cons :
    (lib : LibShout) (yaml : Yaml) (i : Input) (is : List Input) (w w' : World)
    → step lib yaml i w ≡ up w'
    → run lib yaml (up w) (i ∷ is) ≡ run lib yaml (up w') is
unfolding run
run-cons lib yaml i is w w' e = ap (λ q. run lib yaml q is) e

pub run-nil : (lib : LibShout) (yaml : Yaml) (q : System) → run lib yaml q [] ≡ q
unfolding run
run-nil lib yaml q = refl

-- Nothing happens on an empty channel, and else what its oldest element leads to.
pub received_cases :
    {A : Type 0} (P : Outcome World (Unit {0}) → Type 0) (w : World) (chan : List A)
    (k : A → List A → Outcome World (Unit {0}))
    → P (done tt w)
    → ((a : A) (rest : List A) → chan ≡ a ∷ rest → P (k a rest))
    → P (elim chan as (λ _. Outcome World (Unit {0})) [ [] ↦ done tt w | a ∷ rest ↦ k a rest ])
received_cases P w [] k none_left next = none_left
received_cases P w (a ∷ rest) k none_left next = next a rest refl

-- The n-th packet that is held back is sent.
abbrev pub woken : ℕ → MetaPack → World → World
woken n pack w = record w {
  sleepers = erase_idx w.sleepers n;
  manager = record (w.manager) { meta_chan = w.manager.meta_chan ++ pack ∷ [] };
}

-- What a property of the systems after `wake` comes to.
pub wake_cases :
    (P : System → Type 0) (n : ℕ) (w : World)
    → P (record { world = w; status = running })
    → ((pack : MetaPack)
        → get_elem? w.sleepers n ≡ some (w.generation, pack)
        → length w.manager.meta_chan < meta_cap
        → P (record { world = woken n pack w; status = running }))
    → ((manager : ℕ) (pack : MetaPack)
        → get_elem? w.sleepers n ≡ some (manager, pack)
        → manager ≢ w.generation
        → P (record { world = w; status = crashed }))
    → P (wake n w)
unfolding wake
wake_cases P n w waits sends ends = by_sleeper (get_elem? w.sleepers n) refl
  where
    after : ℕ × MetaPack → Bool → Bool → System
    after sleeper current room =
        if current
        then if room
          then record { world = woken n sleeper.1 w; status = running }
          else record { world = w; status = running }
        else record { world = w; status = crashed }

    by_test :
        (manager : ℕ) (pack : MetaPack)
        → get_elem? w.sleepers n ≡ some (manager, pack)
        → (current room : Bool) → (manager == w.generation) ≡ current
        → ltb (length w.manager.meta_chan) meta_cap ≡ room
        → P (after (manager, pack) current room)
    by_test manager pack e true true c r = sends pack (ground (arith, e, c)) (ground arith)
    by_test manager pack e true false c r = waits
    by_test manager pack e false room c r = ends manager pack e (λ q. ground (arith, c, q))

    by_sleeper :
        (o : Option (ℕ × MetaPack))
        → get_elem? w.sleepers n ≡ o
        → P (elim o as (λ _. System) [
          | none ↦ record { world = w; status = running }
          | some (manager, pack) ↦
              if manager == w.generation
              then if ltb (length w.manager.meta_chan) meta_cap
                then record { world = woken n pack w; status = running }
                else record { world = w; status = running }
              else record { world = w; status = crashed }
        ])
    by_sleeper none e = waits
    by_sleeper (some (manager, pack)) e =
        by_test manager pack e (manager == w.generation) (ltb (length w.manager.meta_chan) meta_cap)
          refl refl

-- What a property of the systems after a case of the select statement comes to.
pub select_cases :
    (lib : LibShout) (yaml : Yaml) (P : System → Type 0) (channel : Channel) (w : World)
    → (uses_freed channel w ≡ true
        → P (record {
          world = (after_serve lib yaml (serve lib yaml channel w)).world;
          status = undefined;
        }))
    → P (after_serve lib yaml (serve lib yaml channel w))
    → P (step lib yaml (selects channel) w)
unfolding step
select_cases lib yaml P channel w freed served =
    by_test (after_serve lib yaml (serve lib yaml channel w)) (uses_freed channel w) refl freed
      served
  where
    by_test :
        (q : System) (b : Bool)
        → uses_freed channel w ≡ b
        → (uses_freed channel w ≡ true → P (record { world = q.world; status = undefined }))
        → P q
        → P (elim b as (λ _. System) [
          | true ↦ record { world = q.world; status = undefined }
          | false ↦ q
        ])
    by_test q true e f s = f e
    by_test q false e f s = s

-- A case that uses a freed shout_t.
pub select-freed :
    (lib : LibShout) (yaml : Yaml) (channel : Channel) (w : World)
    → uses_freed channel w ≡ true
    → step lib yaml (selects channel) w ≡ record {
      world = (after_serve lib yaml (serve lib yaml channel w)).world;
      status = undefined;
    }
unfolding step
select-freed lib yaml channel w e =
    ap
      (λ (b : Bool). elim b as (λ _. System) [
        | true ↦ record {
          world = (after_serve lib yaml (serve lib yaml channel w)).world;
          status = undefined;
        }
        | false ↦ after_serve lib yaml (serve lib yaml channel w)
      ])
      e

-- A case that uses no freed shout_t.
pub select-safe :
    (lib : LibShout) (yaml : Yaml) (channel : Channel) (w : World)
    → uses_freed channel w ≡ false
    → step lib yaml (selects channel) w ≡ after_serve lib yaml (serve lib yaml channel w)
select-safe lib yaml channel w e =
    let served = after_serve lib yaml (serve lib yaml channel w) in
    select_cases lib yaml (λ q. q ≡ served) channel w (λ f. absurd (ground (arith, e, f))) refl
