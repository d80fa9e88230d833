-- ===== src/Loop/Ages.antt =====
-- The goroutines of server/icecast.go that hold metadata back, and the managers that they do it for.
pub mod Cases
pub mod Adds
pub mod Runs
use icecast_proxy_go.Prelude.{
  ℕ, ◌≡◌, ◌<◌, List, ◌∷◌, [], ◌++◌, Option, none, some, Str, Go, Preserves, zoom-Preserves,
  modify-Preserves, preserving, ◌⊎◌, inl, inr, All, All-append, recover, of_recover, modify,
}
use icecast_proxy_go.Handlers.{Handlers}
use icecast_proxy_go.Mount.{Mount}
use icecast_proxy_go.World.{World, Manager, MetaPack, at_mount, on_handlers, on_manager, close_conn}
use icecast_proxy_go.Manager.Serve.{set_metadata}

-- No manager has come after that of number `first`, for which all is held back; or one has.
abbrev pub IsFirst : ℕ → World → Type 0
IsFirst first w =
    ((w.generation ≡ first) × All (λ sleeper. sleeper.0 ≡ first) w.sleepers)
    ⊎ (first < w.generation)

-- The computation starts no manager, and holds metadata back for the present one only.
abbrev pub KeepsFirst : ℕ → {A : Type 0} → Go World A → Type 0
KeepsFirst first = Preserves (IsFirst first)

module _ {first : ℕ} where
  pub at_mount-KeepsFirst : {A : Type 0} (m : ℕ) (k : Go Mount A) → KeepsFirst first (at_mount m k)
  at_mount-KeepsFirst m k = zoom-Preserves _ _ k λ w h. h

  pub on_handlers-KeepsFirst : (k : Go Handlers (Unit {0})) → KeepsFirst first (on_handlers k)
  on_handlers-KeepsFirst k = zoom-Preserves _ _ k λ w h. h

  pub on_manager-KeepsFirst : {A : Type 0} (k : Go Manager A) → KeepsFirst first (on_manager k)
  on_manager-KeepsFirst k = zoom-Preserves _ _ k λ w h. h

  pub close_conn-KeepsFirst : (client : ℕ) → KeepsFirst first (close_conn client)
  close_conn-KeepsFirst client = modify-Preserves _ λ w h. h

  pub set_metadata-KeepsFirst :
      (client : ℕ) (meta : Str) → KeepsFirst first (set_metadata client meta)
  set_metadata-KeepsFirst client meta = modify-Preserves _ λ w h. h

  -- A packet that is held back.
  pub hold_back-KeepsFirst :
      (pack : MetaPack)
      → KeepsFirst first
          (modify (λ w. record w { sleepers = w.sleepers ++ (w.generation, pack) ∷ [] }))
  hold_back-KeepsFirst pack = modify-Preserves _ held
    where
      held :
          (w : World)
          → IsFirst first w
          → IsFirst first (record w { sleepers = w.sleepers ++ (w.generation, pack) ∷ [] })
      held w (inl (e, h)) =
          inl (e, All-append (λ sleeper. sleeper.0 ≡ first) w.sleepers _ h (e, tt))
      held w (inr later) = inr later

  pub recover-KeepsFirst :
      {A : Type 0} (a : A) (k : Go World A) → KeepsFirst first k → KeepsFirst first (recover a k)
  recover-KeepsFirst a k h = record {
    apply = λ w s. of_recover (IsFirst first) a (k w) (h.apply w s) w;
  }

-- The rules for `search`.
pub ruleset firsts = (
  preserving, at_mount-KeepsFirst, on_handlers-KeepsFirst, on_manager-KeepsFirst,
  close_conn-KeepsFirst, set_metadata-KeepsFirst, hold_back-KeepsFirst,
)
