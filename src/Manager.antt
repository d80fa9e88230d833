-- ===== src/Manager.antt =====
-- The methods of Manager in server/icecast.go, and DestroyMount and DestroyManager.
pub mod Live
pub mod Add
pub mod Remove
pub mod Serve
pub mod Sound
pub mod Seats
pub mod Order
use icecast_proxy_go.Prelude.{ℕ, Bool, false, Option, none, some, ◌==◌}

-- A comparison of the pointer mount.Active with one that is not nil.
abbrev pub is_active : Option ℕ → ℕ → Bool
is_active none id = false
is_active (some active) id = active == id
