-- ===== src/Loop/Collected.antt =====
-- A mount of server/icecast.go that waits for its collection twice.
use icecast_proxy_go.Prelude.{ℕ, List}
use icecast_proxy_go.World.{World}

-- These mounts wait for their collection.
abbrev with_collector : List ℕ → World → World
with_collector chan w = record w { manager = record (w.manager) { mount_collector = chan } }
