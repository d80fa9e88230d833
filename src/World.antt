-- ===== src/World.antt =====
-- The state that server/icecast.go works on: the heap of the pointers that it shares, the Manager
-- of server/manager.go, the packets of server/packets.go, the goroutines that it starts.
use icecast_proxy_go.Prelude.{
  ℕ, Bool, true, false, List, [], ◌∷◌, ◌++◌, Option, Str, ltb, length, Go, done, blocked, modify,
  zoom, update,
}
use icecast_proxy_go.Client.{ClientId, Client}
use icecast_proxy_go.Handlers.{Handlers}
use icecast_proxy_go.Mount.{Mount}

-- MetaPack: `payload` is its Data.
pub record MetaPack : Type 0 where
  pub payload : Str
  pub id : ℕ
  pub seen : Bool

pub record DataPack : Type 0 where
  pub payload : Str
  pub client : ℕ

-- ErrPack: a nil error is none.
pub record ErrPack : Type 0 where
  pub err : Option Str
  pub client : ℕ

-- Manager: the mounts by name, the buffered channels (the oldest first) and the stored metadata.
pub record Manager : Type 0 where
  pub mounts : List (Str × ℕ)
  pub receiver : List ℕ
  pub mount_collector : List ℕ
  pub meta_chan : List MetaPack
  pub meta_store : List (ℕ × Str)

unfoldable pub new_manager : Manager
new_manager = record {
  mounts = [];
  receiver = [];
  mount_collector = [];
  meta_chan = [];
  meta_store = [];
}

-- The heap by address, the connections that were closed, the manager, the table of the handlers,
-- the two channels of ProcessClients, the clients that ReadInto runs for, the goroutines that hold
-- a MetaPack back, each with the manager that it sends to, the number of managers before, and for
-- each mount whether the range over the map of its client's two options yields the name first: Go
-- leaves that order open, and so it is arbitrary here.
pub record World : Type 0 where
  pub ids : ℕ → ClientId
  pub clients : ℕ → Client
  pub mount_at : ℕ → Mount
  pub next_mount : ℕ
  pub closed : ℕ → Bool
  pub manager : Manager
  pub handlers : Handlers
  pub data_chan : List DataPack
  pub err_chan : List ErrPack
  pub readers : List ℕ
  pub sleepers : List (ℕ × MetaPack)
  pub generation : ℕ
  pub mount_first : ℕ → Bool

abbrev pub at_mount : {A : Type 0} → ℕ → Go Mount A → Go World A
at_mount m = zoom (λ w. w.mount_at m) (λ t w. record w { mount_at = update m t w.mount_at })

abbrev pub on_handlers : Go Handlers (Unit {0}) → Go World (Unit {0})
on_handlers = zoom (λ w. w.handlers) (λ h w. record w { handlers = h })

abbrev pub on_manager : {A : Type 0} → Go Manager A → Go World A
on_manager = zoom (λ w. w.manager) (λ m w. record w { manager = m })

-- The capacities with which NewManager and ProcessClients make the channels.
abbrev pub receiver_cap : ℕ
receiver_cap = 5

abbrev pub collector_cap : ℕ
collector_cap = 5

abbrev pub meta_cap : ℕ
meta_cap = 10

abbrev pub data_cap : ℕ
data_cap = 1024

abbrev pub err_cap : ℕ
err_cap = 512

-- `self.MetaChan <- pack` by the manager, which alone receives from the channel: if the channel is
-- full it waits for itself.
abbrev pub send_meta : MetaPack → Go World (Unit {0})
send_meta pack = on_manager λ m. elim (ltb (length m.meta_chan) meta_cap) [
  | true ↦ done tt (record m { meta_chan = m.meta_chan ++ pack ∷ [] })
  | false ↦ blocked m
]

-- `self.MountCollector <- mount`, likewise.
abbrev pub send_collector : ℕ → Go World (Unit {0})
send_collector mount = on_manager λ m. elim (ltb (length m.mount_collector) collector_cap) [
  | true ↦ done tt (record m { mount_collector = m.mount_collector ++ mount ∷ [] })
  | false ↦ blocked m
]

-- The address of a client's ClientID, and the name of its mount.
abbrev pub id_of : World → ℕ → ℕ
id_of w client = (w.clients client).client_id

abbrev pub mount_name : World → ℕ → Str
mount_name w client = (w.ids (id_of w client)).mount

abbrev pub close_conn : ℕ → Go World (Unit {0})
close_conn client = modify λ w. record w { closed = update (w.clients client).conn true w.closed }
