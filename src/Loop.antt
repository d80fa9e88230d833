-- ===== src/Loop.antt =====
-- The goroutines of server/icecast.go as one system: the loop of init, the select statement of
-- ProcessClients, ReadInto, the goroutine that holds metadata back, and the senders of server/http.go.
pub mod Inputs
pub mod Laws
pub mod Restart
pub mod Delivery
pub mod Order
pub mod Ends
pub mod Ages
pub mod Stream
pub mod Deadlock
pub mod Collected
use icecast_proxy_go.Prelude.{
  ℕ, ◌+◌, Bool, true, false, List, [], ◌∷◌, ◌++◌, Option, none, some, Str, bytes, ◌==◌, ltb, leb,
  length, get_elem?, erase_idx, not, if◌then◌else◌, ◌&&◌, Go, Outcome, state_of, done, panicked,
  blocked, ◌>>=◌, ◌>>◌, skip, panic, gets, modify,
}
use icecast_proxy_go.Config.{Yaml, buffer_size}
use icecast_proxy_go.Handlers.{is_member, remove_first}
use icecast_proxy_go.Container.{is_positive}
use icecast_proxy_go.Shout.{LibShout, is_freed}
use icecast_proxy_go.World.{
  MetaPack, DataPack, ErrPack, Manager, new_manager, World, on_manager, receiver_cap, meta_cap,
  data_cap, err_cap,
}
use icecast_proxy_go.Manager.Remove.{on_collect, destroy_mounts}
use icecast_proxy_go.Manager.Serve.{on_data, on_error, on_tick, on_meta, on_client}

-- The cases of the select statement.
pub data Channel : Type 0 where
  data_case err_case receiver_case collector_case meta_case tick_case : Channel

-- What the rest of the program does: a source client or a metadata request comes in, a reader
-- reads or fails (with no error where it panicked), a second has passed for any one of the packets
-- that are held back, and the manager takes one case of its select statement.
pub data Input : Type 0 where
  client_arrives : ℕ → Input
  meta_arrives : MetaPack → Input
  reads : ℕ → Str → Input
  read_fails : ℕ → Option Str → Input
  wakes : ℕ → Input
  selects : Channel → Input

-- Whether the manager waits for itself, the process has ended by a panic, or a freed shout_t was
-- used, after which libshout promises nothing.
pub data Status : Type 0 where
  running deadlocked crashed undefined : Status

pub record System : Type 0 where
  pub world : World
  pub status : Status

-- A send of another goroutine to a full channel waits, which here is to be tried again.
abbrev pub offer {ℓ} : {A : Type ℓ} → ℕ → A → List A → List A
offer cap a chan = if ltb (length chan) cap then chan ++ a ∷ [] else chan

-- The n-th of the goroutines that hold packets back sends its own to its own manager: after a
-- restart that channel is closed, and the panic ends the process.
unfoldable pub wake : ℕ → World → System
wake n w = elim (get_elem? w.sleepers n) [
  | none ↦ record { world = w; status = running }
  | some (manager, pack) ↦
      if manager == w.generation
      then if ltb (length w.manager.meta_chan) meta_cap
        then record {
          world = record w {
            sleepers = erase_idx w.sleepers n;
            manager = record (w.manager) { meta_chan = w.manager.meta_chan ++ pack ∷ [] };
          };
          status = running;
        }
        else record { world = w; status = running }
      else record { world = w; status = crashed }
]

-- One iteration of ReadInto, on no more than its buffer holds.
abbrev pub read_into : ℕ → Str → World → World
read_into client payload w =
    if is_member client w.readers && leb (length payload) buffer_size
    then record w {
      data_chan = offer data_cap (record { payload = payload; client = client }) w.data_chan;
    }
    else w

abbrev pub stop_reading : ℕ → Option Str → World → World
stop_reading client err w =
    if is_member client w.readers && ltb (length w.err_chan) err_cap
    then record w {
      err_chan = w.err_chan ++ record { err = err; client = client } ∷ [];
      readers = remove_first client w.readers;
    }
    else w

-- Whether the case uses a freed shout_t: one that calls Close and DestroyShout on a mount that it
-- destroyed before.
unfoldable pub uses_freed : Channel → World → Bool
uses_freed collector_case w = elim w.manager.mount_collector [
  | [] ↦ false
  | m ∷ rest ↦
      not (is_positive (w.mount_at m).clients.length) && is_freed (w.mount_at m).shout.calls
]
uses_freed _ w = false

module _ (lib : LibShout) (yaml : Yaml) where
  -- One round of ProcessClients. A case whose channel is empty is not ready, and nothing happens.
  unfoldable pub serve : Channel → Go World (Unit {0})
  serve data_case w = elim w.data_chan [
    | [] ↦ skip w
    | pack ∷ rest ↦ on_data lib pack (record w { data_chan = rest })
  ]
  serve err_case w = elim w.err_chan [
    | [] ↦ skip w
    | pack ∷ rest ↦ on_error pack (record w { err_chan = rest })
  ]
  serve receiver_case w = elim w.manager.receiver [
    | [] ↦ skip w
    | client ∷ rest ↦
        on_client lib yaml client (record w { manager = record (w.manager) { receiver = rest } })
  ]
  serve collector_case w = elim w.manager.mount_collector [
    | [] ↦ skip w
    | m ∷ rest ↦
        on_collect lib m (record w { manager = record (w.manager) { mount_collector = rest } })
  ]
  serve meta_case w = elim w.manager.meta_chan [
    | [] ↦ skip w
    | meta ∷ rest ↦
        on_meta lib meta (record w { manager = record (w.manager) { meta_chan = rest } })
  ]
  serve tick_case w = on_tick w

  -- The loop of init after a panic: a new manager, and DestroyManager on the old one. The channels
  -- that the old readers send to are received from no more.
  unfoldable pub restart : World → World
  restart w = state_of (
      destroy_mounts lib w.manager.mounts (record w {
        manager = new_manager;
        data_chan = [];
        err_chan = [];
        readers = [];
        generation = w.generation + 1;
      }))

  abbrev pub after_serve : Outcome World (Unit {0}) → System
  after_serve (done _ w) = record { world = w; status = running }
  after_serve (panicked e w) = record { world = restart w; status = running }
  after_serve (blocked w) = record { world = w; status = deadlocked }

  unfoldable pub step : Input → World → System
  unfolding uses_freed
  step (client_arrives client) w = record {
    world = record w {
      manager = record (w.manager) { receiver = offer receiver_cap client w.manager.receiver };
    };
    status = running;
  }
  step (meta_arrives pack) w = record {
    world = record w {
      manager = record (w.manager) { meta_chan = offer meta_cap pack w.manager.meta_chan };
    };
    status = running;
  }
  step (reads client payload) w = record { world = read_into client payload w; status = running }
  step (read_fails client err) w = record { world = stop_reading client err w; status = running }
  step (wakes n) w = wake n w
  step (selects channel) w =
      let served = after_serve (serve channel w) in
      elim (uses_freed channel w) [
        | true ↦ record { world = served.world; status = undefined }
        | false ↦ served
      ]

  -- A deadlocked manager and an ended process stay so.
  abbrev pub proceed : Input → System → System
  proceed i s = elim s.status [ running ↦ step i s.world | _ ↦ s ]

  unfoldable pub run : System → List Input → System
  run s [] = s
  run s (i ∷ is) = run (proceed i s) is
