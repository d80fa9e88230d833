-- ===== src/Tests/Runs.antt =====
-- The theorems on runs of the loop at concrete inputs.
use icecast_proxy_go.Prelude.{
  ℕ, ◌<◌, ◌≡◌, refl, inl, inr, Bool, true, false, List, [], ◌∷◌, Option, some, Str, bytes, arith,
  str_eq, lookup, insert, text_eq, nat_eq, str_eq_iff, done, update, replicate,
}
use icecast_proxy_go.Manager.Sound.{same-IsSound}
use icecast_proxy_go.Text.{split}
use icecast_proxy_go.ClientHash.{hash, write_string, fnv_byte, host}
use icecast_proxy_go.Container.{get_by_id, get_by_hash, find_hash}
use icecast_proxy_go.Handlers.{is_member}
use icecast_proxy_go.Config.{create_shout_map, fill_options}
use icecast_proxy_go.Shout.{
  Shout, ShoutError, Call, shout_send, shout_open, shout_close, send_metadata,
}
use icecast_proxy_go.Shout.Options.{
  new_shout, apply_options, formats, protocols, option_call, atoi, digits_value,
}
use icecast_proxy_go.World.{World}
use icecast_proxy_go.Manager.Add.Opens.{opened_calls}
use icecast_proxy_go.Loop.Stream.{with_calls}
use icecast_proxy_go.Manager.Remove.{remove_client}
use icecast_proxy_go.Manager.Serve.{on_error}
use icecast_proxy_go.Manager.Sound.{IsSound, IsEntry}
use icecast_proxy_go.Manager.Order.{InOrder}
use icecast_proxy_go.Loop.Ends.{Explained}
use icecast_proxy_go.Loop.{
  running, crashed, deadlocked, run, serve, client_arrives, reads, wakes, selects, receiver_case,
  data_case, err_case, meta_case, meta_arrives,
}
use icecast_proxy_go.Samples.{good_lib, small_yaml, quiet, busy_mount, busy, left, doomed, song_for}
use icecast_proxy_go.Loop.Laws.{run-IsSound}
use icecast_proxy_go.Loop.Order.{run-InOrder}
use icecast_proxy_go.Loop.Ends.Runs.{run-Explained}
use icecast_proxy_go.Loop.Stream.{stream_begins, data_delivered}
use icecast_proxy_go.Loop.Delivery.{metadata_delivered, metadata_drained}
use icecast_proxy_go.Loop.Ages.Runs.{run_crashes_later}
use icecast_proxy_go.Loop.Deadlock.{handover_deadlocks}
use icecast_proxy_go.Loop.Restart.{restart_crashes}
use icecast_proxy_go.Tests.{start, session, quiet-IsSound}

run-IsSound_example : IsSound good_lib (run good_lib small_yaml start session).world
run-IsSound_example = run-IsSound good_lib small_yaml start session quiet-IsSound

restart_crashes_example :
    (run good_lib small_yaml
      (record { world = doomed; status = running })
      (selects err_case ∷ wakes 0 ∷ [])).status
    ≡ crashed
unfolding serve on_error remove_client lookup str_eq
restart_crashes_example =
    restart_crashes good_lib small_yaml err_case doomed (record doomed { err_chan = [] })
      (bytes "Unexisting mountpoint") 0 (song_for true) refl refl

metadata_delivered_example :
    (r : Option ShoutError) × (s : Shout) × (w' : World) × (send_metadata good_lib
        (bytes "song")
        busy_mount.shout
      ≡ done r s)
    × (run good_lib small_yaml
          (record { world = busy; status = running })
          (meta_arrives (song_for false) ∷ selects meta_case ∷ wakes 0 ∷ selects meta_case ∷ [])
        ≡ record { world = w'; status = running })
    × (w'.mount_at ≡ update 0 (record busy_mount { shout = s }) busy.mount_at)
    × ((w'.clients 1).metadata ≡ bytes "song")
    × (w'.manager.meta_chan ≡ [])
    × (w'.sleepers ≡ [])
unfolding lookup str_eq hash write_string fnv_byte host split get_by_hash find_hash
metadata_delivered_example =
    metadata_delivered good_lib small_yaml (song_for false) 0 1 1 busy refl refl refl refl refl refl
      refl

-- The two clients of the session are to come.
quiet-InOrder : InOrder (1 ∷ 2 ∷ []) quiet
unfolding get_by_id lookup
quiet-InOrder = record {
  proper =
      λ m. record { keyed = tt; owned = λ id client e. absurd (ground (arith, e)); lined = tt };
  apart = ((ground arith, tt), (tt, tt));
  unknown = λ m. ((tt, refl), ((tt, refl), tt));
}

run-InOrder_example : InOrder [] (run good_lib small_yaml start session).world
run-InOrder_example = run-InOrder good_lib small_yaml start session quiet-InOrder

run-Explained_example : Explained good_lib small_yaml doomed (selects err_case ∷ wakes 0 ∷ []) (
    run good_lib small_yaml
      (record { world = doomed; status = running })
      (selects err_case ∷ wakes 0 ∷ []))
run-Explained_example = run-Explained good_lib small_yaml doomed (selects err_case ∷ wakes 0 ∷ [])

-- The mount waits twice for its collection.
abbrev forsaken : World
forsaken = record left { manager = record (left.manager) { mount_collector = 0 ∷ 0 ∷ [] } }

run_crashes_later_example :
    0
    < (run good_lib small_yaml
        (record { world = doomed; status = running })
        (selects err_case ∷ wakes 0 ∷ [])).world.generation
unfolding serve on_error remove_client lookup str_eq
run_crashes_later_example =
    run_crashes_later good_lib small_yaml 0 doomed (selects err_case ∷ wakes 0 ∷ []) refl (refl, tt)
      (restart_crashes good_lib small_yaml err_case doomed (record doomed { err_chan = [] })
        (bytes "Unexisting mountpoint") 0 (song_for true) refl refl)

-- The live client is read from.
abbrev listening : World
listening = record busy { readers = 1 ∷ [] }

data_delivered_example :
    run good_lib small_yaml
      (record { world = listening; status = running })
      (reads 1 (5 ∷ 6 ∷ []) ∷ selects data_case ∷ [])
    ≡ record {
      world = with_calls 0 (shout_send (5 ∷ 6 ∷ []) ∷ shout_open ∷ shout_close ∷ []) listening;
      status = running;
    }
unfolding lookup str_eq is_member
data_delivered_example =
    data_delivered good_lib small_yaml 1 0 5 (6 ∷ []) (shout_open ∷ shout_close ∷ []) listening refl
      refl (omega arith) refl refl (inr (refl, refl, refl)) refl

abbrev host_option : List (Str × Str)
host_option = (bytes "host", bytes "h") ∷ []

-- The new mount is not connected, and is opened.
abbrev opening : List Call
opening = shout_open ∷ shout_close ∷ opened_calls good_lib host_option 1 quiet

stream_begins_example :
    (w' : World) × (run good_lib small_yaml
        (record { world = quiet; status = running })
        (client_arrives 1 ∷ selects receiver_case ∷ reads 1 (5 ∷ 6 ∷ []) ∷ selects data_case ∷ [])
      ≡ record { world = w'; status = running })
    × (lookup (bytes "/main") w'.manager.mounts ≡ some 0)
    × ((w'.mount_at 0).active ≡ some 1)
    × ((w'.mount_at 0).shout.calls ≡ shout_send (5 ∷ 6 ∷ []) ∷ opening)
unfolding lookup str_eq create_shout_map fill_options insert new_shout apply_options option_call
    atoi digits_value formats protocols
stream_begins_example =
    stream_begins good_lib small_yaml host_option 1 5 (6 ∷ []) opening quiet refl refl refl
      (λ v. refl) (omega arith) refl (omega arith) (inr (refl, refl, refl)) refl

-- The live client 1 has failed, 2 waits behind a stale identifier, and ten packets are under way.
abbrev jammed : World
jammed = record busy {
  err_chan = record { err = some (bytes "EOF"); client = 1 } ∷ [];
  manager = record (busy.manager) { meta_chan = replicate 10 (song_for false) };
}

handover_deadlocks_example :
    (run good_lib small_yaml
      (record { world = jammed; status = running })
      (selects err_case ∷ selects meta_case ∷ [])).status
    ≡ deadlocked
unfolding lookup str_eq get_by_id
handover_deadlocks_example =
    handover_deadlocks good_lib small_yaml (record { err = some (bytes "EOF"); client = 1 }) [] 0 2
      2 (9 ∷ []) [] jammed (selects meta_case ∷ []) refl refl refl refl (inl refl, tt) refl refl
      (λ e. omega (arith, e)) (omega arith)

-- The mount has its one entry, and has sent nothing.
busy-IsSound : IsSound good_lib busy
unfolding lookup str_eq
busy-IsSound = record {
  capped = ground arith;
  guarded = λ m. tt;
  queued = λ m. ground arith;
  unique = (tt, tt);
  entries = λ name m e. entry name m (str_eq (bytes "/main") name) refl e;
}
  where
    entry :
        (name : Str) (m : ℕ) (hit : Bool)
        → str_eq (bytes "/main") name ≡ hit
        → lookup name busy.manager.mounts ≡ some m
        → IsEntry busy name m
    entry name m true h e = record {
      named = ground (arith, str_eq_iff (bytes "/main") name, h);
      live = λ n. ground (arith, n);
      allocated = ground (arith, e, h);
      usable = refl;
    }
    entry name m false h e = absurd (ground (arith, e, h))

-- Two packets wait, for a mount with a live client.
abbrev talking : World
talking = record busy {
  manager = record (busy.manager) { meta_chan = song_for true ∷ song_for false ∷ [] };
}

talking-IsSound : IsSound good_lib talking
talking-IsSound = same-IsSound busy talking busy-IsSound refl refl refl (ground arith)

metadata_drained_example :
    (w' : World) × (run good_lib small_yaml
        (record { world = talking; status = running })
        (replicate 2 (selects meta_case))
      ≡ record { world = w'; status = running })
    × (w'.manager.meta_chan ≡ [])
    × IsSound good_lib w'
metadata_drained_example =
    metadata_drained good_lib small_yaml (song_for true ∷ song_for false ∷ []) talking
      talking-IsSound refl
