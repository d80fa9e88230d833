-- ===== src/Tests.antt =====
-- Tests, and what the witnesses share.
mod Clients
mod Seats
mod Runs
mod Requests
mod Parts
use icecast_proxy_go.Prelude.{
  ℕ, ℤ, pos, negsuc, zero, suc, ◌+◌, ◌≤◌, ◌<◌, ◌≡◌, ◌≢◌, ◌↔◌, ◌⊎◌, refl, inl, inr, Bool, true,
  false, List, [], ◌∷◌, ◌++◌, Option, none, some, Str, bytes, arith, str_eq, ◌==◌, if◌then◌else◌,
  lookup, insert, delete, text_eq, nat_eq, str_eq_iff, Outcome, state_of, done, panicked, blocked,
  ◌>>=◌, ◌>>◌, IsDone, update, length, Go, replicate,
}
use mathlib.Core.List.{Perm}
use icecast_proxy_go.Manager.Seats.{seats, join, IsTidy}
use icecast_proxy_go.Manager.Seats.Runs.{Change, comes, goes, changes, adds, removes, idle}
use icecast_proxy_go.Manager.Seats.Leaves.{HasLeft}
use icecast_proxy_go.Http.Permissions.Laws.{IsWithin}
use icecast_proxy_go.Http.Version
use icecast_proxy_go.Http.Version.{
  big, parse_http_version, scan_digits, strip_prefix, read_request_line,
}
use icecast_proxy_go.Start.{HttpServer, main, initialize}
use icecast_proxy_go.Start.Laws.{IsConnected}
use icecast_proxy_go.Manager.Sound.{same-IsSound}
use icecast_proxy_go.Text.{cut, split_n, contains, to_lower, split}
use icecast_proxy_go.Base64.Laws.{encode, digit}
use icecast_proxy_go.Client.{
  LoginStatus, ClientId, Permission, perm_source, perm_admin, rank, new_permission, new_client,
  Request,
}
use icecast_proxy_go.ClientHash.{hash, write_string, fnv_byte, host}
use icecast_proxy_go.Container.{new_container, get_by_id, get_by_hash, find_hash, add, remove}
use icecast_proxy_go.Container.Laws.{IsValid}
use icecast_proxy_go.Handlers.{
  Handlers, is_member, remove_first, handle_client_connect, handle_client_disconnect,
  handle_client_live,
}
use icecast_proxy_go.Handlers.Laws.{listed}
use icecast_proxy_go.Config.{
  create_shout_map, fill_options, server_address, Yaml, init_config, address_from,
  create_database_dsn, get_string, params_from,
}
use icecast_proxy_go.Config.Laws.{entry_or}
use icecast_proxy_go.Shout.{
  Shout, ShoutError, Call, shout_send, shout_open, shout_close, shout_free, shout_metadata_free,
  shout_metadata_add, shout_set_metadata, shout_set_audio_info, send, send_metadata, connected,
  create_shout_error, close, open_shout,
}
use icecast_proxy_go.Shout.Options.{
  new_shout, apply_options, formats, protocols, option_call, atoi, digits_value,
}
use icecast_proxy_go.Mount.{Mount, new_mount, full_queue, handle_data, send_data, after_send}
use icecast_proxy_go.Mount.Laws.{IsGuarded}
use icecast_proxy_go.World.{World, id_of, mount_name}
use icecast_proxy_go.Manager.Live.{next_live_client, next_live_from, swap_live_client}
use icecast_proxy_go.Manager.Add.{
  add_client, add_body, open_mount, join_mount, place_mount, finish_mount,
}
use icecast_proxy_go.Manager.Add.Opens.{stored_pack, opened_calls}
use icecast_proxy_go.Loop.Stream.{with_calls}
use icecast_proxy_go.Manager.Remove.{remove_client, remove_from, drop_client, on_collect}
use icecast_proxy_go.Manager.Serve.{on_data, on_meta, on_client, on_error, on_tick}
use icecast_proxy_go.Manager.Serve.Metadata.{IsListedFor}
use icecast_proxy_go.Manager.Sound.{IsSound, IsEntry}
use icecast_proxy_go.Manager.Order.{InOrder, IsProper, rosters}
use icecast_proxy_go.Loop.Ends.{Explained}
use icecast_proxy_go.Http.Admin.Pages.{IsPart, row}
use icecast_proxy_go.Loop.{
  System, Input, running, crashed, deadlocked, undefined, run, step, serve, client_arrives, reads,
  read_fails, wakes, selects, receiver_case, data_case, err_case, collector_case, meta_case,
  meta_arrives,
}
use icecast_proxy_go.Auth.{
  new_client_id_from_request, Exchange, login, login_client, fetch_user, named_source, parse_digest,
  init_auth, make_auth_handler, put_id, authentication_error, set_header, write_header, write,
}
use icecast_proxy_go.Http.{
  metadata_handler, metadata_answer, source_handler, main_handler, parse_metadata,
}
use icecast_proxy_go.Http.Laws.{IsHarmless}
use icecast_proxy_go.Http.Text.{itoa, itoa_from, slice_prefix}
use icecast_proxy_go.Http.Admin.{admin_handler}
use icecast_proxy_go.Samples.{
  good_lib, small_yaml, whole_yaml, person, idle_mount, quiet, busy_mount, busy, full, solo, left,
  doomed, song_for, accounts, ann_request, nobody_request, song_request, kick_request,
  idle_exchange, services,
}
use icecast_proxy_go.Loop.Laws.{run-IsSound}
use icecast_proxy_go.Loop.Order.{run-InOrder}
use icecast_proxy_go.Manager.Seats.Runs.{Serves-refines}
use icecast_proxy_go.Loop.Ends.Runs.{run-Explained}
use icecast_proxy_go.Loop.Stream.{stream_begins, data_delivered}
use icecast_proxy_go.Manager.Seats.Leaves.{remove_client-seats}
use icecast_proxy_go.Http.Permissions.Laws.{main_handler-IsWithin}
use icecast_proxy_go.Loop.Delivery.{metadata_delivered, metadata_drained}
use icecast_proxy_go.Manager.Remove.Laws.{remove_client-hands_over, remove_client-last}
use icecast_proxy_go.Manager.Serve.Metadata.{on_meta-changes_only_listed}
use icecast_proxy_go.Auth.Laws.{
  make_auth_handler-guards, login_sound, parse_digest-encode, login-source,
}
use icecast_proxy_go.Manager.Sound.Returns.{on_meta-IsDone}
use icecast_proxy_go.Manager.Add.Opens.{add_client-opens}
use icecast_proxy_go.Manager.Serve.Clients.{on_client-turns_away, revived_mount_is_silent}
use icecast_proxy_go.Manager.Serve.Laws.{early_metadata}
use icecast_proxy_go.Manager.Remove.Collect.{on_collect-frees}
use icecast_proxy_go.Http.Laws.{
  main_handler-anonymous, metadata_handler-sends, source_handler-receives,
}
use icecast_proxy_go.Start.Laws.{main_ready}
use icecast_proxy_go.Http.Version.Laws.{
  read_request_line-ice, parse_http_version-print, parse_http_version-le,
}
use icecast_proxy_go.Http.Admin.Pages.{admin_handler-shows}
use icecast_proxy_go.Http.Admin.Laws.{admin_handler-kicks, admin_handler-deadlocks}
use icecast_proxy_go.Loop.Ages.Runs.{run_crashes_later}
use icecast_proxy_go.Loop.Deadlock.{handover_deadlocks}
use icecast_proxy_go.Loop.Restart.{restart_crashes}
use icecast_proxy_go.Handlers.Laws.{disconnect_deadlocks}
use icecast_proxy_go.Shout.Laws.{option_call_unnamed}

abbrev pub start : System
start = record { world = quiet; status = running }

abbrev pub session : List Input
session =
    client_arrives 1
    ∷ selects receiver_case
    ∷ client_arrives 2
    ∷ selects receiver_case
    ∷ reads 1 (bytes "data")
    ∷ selects data_case
    ∷ read_fails 1 (some (bytes "EOF"))
    ∷ selects err_case
    ∷ []

-- The first client is live until it fails, and then the second.
live_after_session : ((run good_lib small_yaml start session).world.mount_at 0).active ≡ some 2
unfolding run step serve on_client add_client add_body open_mount join_mount new_mount
    create_shout_map fill_options insert lookup str_eq place_mount finish_mount new_shout
    apply_options option_call atoi digits_value handle_client_connect on_data handle_data send_data
    send after_send connected close open_shout on_error remove_client remove_from drop_client
    next_live_client next_live_from swap_live_client handle_client_live handle_client_disconnect
    is_member remove_first add remove get_by_id update hash write_string fnv_byte host split formats
    protocols new_container delete create_shout_error
live_after_session = refl

pub quiet-IsSound : IsSound good_lib quiet
unfolding lookup
quiet-IsSound = record {
  capped = ground arith;
  guarded = λ m. tt;
  queued = λ m. ground arith;
  unique = tt;
  entries = λ name m e. absurd (ground arith);
}

pub busy-IsValid : IsValid busy_mount.clients
busy-IsValid = record { unique = ground arith; counted = refl; bounded = omega arith }

pub busy-IsTidy : IsTidy busy 0
unfolding get_by_id lookup
busy-IsTidy = record {
  valid = busy-IsValid;
  owned = λ id client e. ground arith;
  lined = ground arith;
}
