-- ===== src/Tests/Seats.antt =====
-- The theorems on the line of sources at concrete inputs.
use icecast_proxy_go.Prelude.{
  ◌≡◌, refl, [], ◌∷◌, arith, str_eq, lookup, insert, delete, text_eq, nat_eq, state_of, update,
}
use icecast_proxy_go.Manager.Seats.{seats, IsTidy}
use icecast_proxy_go.Manager.Seats.Runs.{comes, goes, changes, adds, removes, idle}
use icecast_proxy_go.Manager.Seats.Leaves.{HasLeft}
use icecast_proxy_go.Container.{get_by_id, add, remove}
use icecast_proxy_go.Handlers.{
  is_member, remove_first, handle_client_disconnect, handle_client_live,
}
use icecast_proxy_go.World.{World}
use icecast_proxy_go.Manager.Live.{next_live_client, next_live_from, swap_live_client}
use icecast_proxy_go.Manager.Add.{add_client, add_body, join_mount}
use icecast_proxy_go.Manager.Remove.{remove_client, remove_from, drop_client}
use icecast_proxy_go.Samples.{good_lib, small_yaml, busy_mount, busy}
use icecast_proxy_go.Manager.Seats.Runs.{Serves-refines}
use icecast_proxy_go.Manager.Seats.Leaves.{remove_client-seats}
use icecast_proxy_go.Tests.{busy-IsTidy}

-- Client 3 comes, then the live client 1 goes.
abbrev with_third : World
with_third = state_of (add_client good_lib small_yaml 3 busy)

abbrev after_first : World
after_first = state_of (remove_client 1 with_third)

Serves-refines_example :
    (seats (after_first.mount_at 0) ≡ changes (comes 3 ∷ goes 1 ∷ []) (seats busy_mount))
    × IsTidy after_first 0
unfolding remove_client remove_from drop_client next_live_client next_live_from swap_live_client
    handle_client_live handle_client_disconnect is_member remove_first add remove get_by_id update
    lookup insert delete str_eq add_client add_body join_mount
Serves-refines_example =
    Serves-refines good_lib small_yaml 0
      (adds 3 3 refl
        (record {
          found = refl;
          room = omega arith;
          new = ground arith;
          fresh = refl;
          small = omega arith;
        })
        refl
        (removes 1 1 (1 ∷ 2 ∷ []) refl
          (record {
            found = refl;
            listed = refl;
            room = omega arith;
            space = omega arith;
            free = refl;
            entry = refl;
          })
          refl idle))
      busy-IsTidy

remove_client-seats_example : HasLeft 1 0 busy
unfolding lookup str_eq get_by_id
remove_client-seats_example =
    remove_client-seats 1 0 (1 ∷ 2 ∷ []) busy refl busy-IsTidy refl (omega arith) (omega arith) refl
      refl
