-- ===== src/Tests/Parts.antt =====
-- The theorems on the smaller parts at concrete inputs.
use icecast_proxy_go.Prelude.{
  ◌≡◌, refl, true, [], some, bytes, str_eq, lookup, text_eq, nat_eq, blocked, ◌>>◌,
}
use icecast_proxy_go.Handlers.{handle_client_connect, handle_client_disconnect}
use icecast_proxy_go.Shout.{shout_set_audio_info}
use icecast_proxy_go.Shout.Options.{option_call}
use icecast_proxy_go.Samples.{good_lib, busy}
use icecast_proxy_go.Handlers.Laws.{disconnect_deadlocks}
use icecast_proxy_go.Shout.Laws.{option_call_unnamed}

disconnect_deadlocks_example :
    (do handle_client_disconnect (bytes "/x") 1; handle_client_connect (bytes "/main") 3)
      busy.handlers
    ≡ blocked (record busy.handlers { locked = true })
unfolding lookup str_eq
disconnect_deadlocks_example =
    disconnect_deadlocks (bytes "/x") (bytes "/main") 1 3 busy.handlers refl refl

option_call_unnamed_example :
    option_call good_lib (bytes "bitrate") (bytes "192")
    ≡ some (shout_set_audio_info [] (bytes "192"))
unfolding str_eq
option_call_unnamed_example = option_call_unnamed good_lib (bytes "bitrate") (bytes "192") refl refl
