-- ===== src/Mount/Laws.antt =====
-- HandleData: the one function that opens, closes and writes the connection of a mount.
use icecast_proxy_go.Prelude.{
  ℕ, pos, ◌==ℤ◌, ==ℤ_iff, ◌≡◌, ◌⊎◌, inl, inr, Bool, true, false, List, [], ◌∷◌, Str, bytes, arith,
  state_of, done, panicked,
}
use icecast_proxy_go.Shout.{Call, LibShout, is_freed, shout_send, shout_open, shout_close}
use icecast_proxy_go.Mount.{Mount, handle_data, send_data}

abbrev pub is_connected : LibShout → List Call → Bool
is_connected lib calls = lib.get_connected calls ==ℤ lib.err_connected

-- The last call opened the connection.
abbrev pub JustOpened : LibShout → List Call → Type 0
JustOpened lib (shout_open ∷ calls) = (lib.result calls shout_open ==ℤ pos 0) ≡ true
JustOpened lib _ = ⊥

-- Data were sent only where the library said that it was connected, or had just opened.
abbrev pub IsGuarded : LibShout → List Call → Type 0
IsGuarded lib [] = Unit {0}
IsGuarded lib (shout_send d ∷ calls) =
    ((is_connected lib calls ≡ true) ⊎ JustOpened lib calls) × IsGuarded lib calls
IsGuarded lib (_ ∷ calls) = IsGuarded lib calls

send_data-IsGuarded :
    (lib : LibShout) (payload : Str) (m : Mount)
    → ((is_connected lib m.shout.calls ≡ true) ⊎ JustOpened lib m.shout.calls)
    → IsGuarded lib m.shout.calls
    → IsGuarded lib (state_of (send_data lib payload m)).shout.calls
unfolding send_data
send_data-IsGuarded lib [] m c g = g
send_data-IsGuarded lib (b ∷ d) m c g = ground arith

-- Whatever the library answers, HandleData sends only on a connection that was checked or that was
-- opened with success just before, also where it panics, if all sends before did.
pub handle_data-IsGuarded :
    (lib : LibShout) (payload : Str) (m : Mount)
    → IsGuarded lib m.shout.calls
    → IsGuarded lib (state_of (handle_data lib payload m)).shout.calls
unfolding handle_data
handle_data-IsGuarded lib [] m g = ground arith
handle_data-IsGuarded lib (b ∷ d) m g = ground arith

-- HandleData frees nothing.
pub handle_data-is_freed :
    (lib : LibShout) (payload : Str) (m : Mount)
    → is_freed m.shout.calls ≡ false
    → is_freed (state_of (handle_data lib payload m)).shout.calls ≡ false
unfolding handle_data
handle_data-is_freed lib [] m f = ground arith
handle_data-is_freed lib (b ∷ d) m f = ground arith

-- The connection is up, or is opened with success: the calls that lead there.
abbrev pub IsUp : LibShout → List Call → List Call → Type 0
IsUp lib before calls =
    ((is_connected lib before ≡ true) × (calls ≡ before))
    ⊎ ((is_connected lib before ≡ false)
        × (lib.result (shout_close ∷ before) shout_open ≡ pos 0)
        × (calls ≡ shout_open ∷ shout_close ∷ before))

-- On a connection that is up, or comes up, the data are sent, and that is all.
pub handle_data_sends :
    (lib : LibShout) (b : ℕ) (rest : Str) (calls : List Call) (m : Mount)
    → IsUp lib m.shout.calls calls
    → lib.result calls (shout_send (b ∷ rest)) ≡ lib.err_success
    → handle_data lib (b ∷ rest) m
      ≡ done tt (record m { shout = record { calls = shout_send (b ∷ rest) ∷ calls } })
unfolding handle_data
handle_data_sends lib b rest calls m (inl (live, e)) sent =
    ground
      (arith, live, e, sent, ==ℤ_iff (lib.result calls (shout_send (b ∷ rest))) lib.err_success)
handle_data_sends lib b rest calls m (inr (down, opens, e)) sent = ground (
  arith,
  down,
  opens,
  e,
  sent,
  ==ℤ_iff (lib.result (shout_close ∷ m.shout.calls) shout_open) (pos 0),
  ==ℤ_iff (lib.result calls (shout_send (b ∷ rest))) lib.err_success,
)

-- HandleData changes nothing of the mount but its connection.
pub handle_data_frame :
    (lib : LibShout) (payload : Str) (m : Mount)
    → record (state_of (handle_data lib payload m)) { shout = m.shout } ≡ m
unfolding handle_data
handle_data_frame lib [] m = ground arith
handle_data_frame lib (b ∷ d) m = ground arith

-- With data, HandleData panics only where the library's error after Send is ERR_INSANE or
-- ERR_MALLOC.
pub handle_data_panics :
    (lib : LibShout) (b : ℕ) (rest e : Str) (m t : Mount)
    → handle_data lib (b ∷ rest) m ≡ panicked e t
    → (lib.errno t.shout.calls ≡ lib.err_insane) ⊎ (lib.errno t.shout.calls ≡ lib.err_malloc)
unfolding handle_data
handle_data_panics lib b rest e m t h =
    let sent = shout_send (b ∷ rest) ∷ m.shout.calls in
    let reopened = shout_send (b ∷ rest) ∷ shout_open ∷ shout_close ∷ m.shout.calls in
    ground (
      arith,
      ==ℤ_iff (lib.errno sent) lib.err_insane,
      ==ℤ_iff (lib.errno sent) lib.err_malloc,
      ==ℤ_iff (lib.errno reopened) lib.err_insane,
      ==ℤ_iff (lib.errno reopened) lib.err_malloc,
    )

-- A packet without data for a live connection is a panic, whatever the library is.
pub handle_data_empty :
    (lib : LibShout) (m : Mount)
    → is_connected lib m.shout.calls ≡ true
    → handle_data lib [] m ≡ panicked (bytes "index out of range") m
unfolding handle_data
handle_data_empty lib m c = ground arith
