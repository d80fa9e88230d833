-- ===== src/Mount.antt =====
-- server/mount.go, and Mount.HandleData of server/icecast.go.
pub mod Laws
use icecast_proxy_go.Prelude.{
  ℕ, ◌==ℤ◌, Bool, List, [], ◌∷◌, Option, none, some, Str, bytes, if◌then◌else◌, Go, Outcome,
  state_of, done, panicked, blocked, ◌>>=◌, ◌>>◌, skip, panic, zoom,
}
use icecast_proxy_go.Config.{Yaml, create_shout_map}
use icecast_proxy_go.Container.{Container, new_container}
use icecast_proxy_go.Shout.{Shout, ShoutError, LibShout, connected, open_shout, close, send}
use icecast_proxy_go.Shout.Options.{new_shout}

-- The queue holds ClientIDs, the oldest first; `active` is none for a nil pointer.
pub record Mount : Type 0 where
  pub client_queue : List ℕ
  pub clients : Container
  pub active : Option ℕ
  pub mount : Str
  pub shout : Shout

-- FullQueue.Error
abbrev pub full_queue : Str
full_queue = bytes "Client queue exceeded, discarding client."

abbrev pub on_shout : {A : Type 0} → Go Shout A → Go Mount A
on_shout = zoom (λ m. m.shout) (λ s m. record m { shout = s })

module _ (lib : LibShout) (yaml : Yaml) where
  -- NewMount panics where CreateShoutMap does.
  unfoldable pub new_mount : {S : Type 0} → Str → Go S Mount
  unfolding create_shout_map new_shout new_container
  new_mount mount s = elim (create_shout_map yaml s) [
    | done options t ↦
        done
          (record {
            client_queue = [];
            clients = new_container;
            active = none;
            mount = mount;
            shout = state_of (new_shout lib options (record { calls = [] }));
          })
          t
    | panicked e t ↦ panicked e t
    | blocked t ↦ blocked t
  ]

module _ (lib : LibShout) where
  -- The second half of HandleData, on the error of Send.
  unfoldable pub after_send : Option ShoutError → Go Mount (Unit {0})
  unfolding close
  after_send none = skip
  after_send (some e) =
      if e.errno ==ℤ lib.err_insane
      then panic (bytes "We are insane.")
      else if e.errno ==ℤ lib.err_malloc
      then panic (bytes "Out of memory")
      else (do on_shout (close lib); skip)

  unfoldable pub send_data : Str → Go Mount (Unit {0})
  unfolding after_send send
  send_data payload = do err ← on_shout (send lib payload); after_send err

  unfoldable pub handle_data : Str → Go Mount (Unit {0})
  unfolding send_data connected close open_shout
  handle_data payload = do
    up ← on_shout (connected lib)
    if up then send_data payload else (do
      on_shout (close lib)
      err ← on_shout (open_shout lib)
      elim err [ none ↦ send_data payload | some e ↦ skip ])
