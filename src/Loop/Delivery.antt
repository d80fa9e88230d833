-- ===== src/Loop/Delivery.antt =====
-- What the manager of server/icecast.go gets done: metadata that come in reach libshout, and the
-- channel of metadata runs empty.
use icecast_proxy_go.Prelude.{
  ℕ, ◌≡◌, refl, sym, ap, ◌∙◌, true, false, List, [], ◌∷◌, ◌++◌, Option, some, lookup, replicate,
  subst, done_of_IsDone, length, update, update_self, arith, Outcome, done, state_of, text_eq,
}
use icecast_proxy_go.ClientHash.{hash}
use icecast_proxy_go.Config.{Yaml}
use icecast_proxy_go.Container.{get_by_hash}
use icecast_proxy_go.Shout.{LibShout, Shout, ShoutError, send_metadata}
use icecast_proxy_go.World.{World, MetaPack}
use icecast_proxy_go.Manager.Serve.{on_meta}
use icecast_proxy_go.Manager.Serve.Metadata.{
  held, meta_chan_of, on_meta-meta_chan, on_meta-held, on_meta-sends,
}
use icecast_proxy_go.Manager.Sound.{IsSound, same-IsSound}
use icecast_proxy_go.Manager.Sound.Cases.{on_meta-Keeps}
use icecast_proxy_go.Manager.Sound.Returns.{on_meta-IsDone}
use icecast_proxy_go.Loop.Inputs.{up, run-cons, run-nil}
use icecast_proxy_go.Loop.{meta_arrives, wakes, selects, meta_case, running, serve, wake, step, run}

-- The channel of metadata holds these packets, and these are held back.
abbrev with_meta : List MetaPack → List (ℕ × MetaPack) → World → World
with_meta chan sleepers w = record w {
  manager = record (w.manager) { meta_chan = chan };
  sleepers = sleepers;
}

module _ (lib : LibShout) (yaml : Yaml) where
  arrive :
      (pack : MetaPack) (w : World)
      → w.manager.meta_chan ≡ []
      → step lib yaml (meta_arrives pack) w ≡ up (with_meta (pack ∷ []) w.sleepers w)
  unfolding step
  arrive pack w empty = rw empty

  select_meta :
      (pack : MetaPack) (rest : List MetaPack) (w w' : World)
      → w.manager.meta_chan ≡ pack ∷ rest
      → on_meta lib pack (with_meta rest w.sleepers w) ≡ done tt w'
      → step lib yaml (selects meta_case) w ≡ up w'
  unfolding step serve
  select_meta pack rest w w' waiting handled = rw waiting (rw handled)

  wake_one :
      (pack : MetaPack) (w : World)
      → w.sleepers ≡ (w.generation, pack) ∷ []
      → w.manager.meta_chan ≡ []
      → step lib yaml (wakes 0) w ≡ up (with_meta (pack ∷ []) [] w)
  unfolding step wake
  wake_one pack w asleep empty = ground (arith, asleep, empty)

  -- Metadata under the live client's hash, not seen before, come in while no others are under way.
  -- If a client is listed under that hash, then after the manager has taken them, their second has
  -- passed and the manager has taken them again, SendMetadata was called with them once on the
  -- mount's connection, whatever it answered; the client shows them, no other mount has changed,
  -- the manager runs, and nothing is under way.
  pub metadata_delivered :
      (pack : MetaPack) (m id client : ℕ) (w : World)
      → w.manager.meta_chan ≡ []
      → w.sleepers ≡ []
      → lookup (w.ids pack.id).mount w.manager.mounts ≡ some m
      → (w.mount_at m).active ≡ some id
      → hash (w.ids id) ≡ hash (w.ids pack.id)
      → get_by_hash w.ids (w.mount_at m).clients (hash (w.ids id)) ≡ some client
      → pack.seen ≡ false
      → (r : Option ShoutError) × (s : Shout) × (w' : World) × (send_metadata lib pack.payload
            (w.mount_at m).shout
          ≡ done r s)
        × (run lib yaml
              (record { world = w; status = running })
              (meta_arrives pack ∷ selects meta_case ∷ wakes 0 ∷ selects meta_case ∷ [])
            ≡ record { world = w'; status = running })
        × (w'.mount_at ≡ update m (record (w.mount_at m) { shout = s }) w.mount_at)
        × ((w'.clients client).metadata ≡ pack.payload)
        × (w'.manager.meta_chan ≡ [])
        × (w'.sleepers ≡ [])
  metadata_delivered pack m id client w empty awake found live same listed fresh =
      let sent = record pack { seen = true } in
      let first = held pack client (with_meta [] w.sleepers w) in
      let asleep = with_meta (sent ∷ []) [] first in
      let (r, s, e, sends) =
        on_meta-sends lib sent m id client (with_meta [] [] asleep) found live same listed refl in
      let last : World = record (with_meta [] [] asleep) {
        clients =
            update client (record (first.clients client) { metadata = pack.payload }) first.clients;
        mount_at = update m (record (w.mount_at m) { shout = s }) w.mount_at;
      } in
      (
        r,
        s,
        last,
        e,
        run-cons lib yaml _ _ _ _ (arrive pack w empty)
            ∙ run-cons lib yaml _ _ _ _ (
                select_meta pack [] (with_meta (pack ∷ []) w.sleepers w) first refl (
                  on_meta-held lib pack m id client (with_meta [] w.sleepers w) found live same
                    listed fresh))
            ∙ run-cons lib yaml _ _ _ _
                (wake_one sent first (ap (λ l. l ++ (w.generation, sent) ∷ []) awake) refl)
            ∙ run-cons lib yaml _ _ _ _ (select_meta sent [] asleep last refl sends)
            ∙ run-nil lib yaml (up last),
        refl,
        simp update_self,
        refl,
        refl,
      )

  popped-IsSound :
      (pack : MetaPack) (rest : List MetaPack) (w : World)
      → IsSound lib w
      → w.manager.meta_chan ≡ pack ∷ rest
      → IsSound lib (with_meta rest w.sleepers w)
  popped-IsSound pack rest w s e = same-IsSound w _ s refl refl refl (ground (arith, s.capped, e))

  -- In a sound state, if nothing else comes in while the manager takes as many metadata packets as
  -- its channel holds, then it goes on running, the channel is empty, and the state is sound: no
  -- packet makes it panic or wait.
  pub metadata_drained :
      (chan : List MetaPack) (w : World)
      → IsSound lib w
      → w.manager.meta_chan ≡ chan
      → (w' : World) × (run lib yaml
            (record { world = w; status = running })
            (replicate (length chan) (selects meta_case))
          ≡ record { world = w'; status = running })
        × (w'.manager.meta_chan ≡ [])
        × IsSound lib w'
  metadata_drained [] w s e = (w, run-nil lib yaml (up w), e, s)
  metadata_drained (pack ∷ rest) w s e =
      let popped = with_meta rest w.sleepers w in
      let sound = popped-IsSound pack rest w s e in
      let (u, v, handled) =
        done_of_IsDone (on_meta lib pack popped) (on_meta-IsDone lib pack popped sound) in
      let (w', runs, empty, sound') =
        metadata_drained rest v
          (subst (λ (o : Outcome World (Unit {0})). IsSound lib (state_of o)) handled
            ((on_meta-Keeps lib pack).apply popped sound))
          (ap meta_chan_of (sym handled) ∙ on_meta-meta_chan lib pack popped) in
      (
        w',
        run-cons lib yaml (selects meta_case) _ w v (select_meta pack rest w v e handled) ∙ runs,
        empty,
        sound',
      )
