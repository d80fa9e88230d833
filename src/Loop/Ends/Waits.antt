-- ===== src/Loop/Ends/Waits.antt =====
-- Rules for what waits, and for what.
use icecast_proxy_go.Prelude.{
  ℕ, ◌≡◌, refl, Bool, true, false, [], ◌∷◌, ◌++◌, Option, none, some, Str, arith, if◌then◌else◌,
  inl, inr, length, ltb, lookup, insert, text_eq, Go, Outcome, done, panicked, blocked, ◌>>=◌, ◌>>◌,
  skip, gets, panic, modify, return, zoom,
}
use icecast_proxy_go.Handlers.{
  Handlers, lock, unlock, drop_entry, is_member, remove_first, handle_client_connect,
  handle_client_disconnect, handle_client_live,
}
use icecast_proxy_go.Mount.{Mount, on_shout}
use icecast_proxy_go.Shout.{Shout}
use icecast_proxy_go.World.{
  World, MetaPack, at_mount, on_handlers, on_manager, send_meta, send_collector, meta_cap,
  collector_cap,
}
use icecast_proxy_go.Loop.Ends.{IsStuck, WaitsIn, WaitsOnly, NeverWaits, Reasoned}

module _ {S : Type 0} {P : S → Type 0} where
  pub bind-WaitsOnly :
      {A B : Type 0} (k : Go S A) (f : A → Go S B)
      → WaitsOnly P k
      → ((a : A) → WaitsOnly P (f a))
      → WaitsOnly P (k >>= f)
  bind-WaitsOnly {A} {B} k f hk hf = record { apply = λ s. by_outcome s (k s) (hk.apply s) }
    where
      by_outcome : (s : S) (o : Outcome S A) → WaitsIn P o → WaitsIn P (((λ _. o) >>= f) s)
      by_outcome s (done a t) h = (hf a).apply t
      by_outcome s (panicked e t) h = h
      by_outcome s (blocked t) h = h

  pub if-WaitsOnly :
      {A : Type 0} (c : Bool) (k l : Go S A)
      → WaitsOnly P k
      → WaitsOnly P l
      → WaitsOnly P (if c then k else l)
  if-WaitsOnly true k l hk hl = hk
  if-WaitsOnly false k l hk hl = hl

  pub bool-WaitsOnly :
      {A : Type 0} (c : Bool) (k l : Go S A)
      → WaitsOnly P k
      → WaitsOnly P l
      → WaitsOnly P (elim c [ true ↦ k | false ↦ l ])
  bool-WaitsOnly true k l hk hl = hk
  bool-WaitsOnly false k l hk hl = hl

  pub option-WaitsOnly :
      {A B : Type 0} (o : Option A) (k : Go S B) (f : A → Go S B)
      → WaitsOnly P k
      → ((a : A) → WaitsOnly P (f a))
      → WaitsOnly P (elim o [ none ↦ k | some a ↦ f a ])
  option-WaitsOnly none k f hk hf = hk
  option-WaitsOnly (some a) k f hk hf = hf a

  pub skip-WaitsOnly : WaitsOnly P skip
  skip-WaitsOnly = record { apply = λ s. tt }

  pub return-WaitsOnly : {A : Type 0} (a : A) → WaitsOnly P (return a)
  return-WaitsOnly a = record { apply = λ s. tt }

  pub gets-WaitsOnly : {A : Type 0} (f : S → A) → WaitsOnly P (gets f)
  gets-WaitsOnly f = record { apply = λ s. tt }

  pub panic-WaitsOnly : {A : Type 0} (e : Str) → WaitsOnly {A = A} P (panic e)
  panic-WaitsOnly e = record { apply = λ s. tt }

  pub modify-WaitsOnly : (f : S → S) → WaitsOnly P (modify f)
  modify-WaitsOnly f = record { apply = λ s. tt }

  -- A computation on a part of the state, where a part that waits makes the whole so.
  pub zoom-WaitsOnly :
      {T A : Type 0} {Q : T → Type 0} (get : S → T) (put : T → S → S) (k : Go T A)
      → WaitsOnly Q k
      → ((t : T) (s : S) → Q t → P (put t s))
      → WaitsOnly P (zoom get put k)
  zoom-WaitsOnly {T} {A} {Q} get put k hk q = record {
    apply = λ s. by_outcome s (k (get s)) (hk.apply (get s));
  }
    where
      by_outcome : (s : S) (o : Outcome T A) → WaitsIn Q o → WaitsIn P (zoom get put (λ _. o) s)
      by_outcome s (done a t) h = tt
      by_outcome s (panicked e t) h = tt
      by_outcome s (blocked t) h = q t s h

-- What never waits on a part of the state does not wait on the whole.
pub on_shout-WaitsOnly :
    {A : Type 0} {P : Mount → Type 0} (k : Go Shout A) → NeverWaits k → WaitsOnly P (on_shout k)
on_shout-WaitsOnly k h = zoom-WaitsOnly _ _ k h λ t s e. absurd e

pub at_mount-WaitsOnly :
    {A : Type 0} {P : World → Type 0} (m : ℕ) (k : Go Mount A)
    → NeverWaits k
    → WaitsOnly P (at_mount m k)
at_mount-WaitsOnly m k h = zoom-WaitsOnly _ _ k h λ t w e. absurd e

-- The rules for `search`.
pub ruleset waiting = (
  bind-WaitsOnly, if-WaitsOnly, bool-WaitsOnly, option-WaitsOnly, skip-WaitsOnly, return-WaitsOnly,
  gets-WaitsOnly, panic-WaitsOnly, modify-WaitsOnly, on_shout-WaitsOnly, at_mount-WaitsOnly,
)

pub send_meta-Reasoned : (pack : MetaPack) → Reasoned (send_meta pack)
send_meta-Reasoned pack = record {
  apply = λ w. by_room w (ltb (length w.manager.meta_chan) meta_cap) refl;
}
  where
    by_room :
        (w : World) (room : Bool)
        → ltb (length w.manager.meta_chan) meta_cap ≡ room
        → WaitsIn IsStuck (
            on_manager
              (λ m. elim room [
                | true ↦ done tt (record m { meta_chan = m.meta_chan ++ pack ∷ [] })
                | false ↦ blocked m
              ])
              w)
    by_room w true e = tt
    by_room w false e = inr (inl (ground arith))

pub send_collector-Reasoned : (mount : ℕ) → Reasoned (send_collector mount)
send_collector-Reasoned mount = record {
  apply = λ w. by_room w (ltb (length w.manager.mount_collector) collector_cap) refl;
}
  where
    by_room :
        (w : World) (room : Bool)
        → ltb (length w.manager.mount_collector) collector_cap ≡ room
        → WaitsIn IsStuck (
            on_manager
              (λ m. elim room [
                | true ↦ done tt (record m { mount_collector = m.mount_collector ++ mount ∷ [] })
                | false ↦ blocked m
              ])
              w)
    by_room w true e = tt
    by_room w false e = inr (inr (ground arith))

-- Where a handler waits, the table is locked.
abbrev IsLocked : Handlers → Type 0
IsLocked h = h.locked ≡ true

lock-WaitsOnly : WaitsOnly IsLocked lock
lock-WaitsOnly = record { apply = λ h. by_lock h h.locked refl }
  where
    by_lock :
        (h : Handlers) (held : Bool)
        → h.locked ≡ held
        → WaitsIn IsLocked (elim held as (λ _. Outcome Handlers (Unit {0})) [
          | true ↦ blocked h
          | false ↦ done tt (record h { locked = true })
        ])
    by_lock h true e = e
    by_lock h false e = tt

on_handlers-Reasoned :
    (k : Go Handlers (Unit {0})) → WaitsOnly IsLocked k → Reasoned (on_handlers k)
on_handlers-Reasoned k h = zoom-WaitsOnly _ _ k h λ t w e. inl e

pub handle_client_connect-Reasoned :
    (mount : Str) (client : ℕ) → Reasoned (on_handlers (handle_client_connect mount client))
unfolding handle_client_connect
handle_client_connect-Reasoned mount client =
    on_handlers-Reasoned (handle_client_connect mount client)
      (bind-WaitsOnly lock _ lock-WaitsOnly λ _. search waiting depth 10)

pub handle_client_disconnect-Reasoned :
    (mount : Str) (client : ℕ) → Reasoned (on_handlers (handle_client_disconnect mount client))
unfolding handle_client_disconnect
handle_client_disconnect-Reasoned mount client =
    on_handlers-Reasoned (handle_client_disconnect mount client) (
      bind-WaitsOnly lock _ lock-WaitsOnly λ _.
        bind-WaitsOnly _ _ (gets-WaitsOnly (λ s. lookup mount s.handler_mounts)) λ found.
          option-WaitsOnly found skip
            (λ clients. do
              modify (λ s. record s {
                handler_mounts = drop_entry mount client clients s.handler_mounts;
              })
              unlock)
            skip-WaitsOnly λ clients. search waiting depth 6)

-- HandleClientLive takes no lock.
pub handle_client_live-Reasoned :
    (mount : Str) (client : ℕ) → Reasoned (on_handlers (handle_client_live mount client))
unfolding handle_client_live
handle_client_live-Reasoned mount client = on_handlers-Reasoned (handle_client_live mount client) (
    bind-WaitsOnly _ _ (gets-WaitsOnly (λ s. lookup mount s.handler_mounts)) λ found.
      option-WaitsOnly found skip
        (λ clients.
          if is_member client clients
          then modify (λ s. record s {
            handler_mounts = insert mount (client ∷ remove_first client clients) s.handler_mounts;
          })
          else skip)
        skip-WaitsOnly λ clients. search waiting depth 6)

-- The rules for `search` on the manager.
pub ruleset reasons = (
  waiting, send_meta-Reasoned, send_collector-Reasoned, handle_client_connect-Reasoned,
  handle_client_disconnect-Reasoned, handle_client_live-Reasoned,
)
