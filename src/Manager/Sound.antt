-- ===== src/Manager/Sound.antt =====
-- What holds in every state of the manager, and rules by which a computation keeps it.
pub mod Calls
pub mod Steps
pub mod Frees
pub mod Added
pub mod Cases
pub mod Returns
use icecast_proxy_go.Prelude.{
  ℕ, suc, ◌+◌, ◌≡◌, ◌≢◌, ◌<◌, ◌≤◌, refl, sym, ap, subst, ◌∙◌, ◌⊎◌, inl, inr, Bool, true, false,
  List, [], ◌∷◌, ◌++◌, Option, none, some, Str, arith, ◌==◌, ==_iff, if◌then◌else◌, Outcome,
  state_of, done, panicked, blocked, Bool-cases, ◌>>=◌, ◌>>◌, Option-cases, length, length-append,
  ltb, Preserves, zoom-Preserves, update, update_self, update_ne, update_cases, lookup,
  HasUniqueKeys, text_eq, Go, skip, modify,
}
use icecast_proxy_go.Config.{queue_limit}
use icecast_proxy_go.Handlers.{Handlers}
use icecast_proxy_go.Mount.{Mount}
use icecast_proxy_go.Mount.Laws.{IsGuarded}
use icecast_proxy_go.Shout.{LibShout, is_freed}
use icecast_proxy_go.World.{
  World, Manager, MetaPack, at_mount, on_handlers, on_manager, receiver_cap, collector_cap,
  meta_cap, data_cap, err_cap, send_meta, send_collector,
}

-- No channel holds more than its capacity.
abbrev pub IsCapped : World → Type 0
IsCapped w =
    (length w.manager.receiver ≤ receiver_cap)
    × (length w.manager.mount_collector ≤ collector_cap)
    × (length w.manager.meta_chan ≤ meta_cap)
    × (length w.data_chan ≤ data_cap)
    × (length w.err_chan ≤ err_cap)

-- A mount of the map has its key as its name, a live identifier, an address that was given out, and
-- a shout_t that was not freed.
pub record IsEntry (w : World) (name : Str) (m : ℕ) : Type 0 where
  pub named : (w.mount_at m).mount ≡ name
  pub live : (w.mount_at m).active ≢ none
  pub allocated : m < w.next_mount
  pub usable : is_freed (w.mount_at m).shout.calls ≡ false

-- Channels and queues within their bounds, connections by the rule for sending, one entry per name.
pub record IsSound (lib : LibShout) (w : World) : Type 0 where
  pub capped : IsCapped w
  pub guarded : (m : ℕ) → IsGuarded lib (w.mount_at m).shout.calls
  pub queued : (m : ℕ) → length (w.mount_at m).client_queue ≤ queue_limit
  pub unique : HasUniqueKeys w.manager.mounts
  pub entries : (name : Str) (m : ℕ) → lookup name w.manager.mounts ≡ some m → IsEntry w name m

-- However the computation ends, the state is sound.
abbrev pub Keeps : LibShout → {A : Type 0} → Go World A → Type 0
Keeps lib = Preserves (IsSound lib)

-- A change of a mount that keeps its name, a live identifier, the bound of its queue, the rule for
-- sending on its connection, and a shout_t that was not freed.
pub record IsMild (lib : LibShout) (t t' : Mount) : Type 0 where
  pub same_name : t'.mount ≡ t.mount
  pub still_guarded : IsGuarded lib t.shout.calls → IsGuarded lib t'.shout.calls
  pub still_live : t.active ≢ none → t'.active ≢ none
  pub still_queued : length t.client_queue ≤ queue_limit → length t'.client_queue ≤ queue_limit
  pub still_usable : is_freed t.shout.calls ≡ false → is_freed t'.shout.calls ≡ false

pub record IsMildly (lib : LibShout) {A : Type 0} (k : Go Mount A) : Type 0 where
  pub apply : (t : Mount) → IsMild lib t (state_of (k t))

-- One mount is changed mildly.
pub put-IsSound :
    {lib : LibShout} (m : ℕ) (t : Mount) (w : World)
    → IsMild lib (w.mount_at m) t
    → IsSound lib w
    → IsSound lib (record w { mount_at = update m t w.mount_at })
put-IsSound {lib} m t w mild s = record {
  capped = s.capped;
  guarded = λ j.
      update_cases (λ r. IsGuarded lib r.shout.calls) m j t w.mount_at
        (λ same. mild.still_guarded (s.guarded m)) (s.guarded j);
  queued = λ j.
      update_cases (λ r. length r.client_queue ≤ queue_limit) m j t w.mount_at
        (λ same. mild.still_queued (s.queued m)) (s.queued j);
  unique = s.unique;
  entries = λ name j e.
      let old = s.entries name j e in
      record {
        named =
            update_cases (λ r. r.mount ≡ name) m j t w.mount_at
              (λ same.
                mild.same_name ∙ subst (λ x. (w.mount_at x).mount ≡ name) (sym same) old.named)
              old.named;
        live =
            update_cases (λ r. r.active ≢ none) m j t w.mount_at
              (λ same.
                mild.still_live (subst (λ x. (w.mount_at x).active ≢ none) (sym same) old.live))
              old.live;
        allocated = old.allocated;
        usable =
            update_cases (λ r. is_freed r.shout.calls ≡ false) m j t w.mount_at
              (λ same.
                mild.still_usable
                  (subst (λ x. is_freed (w.mount_at x).shout.calls ≡ false) (sym same) old.usable))
              old.usable;
      };
}

pub at_mount-Keeps :
    {lib : LibShout} {A : Type 0} (m : ℕ) (k : Go Mount A)
    → IsMildly lib k
    → Keeps lib (at_mount m k)
at_mount-Keeps m k mildly =
    zoom-Preserves _ _ k λ w s. put-IsSound m _ w (mildly.apply (w.mount_at m)) s

-- A world that differs in what the invariant does not read, and in channels within their bounds.
pub same-IsSound :
    {lib : LibShout} (w w' : World)
    → IsSound lib w
    → w'.mount_at ≡ w.mount_at
    → w'.next_mount ≡ w.next_mount
    → w'.manager.mounts ≡ w.manager.mounts
    → IsCapped w'
    → IsSound lib w'
same-IsSound w w' s e n m c = record {
  capped = c;
  guarded = λ j. rw e (s.guarded j);
  queued = λ j. rw e (s.queued j);
  unique = rw m s.unique;
  entries = λ name j found.
      let old = s.entries name j (rw m at found) in
      record {
        named = rw e old.named;
        live = rw e old.live;
        allocated = rw n old.allocated;
        usable = rw e old.usable;
      };
}

pub on_handlers-Keeps : {lib : LibShout} (k : Go Handlers (Unit {0})) → Keeps lib (on_handlers k)
on_handlers-Keeps k = zoom-Preserves _ _ k λ w s. same-IsSound w _ s refl refl refl s.capped

pub send_meta-Keeps : {lib : LibShout} (pack : MetaPack) → Keeps lib (send_meta pack)
send_meta-Keeps {lib} pack = record {
  apply = λ w s. go w s (ltb (length w.manager.meta_chan) meta_cap) refl;
}
  where
    go :
        (w : World)
        → IsSound lib w
        → (b : Bool) → ltb (length w.manager.meta_chan) meta_cap ≡ b
        → IsSound lib (
            state_of (
              on_manager
                (λ m. elim b [
                  | true ↦ done tt (record m { meta_chan = m.meta_chan ++ pack ∷ [] })
                  | false ↦ blocked m
                ])
                w))
    go w s true e =
        same-IsSound w _ s refl refl refl
          (ground (arith, s.capped, length-append w.manager.meta_chan (pack ∷ [])))
    go w s false e = same-IsSound w _ s refl refl refl s.capped

pub send_collector-Keeps : {lib : LibShout} (mount : ℕ) → Keeps lib (send_collector mount)
send_collector-Keeps {lib} mount = record {
  apply = λ w s. go w s (ltb (length w.manager.mount_collector) collector_cap) refl;
}
  where
    go :
        (w : World)
        → IsSound lib w
        → (b : Bool) → ltb (length w.manager.mount_collector) collector_cap ≡ b
        → IsSound lib (
            state_of (
              on_manager
                (λ m. elim b [
                  | true ↦ done tt (record m { mount_collector = m.mount_collector ++ mount ∷ [] })
                  | false ↦ blocked m
                ])
                w))
    go w s true e =
        same-IsSound w _ s refl refl refl
          (ground (arith, s.capped, length-append w.manager.mount_collector (mount ∷ [])))
    go w s false e = same-IsSound w _ s refl refl refl s.capped
