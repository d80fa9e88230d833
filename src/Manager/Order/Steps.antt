-- ===== src/Manager/Order/Steps.antt =====
-- Rules by which a computation of the manager keeps the order.
use icecast_proxy_go.Prelude.{
  All, ℕ, ◌≡◌, refl, ap, fun_ext, ◌∙◌, ◌⊎◌, Bool, true, false, List, ◌++◌, Option, none, some, Str,
  arith, ◌==◌, if◌then◌else◌, Bool-cases, inl, inr, Go, Outcome, state_of, done, panicked, blocked,
  modify, update, modify-Preserves, zoom-Preserves, state_of-zoom, preserving,
}
use icecast_proxy_go.Handlers.{Handlers}
use icecast_proxy_go.Mount.{Mount, on_shout}
use icecast_proxy_go.Shout.{Shout}
use icecast_proxy_go.World.{
  World, Manager, MetaPack, at_mount, on_handlers, on_manager, id_of, send_meta, send_collector,
  close_conn,
}
use icecast_proxy_go.Manager.Serve.{set_metadata}
use icecast_proxy_go.Manager.Order.{
  IsProper, IsUnknown, put-IsOrderly, roster, rosters, InOrder, KeepsOrder, same-InOrder,
  rosters-update, update_same,
}

module _ {later : List ℕ} where
  -- A change of a world that touches no roster, no owner and not the channel of clients.
  pub modify-KeepsOrder :
      (f : World → World)
      → ((w : World) → rosters (f w) ≡ rosters w)
      → ((w : World) → id_of (f w) ≡ id_of w)
      → ((w : World) → (f w).manager.receiver ≡ w.manager.receiver)
      → KeepsOrder later (modify f)
  modify-KeepsOrder f r o c =
      modify-Preserves f λ w s. same-InOrder later w (f w) (r w) (o w) (c w) s

  pub close_conn-KeepsOrder : (client : ℕ) → KeepsOrder later (close_conn client)
  close_conn-KeepsOrder client = modify-KeepsOrder _ (λ w. refl) (λ w. refl) (λ w. refl)

  pub set_metadata-KeepsOrder :
      (client : ℕ) (meta : Str) → KeepsOrder later (set_metadata client meta)
  unfolding update
  set_metadata-KeepsOrder client meta =
      modify-KeepsOrder _ (λ w. refl) (λ w. fun_ext λ j. choose w j (Bool-cases (j == client)))
        (λ w. refl)
    where
      choose :
          (w : World) (j : ℕ)
          → (((j == client) ≡ true) ⊎ ((j == client) ≡ false))
          → (if j == client
              then record (w.clients client) { metadata = meta }
              else w.clients j).client_id
            ≡ id_of w j
      choose w j (inl hit) = rw hit (ap (id_of w) (ground (arith, hit)))
      choose w j (inr miss) = rw miss

  pub on_handlers-KeepsOrder : (k : Go Handlers (Unit {0})) → KeepsOrder later (on_handlers k)
  on_handlers-KeepsOrder k = zoom-Preserves _ _ k λ w s. s

  pub on_manager-KeepsOrder :
      (k : Go Manager (Unit {0}))
      → ((r : Manager) → (state_of (k r)).receiver ≡ r.receiver)
      → KeepsOrder later (on_manager k)
  on_manager-KeepsOrder k same = zoom-Preserves _ _ k λ w s.
      same-InOrder later w (record w { manager = state_of (k w.manager) }) refl refl
        (same w.manager) s

  pub send_meta-KeepsOrder : (pack : MetaPack) → KeepsOrder later (send_meta pack)
  send_meta-KeepsOrder pack = on_manager-KeepsOrder _ λ r. ground arith

  pub send_collector-KeepsOrder : (mount : ℕ) → KeepsOrder later (send_collector mount)
  send_collector-KeepsOrder mount = on_manager-KeepsOrder _ λ r. ground arith

  -- A computation on a mount that leaves its roster.
  pub at_mount-KeepsOrder :
      {A : Type 0} (m : ℕ) (k : Go Mount A)
      → ((t : Mount) → roster (state_of (k t)) ≡ roster t)
      → KeepsOrder later (at_mount m k)
  at_mount-KeepsOrder m k same = zoom-Preserves _ _ k λ w s.
      let t = state_of (k (w.mount_at m)) in
      same-InOrder later w (record w { mount_at = update m t w.mount_at })
        (rosters-update m t w.mount_at ∙ update_same m (roster t) (rosters w) (same (w.mount_at m)))
        refl refl s

  pub on_shout-KeepsOrder :
      {A : Type 0} (m : ℕ) (k : Go Shout A) → KeepsOrder later (at_mount m (on_shout k))
  on_shout-KeepsOrder m k =
      at_mount-KeepsOrder m (on_shout k)
        λ t. ap roster (state_of-zoom (λ m. m.shout) (λ s m. record m { shout = s }) k t)

-- The rules for `search`.
pub ruleset ordering = (
  preserving, close_conn-KeepsOrder, set_metadata-KeepsOrder, on_handlers-KeepsOrder,
  send_meta-KeepsOrder, send_collector-KeepsOrder, on_shout-KeepsOrder,
)

-- One mount is changed.
pub put-InOrder :
    (later : List ℕ) (w : World) (m : ℕ) (t : Mount)
    → IsProper (id_of w) (roster t)
    → All (λ c. IsUnknown (id_of w c) (roster t)) (w.manager.receiver ++ later)
    → InOrder later w
    → InOrder later (record w { mount_at = update m t w.mount_at })
put-InOrder later w m t p u s =
    rw (rosters-update m t w.mount_at)
      (put-IsOrderly m (roster t) (rosters w) (id_of w) (w.manager.receiver ++ later) p u s)
