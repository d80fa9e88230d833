-- ===== src/Manager/Order/Lives.antt =====
-- NextLiveClient and SwapLiveClient keep the order.
use icecast_proxy_go.Prelude.{
  skip-Preserves, ℕ, ◌≡◌, ◌≢◌, refl, sym, ap, subst, false, List, [], ◌∷◌, ◌++◌, Option, none, some,
  All, All-imp, arith, ◌==◌, ==_iff, Bool-cases, Option-cases, inl, inr, nat_eq, Outcome, state_of,
  ◌>>=◌, ◌>>◌, gets, update, update_self, text_eq,
}
use icecast_proxy_go.Container.{get_by_id}
use icecast_proxy_go.Handlers.{handle_client_live, handle_client_unlive}
use icecast_proxy_go.Mount.{Mount}
use icecast_proxy_go.World.{World, on_handlers, id_of, mount_name, send_meta}
use icecast_proxy_go.Manager.{is_active}
use icecast_proxy_go.Manager.Live.{
  old_live_client, unlive, swap_live_client, next_live_from, next_live_client,
}
use icecast_proxy_go.Manager.Live.Laws.{with_queue, next_live_from-stale, next_live_from-hit}
use icecast_proxy_go.Manager.Seats.{Distinct, line_from}
use icecast_proxy_go.Manager.Seats.Joins.{queue_of_line}
use icecast_proxy_go.Manager.Order.{roster, IsUnknown, InOrder, KeepsOrder}
use icecast_proxy_go.Manager.Order.Steps.{on_handlers-KeepsOrder, ordering, put-InOrder}

unlive-KeepsOrder : {later : List ℕ} (old : Option ℕ) → KeepsOrder later (unlive old)
unlive-KeepsOrder none = skip-Preserves
unlive-KeepsOrder (some client) = on_handlers-KeepsOrder (handle_client_unlive client)

-- SwapLiveClient behind the write of the live identifier.
announce-KeepsOrder :
    {later : List ℕ} (client id : ℕ) (old : Option ℕ)
    → KeepsOrder later (do
      unlive old
      name ← gets (λ w. mount_name w client)
      on_handlers (handle_client_live name client)
      metadata ← gets (λ w. (w.clients client).metadata)
      send_meta (record { payload = metadata; id = id; seen = false }))
announce-KeepsOrder client id old = search (ordering, unlive-KeepsOrder) depth 18

Distinct-queue :
    (active : Option ℕ) (queue : List ℕ) → Distinct (line_from active queue) → Distinct queue
Distinct-queue none queue h = h
Distinct-queue (some live) queue h = h.1

swap-InOrder :
    (later : List ℕ) (m client : ℕ) (w : World)
    → All (λ y. id_of w client ≢ y) (w.mount_at m).client_queue
    → All (λ c. id_of w c ≢ id_of w client) (w.manager.receiver ++ later)
    → InOrder later w
    → InOrder later (state_of (swap_live_client m client w))
unfolding swap_live_client
swap-InOrder later m client w behind others s =
    elim (Bool-cases (is_active (w.mount_at m).active (id_of w client))) [
      | inl live ↦ rw live s
      | inr other ↦ rw other (
          (announce-KeepsOrder client (id_of w client) (old_live_client (w.mount_at m))).apply
            (record w { mount_at = update m t w.mount_at })
            (put-InOrder later w m t
              (record {
                keyed = (s.proper m).keyed;
                owned = (s.proper m).owned;
                lined = (
                  behind,
                  Distinct-queue (w.mount_at m).active (w.mount_at m).client_queue
                      (s.proper m).lined,
                );
              })
              (still_unknown (w.manager.receiver ++ later) others (s.unknown m)) s))
    ]
  where
    t : Mount
    t = record (w.mount_at m) { active = some (id_of w client) }

    still_unknown :
        (out : List ℕ)
        → All (λ c. id_of w c ≢ id_of w client) out
        → All (λ c. IsUnknown (id_of w c) (roster (w.mount_at m))) out
        → All (λ c. IsUnknown (id_of w c) (roster t)) out
    still_unknown [] h k = tt
    still_unknown (c ∷ out) h k = (
      (
        (
          h.0,
          queue_of_line (λ y. id_of w c ≢ y) (w.mount_at m).active (w.mount_at m).client_queue
              k.0.0,
        ),
        k.0.1,
      ),
      still_unknown out h.1 k.1,
    )

-- The queue without its first identifier.
pop-InOrder :
    (later : List ℕ) (m id : ℕ) (queue : List ℕ) (w : World)
    → (w.mount_at m).client_queue ≡ id ∷ queue
    → InOrder later w
    → InOrder later (with_queue m queue w)
pop-InOrder later m id queue w e s =
    put-InOrder later w m (record (w.mount_at m) { client_queue = queue })
      (record {
        keyed = (s.proper m).keyed;
        owned = (s.proper m).owned;
        lined =
            popped (w.mount_at m).active
              (subst (λ q. Distinct (line_from (w.mount_at m).active q)) e (s.proper m).lined);
      })
      (All-imp (λ c. IsUnknown (id_of w c) (roster (w.mount_at m)))
        (λ c. IsUnknown (id_of w c) (roster (record (w.mount_at m) { client_queue = queue })))
        (λ c u. (
          shorter (λ y. id_of w c ≢ y) (w.mount_at m).active
              (subst (λ q. All (λ y. id_of w c ≢ y) (line_from (w.mount_at m).active q)) e u.0),
          u.1,
        ))
        (w.manager.receiver ++ later) (s.unknown m))
      s
  where
    popped :
        (active : Option ℕ)
        → Distinct (line_from active (id ∷ queue))
        → Distinct (line_from active queue)
    popped none h = h.1
    popped (some live) h = (h.0.1, h.1.1)

    shorter :
        (P : ℕ → Type 0) (active : Option ℕ)
        → All P (line_from active (id ∷ queue))
        → All P (line_from active queue)
    shorter P none h = h.1
    shorter P (some live) h = (h.0, h.1.1)

next_live_from-InOrder :
    (later : List ℕ) (m : ℕ) (queue : List ℕ) (w : World)
    → (w.mount_at m).client_queue ≡ queue
    → InOrder later w
    → InOrder later (state_of (next_live_from m queue w))
unfolding next_live_from
next_live_from-InOrder later m [] w e s = s
next_live_from-InOrder later m (id ∷ queue) w e s =
    let w' = with_queue m queue w in
    let s' = pop-InOrder later m id queue w e s in
    let e' : (w'.mount_at m).client_queue ≡ queue =
      ap (λ t. t.client_queue) (update_self m _ w.mount_at) in
    let line : Distinct (id ∷ queue) =
      subst Distinct e
        (Distinct-queue (w.mount_at m).active (w.mount_at m).client_queue (s.proper m).lined) in
    let later_on = next_live_from-InOrder later m queue w' e' s' in
    elim (Option-cases (get_by_id (w.mount_at m).clients id)) [
      | inl missing ↦
          subst (λ (o : Outcome World (Unit {0})). InOrder later (state_of o))
            (sym (next_live_from-stale m id queue w (inl missing))) later_on
      | inr (client, found) ↦ elim (Bool-cases (id_of w client == id)) [
        | inr other ↦
            subst (λ (o : Outcome World (Unit {0})). InOrder later (state_of o))
              (sym (
                next_live_from-stale m id queue w
                  (inr (client, found, λ q. ground (arith, other, q)))))
              later_on
        | inl same ↦
            subst (λ (o : Outcome World (Unit {0})). InOrder later (state_of o))
              (sym (next_live_from-hit m id client queue w found ((==_iff _ id).0 same)))
              (swap-InOrder later m client w'
                (subst (All (λ y. id_of w client ≢ y)) (sym e')
                  (subst (λ i. All (λ y. i ≢ y) queue) (sym ((==_iff _ id).0 same)) line.0))
                (All-imp (λ c. IsUnknown (id_of w c) (roster (w.mount_at m)))
                  (λ c. id_of w c ≢ id_of w client)
                  (λ c u.
                    subst (λ i. id_of w c ≢ i) (sym ((==_iff _ id).0 same))
                      (subst (All (λ y. id_of w c ≢ y)) e (
                        queue_of_line (λ y. id_of w c ≢ y) (w.mount_at m).active
                          (w.mount_at m).client_queue u.0)).0)
                  (w.manager.receiver ++ later) (s.unknown m))
                s')
      ]
    ]

pub next_live_client-KeepsOrder : {later : List ℕ} (m : ℕ) → KeepsOrder later (next_live_client m)
unfolding next_live_client
next_live_client-KeepsOrder {later} m = record {
  apply = λ w s. next_live_from-InOrder later m (w.mount_at m).client_queue w refl s;
}
