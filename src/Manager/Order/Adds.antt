-- ===== src/Manager/Order/Adds.antt =====
-- AddClient keeps the order, for a client that was still to come.
use mathlib.Core.List.{append-nil}
use icecast_proxy_go.Prelude.{
  bind-Preserves, gets-Preserves, return-Preserves, skip-Preserves, of_outcome, of_recover, ℕ, ◌≡◌,
  ◌≢◌, refl, sym, ap, subst, ◌∙◌, inl, inr, Bool-cases, false, Option-cases, List, [], ◌∷◌, ◌++◌,
  Option, none, some, Str, map, All, All-append, arith, ltb, length, lookup, text_eq, nat_eq,
  insert-HasUniqueKeys, state_of, panicked, ◌>>=◌, ◌>>◌, >>=-done, skip, gets, return, recover,
}
use icecast_proxy_go.ClientHash.{hash}
use icecast_proxy_go.Config.{Yaml, queue_limit}
use icecast_proxy_go.Container.{new_container, get_by_id, add}
use icecast_proxy_go.Container.Laws.{get_by_id-add}
use icecast_proxy_go.Mount.{Mount, on_shout, new_mount, full_queue}
use icecast_proxy_go.Shout.{LibShout}
use icecast_proxy_go.Shout.Options.{apply_options}
use icecast_proxy_go.World.{World, at_mount, send_meta, id_of, mount_name}
use icecast_proxy_go.Manager.Add.{
  format_of, mount_options, finish_mount, place_mount, open_mount, join_mount, add_body, add_client,
}
use icecast_proxy_go.Manager.Add.Laws.{
  with_joined, with_listed, put_mount, join_mount-room, join_mount-full,
}
use icecast_proxy_go.Manager.Add.Opens.{place_mount_lem, new_mount_lem, placed, live_mount}
use icecast_proxy_go.Manager.Seats.{Distinct}
use icecast_proxy_go.Manager.Seats.Laws.{Distinct-snoc}
use icecast_proxy_go.Manager.Seats.Joins.{owned-add, line-snoc}
use icecast_proxy_go.Manager.Sound.Added.{config-cases}
use icecast_proxy_go.Manager.Order.{
  Roster, roster, rosters, line_of, IsUnknown, IsProper, IsOrderly, InOrder, KeepsOrder,
}
use icecast_proxy_go.Manager.Order.Steps.{send_meta-KeepsOrder, ordering, put-InOrder}

-- The client has just left the channel, and is still to come.
abbrev pub Expects : ℕ → List ℕ → World → Type 0
Expects client later w = IsOrderly (rosters w) (id_of w) (client ∷ (w.manager.receiver ++ later))

come-InOrder : (client : ℕ) (later : List ℕ) (w : World) → Expects client later w → InOrder later w
come-InOrder client later w s = record {
  proper = s.proper;
  apart = s.apart.1;
  unknown = λ m. (s.unknown m).1;
}

-- What a client's place at the end of the line, or its entry alone, makes of a roster.
abbrev IsGrown : ℕ → ℕ → List ℕ → Roster → Roster → Type 0
IsGrown id client more x y = (line_of y ≡ line_of x ++ more) × (y.clients ≡ add id client x.clients)

grown-IsProper :
    (owner : ℕ → ℕ) (client : ℕ) (more : List ℕ) (x y : Roster)
    → IsGrown (owner client) client more x y
    → Distinct (line_of x ++ more)
    → IsProper owner x
    → IsProper owner y
unfolding add
grown-IsProper owner client more x y g lined p = record {
  keyed = rw g.1 (insert-HasUniqueKeys (owner client) client x.clients.by_id p.keyed);
  owned = λ j c e.
      owned-add owner (owner client) client x.clients p.owned refl j c
        (ap (λ k. get_by_id k j) (sym g.1) ∙ e);
  lined = rw g.0 lined;
}

grown-IsUnknown :
    (owner : ℕ → ℕ) (client : ℕ) (more out : List ℕ) (x y : Roster)
    → IsGrown (owner client) client more x y
    → All (λ z. owner client ≢ z) (map owner out)
    → ((i : ℕ) → owner client ≢ i → All (λ z. i ≢ z) more)
    → All (λ c. IsUnknown (owner c) x) out
    → All (λ c. IsUnknown (owner c) y) out
grown-IsUnknown owner client more [] x y g apart new u = tt
grown-IsUnknown owner client more (c ∷ out) x y g apart new u = (
  (
    rw g.0 (All-append (λ z. owner c ≢ z) (line_of x) more u.0.0 (new (owner c) apart.0)),
    ap (λ k. get_by_id k (owner c)) g.1
        ∙ ground (arith, get_by_id-add (owner client) (owner c) client x.clients, apart.0, u.0.1),
  ),
  grown-IsUnknown owner client more out x y g apart.1 new u.1,
)

-- A mount is put back with the client added.
grow-InOrder :
    (later more : List ℕ) (m client : ℕ) (t : Mount) (x : Roster) (w : World)
    → IsGrown (id_of w client) client more x (roster t)
    → Distinct (line_of x ++ more)
    → ((i : ℕ) → id_of w client ≢ i → All (λ z. i ≢ z) more)
    → IsProper (id_of w) x
    → All (λ c. IsUnknown (id_of w c) x) (w.manager.receiver ++ later)
    → Expects client later w
    → InOrder later (put_mount m t w)
grow-InOrder later more m client t x w g lined new p u s =
    put-InOrder later w m t (grown-IsProper (id_of w) client more x (roster t) g lined p)
      (grown-IsUnknown (id_of w) client more (w.manager.receiver ++ later) x (roster t) g s.apart.0
        new u)
      (come-InOrder client later w s)

-- A roster with nobody.
abbrev nobody : Roster
nobody = record { queue = []; clients = new_container; active = none }

nobody-IsProper : (owner : ℕ → ℕ) → IsProper owner nobody
unfolding new_container get_by_id lookup
nobody-IsProper owner = record { keyed = tt; owned = λ j c e. ground arith; lined = tt }

nobody-IsUnknown : (owner : ℕ → ℕ) (out : List ℕ) → All (λ c. IsUnknown (owner c) nobody) out
unfolding new_container get_by_id lookup
nobody-IsUnknown owner [] = tt
nobody-IsUnknown owner (c ∷ out) = ((tt, refl), nobody-IsUnknown owner out)

only : (id i : ℕ) → id ≢ i → All (λ z. i ≢ z) (id ∷ [])
only id i n = ((λ e. n (sym e)), tt)

module _ (lib : LibShout) (yaml : Yaml) where
  join_mount-InOrder :
      (later : List ℕ) (m client : ℕ) (w : World)
      → Expects client later w
      → InOrder later (state_of (join_mount lib yaml m client w))
  join_mount-InOrder later m client w s =
      let t = w.mount_at m in
      elim (Bool-cases (ltb (length t.client_queue) queue_limit)) [
        | inl room ↦ rw (join_mount-room lib yaml m client w (ground arith)) (
            grow-InOrder later (id_of w client ∷ []) m client (with_joined m client w) (roster t) w
              (line-snoc t.active t.client_queue (id_of w client), refl)
              (Distinct-snoc (line_of (roster t)) (id_of w client) (s.proper m).lined
                (s.unknown m).0.0)
              (only (id_of w client)) (s.proper m) (s.unknown m).1 s)
        | inr full ↦ rw (join_mount-full lib yaml m client w (ground arith)) (
            grow-InOrder later [] m client (with_listed m client w) (roster t) w
              (sym (append-nil (line_of (roster t))), refl)
              (subst Distinct (sym (append-nil (line_of (roster t)))) (s.proper m).lined)
              (λ i n. tt) (s.proper m) (s.unknown m).1 s)
      ]

  placed-InOrder :
      (later : List ℕ) (options : List (Str × Str)) (client : ℕ) (w : World)
      → Expects client later w
      → InOrder later (placed lib options client w)
  placed-InOrder later options client w s =
      grow-InOrder later (id_of w client ∷ []) w.next_mount client (live_mount lib options client w)
        nobody w (refl, refl) (tt, tt) (only (id_of w client)) (nobody-IsProper (id_of w))
        (nobody-IsUnknown (id_of w) (w.manager.receiver ++ later)) s

  stored-KeepsOrder :
      {later : List ℕ} (o : Option Str) (id : ℕ)
      → KeepsOrder later (elim o [
        | none ↦ skip
        | some meta ↦ send_meta (record { payload = meta; id = id; seen = false })
      ])
  stored-KeepsOrder none id = skip-Preserves
  stored-KeepsOrder (some meta) id = send_meta-KeepsOrder _

  options-KeepsOrder :
      {later : List ℕ} (m id : ℕ) (name : Str)
      → KeepsOrder later {A = Option Str} (do
        format ← gets (λ w. format_of (w.ids id).audio_format)
        first ← gets (λ w. w.mount_first m)
        at_mount m (on_shout (apply_options lib (mount_options first name format)))
        return none)
  options-KeepsOrder m id name = search (ordering, return-Preserves) depth 14

  finish_mount-KeepsOrder :
      {later : List ℕ} (m id : ℕ) (name : Str) → KeepsOrder later (finish_mount lib yaml m name id)
  unfolding finish_mount
  finish_mount-KeepsOrder m id name =
      bind-Preserves _ _ (gets-Preserves (λ w. lookup (hash (w.ids id)) w.manager.meta_store))
        λ o. bind-Preserves _ _ (stored-KeepsOrder o id) λ _. options-KeepsOrder m id name

  open_mount-InOrder :
      (later : List ℕ) (client : ℕ) (w : World)
      → Expects client later w
      → InOrder later (state_of (open_mount lib yaml (mount_name w client) client w))
  unfolding open_mount new_mount
  open_mount-InOrder later client w s = elim (config-cases yaml w) [
    | inl (options, e) ↦
        of_outcome (InOrder later)
          (>>=-done (new_mount lib yaml (mount_name w client))
              (λ t. place_mount lib yaml t (mount_name w client) client)
              (new_mount_lem lib yaml (mount_name w client) options w e)
            ∙ place_mount_lem lib options client w yaml)
          ((finish_mount-KeepsOrder w.next_mount (id_of w client) (mount_name w client)).apply
            (placed lib options client w) (placed-InOrder later options client w s))
    | inr (reason, e) ↦
        of_outcome (InOrder later) {o = open_mount lib yaml (mount_name w client) client w}
          {o' = panicked reason w} (ground arith) (come-InOrder client later w s)
  ]

  -- After AddClient the client is no longer to come.
  pub add_client-InOrder :
      (later : List ℕ) (client : ℕ) (w : World)
      → Expects client later w
      → InOrder later (state_of (add_client lib yaml client w))
  unfolding add_client add_body
  add_client-InOrder later client w s =
      elim (Option-cases (lookup (mount_name w client) w.manager.mounts)) [
        | inl e ↦
            of_outcome (InOrder later) {o = add_client lib yaml client w}
              {o' = recover (some full_queue) (open_mount lib yaml (mount_name w client) client) w}
              (ground arith)
              (of_recover (InOrder later) (some full_queue)
                (open_mount lib yaml (mount_name w client) client w)
                (open_mount-InOrder later client w s) w)
        | inr (m, e) ↦
            of_outcome (InOrder later) {o = add_client lib yaml client w}
              {o' = recover (some full_queue) (join_mount lib yaml m client) w} (ground arith)
              (of_recover (InOrder later) (some full_queue) (join_mount lib yaml m client w)
                (join_mount-InOrder later m client w s) w)
      ]
