-- ===== src/Loop/Order.antt =====
-- The line of every mount of server/icecast.go over any sequence of inputs.
use mathlib.Core.List.{append_assoc}
use icecast_proxy_go.Prelude.{
  if_cases, ℕ, ◌≢◌, sym, subst, List, [], ◌∷◌, ◌++◌, map, All, Bool-cases, inl, inr, ◌&&◌, Outcome,
  state_of, done, panicked, blocked, length, ltb, leb,
}
use icecast_proxy_go.Config.{Yaml, buffer_size}
use icecast_proxy_go.Handlers.{is_member}
use icecast_proxy_go.Shout.{LibShout}
use icecast_proxy_go.World.{World, new_manager, id_of, err_cap, receiver_cap}
use icecast_proxy_go.Manager.Seats.{Distinct}
use icecast_proxy_go.Manager.Order.{Roster, rosters, IsUnknown, IsOrderly, InOrder}
use icecast_proxy_go.Manager.Order.Cases.{
  on_tick-KeepsOrder, on_error-KeepsOrder, on_collect-KeepsOrder, destroy_mounts-KeepsOrder,
  on_meta-KeepsOrder, on_data-KeepsOrder, on_client-InOrder,
}
use icecast_proxy_go.Loop.Inputs.{received_cases, wake_cases, select_cases}
use icecast_proxy_go.Loop.{
  Channel, data_case, err_case, receiver_case, collector_case, meta_case, tick_case, Input,
  client_arrives, meta_arrives, reads, read_fails, wakes, selects, Status, running, deadlocked,
  crashed, undefined, System, serve, restart, after_serve, offer, step, proceed, run,
}

-- The clients that the inputs bring.
abbrev pub arrivals : List Input → List ℕ
arrivals [] = []
arrivals (client_arrives client ∷ is) = client ∷ arrivals is
arrivals (_ ∷ is) = arrivals is

All-drop :
    (P : ℕ → Type 0) (xs : List ℕ) (c : ℕ) (ys : List ℕ) → All P (xs ++ c ∷ ys) → All P (xs ++ ys)
All-drop P [] c ys h = h.1
All-drop P (x ∷ xs) c ys h = (h.0, All-drop P xs c ys h.1)

All-drop_map :
    (P : ℕ → Type 0) (f : ℕ → ℕ) (xs : List ℕ) (c : ℕ) (ys : List ℕ)
    → All P (map f (xs ++ c ∷ ys))
    → All P (map f (xs ++ ys))
All-drop_map P f [] c ys h = h.1
All-drop_map P f (x ∷ xs) c ys h = (h.0, All-drop_map P f xs c ys h.1)

Distinct-drop :
    (f : ℕ → ℕ) (xs : List ℕ) (c : ℕ) (ys : List ℕ)
    → Distinct (map f (xs ++ c ∷ ys))
    → Distinct (map f (xs ++ ys))
Distinct-drop f [] c ys h = h.1
Distinct-drop f (x ∷ xs) c ys h =
    (All-drop_map (λ y. f x ≢ y) f xs c ys h.0, Distinct-drop f xs c ys h.1)

-- A client that does not come.
absent-IsOrderly :
    (rs : ℕ → Roster) (owner : ℕ → ℕ) (xs : List ℕ) (c : ℕ) (ys : List ℕ)
    → IsOrderly rs owner (xs ++ c ∷ ys)
    → IsOrderly rs owner (xs ++ ys)
absent-IsOrderly rs owner xs c ys h = record {
  proper = h.proper;
  apart = Distinct-drop owner xs c ys h.apart;
  unknown = λ m. All-drop (λ x. IsUnknown (owner x) (rs m)) xs c ys (h.unknown m);
}

rest-IsOrderly :
    (rs : ℕ → Roster) (owner : ℕ → ℕ) (xs ys : List ℕ)
    → IsOrderly rs owner (xs ++ ys)
    → IsOrderly rs owner ys
rest-IsOrderly rs owner [] ys h = h
rest-IsOrderly rs owner (x ∷ xs) ys h =
    rest-IsOrderly rs owner xs ys (absent-IsOrderly rs owner [] x (xs ++ ys) h)

-- A client that comes waits in the channel, or is still to come where the channel is full.
offer-IsOrderly :
    (rs : ℕ → Roster) (owner : ℕ → ℕ) (c : ℕ) (chan ys : List ℕ)
    → IsOrderly rs owner (chan ++ c ∷ ys)
    → IsOrderly rs owner (offer receiver_cap c chan ++ ys)
offer-IsOrderly rs owner c chan ys h = elim (Bool-cases (ltb (length chan) receiver_cap)) [
  | inl room ↦ rw room (subst (IsOrderly rs owner) (sym (append_assoc chan (c ∷ []) ys)) h)
  | inr full ↦ rw full (absent-IsOrderly rs owner chan c ys h)
]

module _ (lib : LibShout) (yaml : Yaml) where
  serve-InOrder :
      (channel : Channel) (later : List ℕ) (w : World)
      → InOrder later w
      → InOrder later (state_of (serve lib yaml channel w))
  unfolding serve
  serve-InOrder data_case later w s =
      received_cases (λ o. InOrder later (state_of o)) w w.data_chan _ s
        λ a rest e. (on_data-KeepsOrder lib a).apply _ s
  serve-InOrder err_case later w s =
      received_cases (λ o. InOrder later (state_of o)) w w.err_chan _ s
        λ a rest e. (on_error-KeepsOrder a).apply _ s
  serve-InOrder collector_case later w s =
      received_cases (λ o. InOrder later (state_of o)) w w.manager.mount_collector _ s
        λ a rest e. (on_collect-KeepsOrder lib a).apply _ s
  serve-InOrder meta_case later w s =
      received_cases (λ o. InOrder later (state_of o)) w w.manager.meta_chan _ s
        λ a rest e. (on_meta-KeepsOrder lib a).apply _ s
  serve-InOrder receiver_case later w s =
      received_cases (λ o. InOrder later (state_of o)) w w.manager.receiver _ s
        λ a rest e.
          on_client-InOrder lib yaml later a _
            (subst (λ chan. IsOrderly (rosters w) (id_of w) (chan ++ later)) e s)
  serve-InOrder tick_case later w s = on_tick-KeepsOrder.apply w s

  after_serve-InOrder :
      (later : List ℕ) (o : Outcome World (Unit {0}))
      → InOrder later (state_of o)
      → InOrder later (after_serve lib yaml o).world
  unfolding restart new_manager
  after_serve-InOrder later (done _ w) s = s
  after_serve-InOrder later (panicked e w) s =
      (destroy_mounts-KeepsOrder lib w.manager.mounts).apply _
        (rest-IsOrderly (rosters w) (id_of w) w.manager.receiver later s)
  after_serve-InOrder later (blocked w) s = s

  step-InOrder :
      (i : Input) (is : List Input) (w : World)
      → InOrder (arrivals (i ∷ is)) w
      → InOrder (arrivals is) (step lib yaml i w).world
  unfolding step
  step-InOrder (client_arrives client) is w s =
      offer-IsOrderly (rosters w) (id_of w) client w.manager.receiver (arrivals is) s
  step-InOrder (meta_arrives pack) is w s = s
  step-InOrder (reads client payload) is w s =
      if_cases (InOrder (arrivals is))
        (is_member client w.readers && leb (length payload) buffer_size) (λ e. s) (λ e. s)
  step-InOrder (read_fails client err) is w s =
      if_cases (InOrder (arrivals is))
        (is_member client w.readers && ltb (length w.err_chan) err_cap) (λ e. s) (λ e. s)
  step-InOrder (wakes n) is w s =
      wake_cases (λ q. InOrder (arrivals is) q.world) n w s (λ pack e room. s)
        (λ manager pack e other. s)
  step-InOrder (selects channel) is w s =
      let served =
        after_serve-InOrder (arrivals is) (serve lib yaml channel w)
          (serve-InOrder channel (arrivals is) w s) in
      select_cases lib yaml (λ q. InOrder (arrivals is) q.world) channel w (λ e. served) served

  -- An input that is not taken.
  skip-InOrder :
      (i : Input) (is : List Input) (w : World)
      → InOrder (arrivals (i ∷ is)) w
      → InOrder (arrivals is) w
  skip-InOrder (client_arrives client) is w s =
      absent-IsOrderly (rosters w) (id_of w) w.manager.receiver client (arrivals is) s
  skip-InOrder (meta_arrives pack) is w s = s
  skip-InOrder (reads client payload) is w s = s
  skip-InOrder (read_fails client err) is w s = s
  skip-InOrder (wakes n) is w s = s
  skip-InOrder (selects channel) is w s = s

  proceed-InOrder :
      (i : Input) (is : List Input) (q : System)
      → InOrder (arrivals (i ∷ is)) q.world
      → InOrder (arrivals is) (proceed lib yaml i q).world
  proceed-InOrder i is q s = by_status q.status
    where
      by_status :
          (status : Status)
          → InOrder (arrivals is) (proceed lib yaml i (record q { status = status })).world
      by_status running = step-InOrder i is q.world s
      by_status deadlocked = skip-InOrder i is q.world s
      by_status crashed = skip-InOrder i is q.world s
      by_status undefined = skip-InOrder i is q.world s

  -- Suppose that in each mount each client is listed once, under its own identifier, and no
  -- identifier stands twice in the line of the live identifier and the queue; and that the clients
  -- that wait in the channel and those that the inputs will bring have identifiers that differ and
  -- that no mount knows. Then after the inputs, in any order, the same holds, but for clients that
  -- are still to come: only those in the channel are.
  pub run-InOrder :
      (q : System) (is : List Input)
      → InOrder (arrivals is) q.world
      → InOrder [] (run lib yaml q is).world
  unfolding run
  run-InOrder q [] s = s
  run-InOrder q (i ∷ is) s = run-InOrder (proceed lib yaml i q) is (proceed-InOrder i is q s)
