-- ===== src/Manager/Seats/Views.antt =====
-- The view of a mount that a source has left.
use icecast_proxy_go.Prelude.{
  ℕ, ◌≡◌, ◌≢◌, refl, sym, ap, ap₂, subst, ◌∙◌, inl, inr, Bool-cases, Bool, true, false, not, List,
  [], ◌∷◌, ◌++◌, Option, none, some, ◌==◌, ==_self, if◌then◌else◌, All, arith, text_eq,
}
use icecast_proxy_go.Container.{Container, get_by_id, remove}
use icecast_proxy_go.Container.Laws.{IsValid, remove-IsValid, get_by_id-remove}
use icecast_proxy_go.Mount.{Mount}
use icecast_proxy_go.World.{World, id_of}
use icecast_proxy_go.Manager.{is_active}
use icecast_proxy_go.Manager.Seats.{
  is_live, Seats, keep, keep_option, is_some, is_on, seats, leave, next_on_air, Distinct, line,
  line_from, IsTidy,
}
use icecast_proxy_go.Manager.Seats.Laws.{
  keep-append, keep_none, keep-remove, keep-remove_absent, is_on-remove, ==_ne,
}

pub removed-IsTidy :
    (w w' : World) (m id client : ℕ) (t : Mount)
    → IsValid t.clients
    → ((j k : ℕ) → get_by_id t.clients j ≡ some k → id_of w k ≡ j)
    → Distinct (line t)
    → get_by_id t.clients id ≡ some client
    → w'.mount_at m ≡ record t { clients = remove id t.clients }
    → w'.clients ≡ w.clients
    → IsTidy w' m
removed-IsTidy w w' m id client t valid own lined found e same = record {
  valid = rw e (remove-IsValid id client t.clients valid found);
  owned = λ j k listed. by_test j k (ap (λ r. get_by_id r.clients j) (sym e) ∙ listed);
  lined = rw e lined;
}
  where
    by_test : (j k : ℕ) → get_by_id (remove id t.clients) j ≡ some k → id_of w' k ≡ j
    by_test j k listed = elim (Bool-cases (id == j)) [
      | inl gone ↦ absurd (ground (arith, get_by_id-remove id j t.clients valid, gone))
      | inr other ↦
          ap (λ f. (f k).client_id) same
          ∙ own j k (ground (arith, get_by_id-remove id j t.clients valid, other))
    ]

keep_option-remove :
    (id : ℕ) (c : Container) (active : Option ℕ)
    → IsValid c
    → is_active active id ≡ false
    → keep_option (is_on (remove id c)) active ≡ keep_option (is_on c) active
keep_option-remove id c none valid other = refl
keep_option-remove id c (some live) valid other =
    ap (λ b. if b then some live else none)
      (is_on-remove id live c valid ∙ by_test (id == live) refl)
  where
    by_test : (b : Bool) → (id == live) ≡ b → (if b then false else is_on c live) ≡ is_on c live
    by_test true e = absurd (ground (arith, other, e))
    by_test false e = refl

is_live-kept :
    (p : ℕ → Bool) (active : Option ℕ) (id : ℕ)
    → is_active active id ≡ false
    → is_live (keep_option p active) id ≡ false
is_live-kept p none id other = refl
is_live-kept p (some live) id other = by_test (p live)
  where
    by_test : (b : Bool) → is_live (if b then some live else none) id ≡ false
    by_test true = other
    by_test false = refl

-- The view of a mount that one of the waiting sources has left.
pub seats-waiting :
    (id : ℕ) (t : Mount)
    → IsValid t.clients
    → is_active t.active id ≡ false
    → seats (record t { clients = remove id t.clients }) ≡ leave id (seats t)
seats-waiting id t valid other =
    ap₂ (λ l q. record { live = l; waiting = q })
      (keep_option-remove id t.clients t.active valid other)
      (keep-remove id t.clients t.client_queue valid)
    ∙ rw (is_live-kept (is_on t.clients) t.active id other)

is_on-remove_self : (id : ℕ) (c : Container) → IsValid c → is_on (remove id c) id ≡ false
is_on-remove_self id c valid =
    is_on-remove id id c valid ∙ ap (λ b. if b then false else is_on c id) (==_self id)

leave_of_live : (id : ℕ) (s : Seats) → s.live ≡ some id → leave id s ≡ next_on_air s.waiting
leave_of_live id s e =
    ap
      (λ b.
        if b
        then next_on_air s.waiting
        else record s { waiting = keep (λ j. not (id == j)) s.waiting })
      (ap (λ l. is_live l id) e ∙ ==_self id)

live_seat :
    (id client : ℕ) (t : Mount)
    → t.active ≡ some id
    → get_by_id t.clients id ≡ some client
    → (seats t).live ≡ some id
live_seat id client t live listed =
    ap (keep_option (is_on t.clients)) live ∙ ap (λ o. if is_some o then some id else none) listed

-- The view of a mount whose live source has left while nobody waits.
pub seats-last :
    (id client : ℕ) (t : Mount)
    → IsValid t.clients
    → t.active ≡ some id
    → get_by_id t.clients id ≡ some client
    → All (λ x. is_on t.clients x ≡ false) t.client_queue
    → seats (record t { clients = remove id t.clients; client_queue = [] }) ≡ leave id (seats t)
seats-last id client t valid live listed stale =
    ap (λ l. record { live = l; waiting = keep (is_on (remove id t.clients)) [] })
      (ap (keep_option (is_on (remove id t.clients))) live
        ∙ ap (λ b. if b then some id else none) (is_on-remove_self id t.clients valid))
    ∙ ap (λ q. record { live = none; waiting = q }) (keep_none _ [] tt)
    ∙ ap next_on_air (sym (keep_none (is_on t.clients) t.client_queue stale))
    ∙ sym (leave_of_live id (seats t) (live_seat id client t live listed))

front_of_line :
    (p : ℕ → Bool) (next : ℕ) (stale rest : List ℕ)
    → All (λ x. p x ≡ false) stale
    → p next ≡ true
    → keep p (stale ++ (next ∷ rest)) ≡ next ∷ keep p rest
unfolding keep
front_of_line p next stale rest gone on =
    keep-append p stale (next ∷ rest)
    ∙ ap (λ xs. xs ++ (if p next then next ∷ keep p rest else keep p rest)) (keep_none p stale gone)
    ∙ ap (λ b. if b then next ∷ keep p rest else keep p rest) on

-- The view of a mount whose live source has left while others wait.
pub seats-next :
    (id client next : ℕ) (stale rest : List ℕ) (t : Mount)
    → IsValid t.clients
    → t.active ≡ some id
    → get_by_id t.clients id ≡ some client
    → t.client_queue ≡ stale ++ (next ∷ rest)
    → All (λ x. is_on t.clients x ≡ false) stale
    → is_on t.clients next ≡ true
    → All (λ y. id ≢ y) (next ∷ rest)
    → seats (record t { active = some next; client_queue = rest; clients = remove id t.clients })
      ≡ leave id (seats t)
seats-next id client next stale rest t valid live listed queue gone on new =
    ap₂ (λ l q. record { live = l; waiting = q })
      (ap (λ b. if b then some next else none)
        (is_on-remove id next t.clients valid
          ∙ ap (λ b. if b then false else is_on t.clients next) (==_ne id next new.0)
          ∙ on))
      (keep-remove_absent id t.clients rest valid new.1)
    ∙ ap next_on_air (sym (front_of_line (is_on t.clients) next stale rest gone on))
    ∙ ap (λ q. next_on_air (keep (is_on t.clients) q)) (sym queue)
    ∙ sym (leave_of_live id (seats t) (live_seat id client t live listed))

pub active_of_is_active :
    (active : Option ℕ) (id : ℕ) → is_active active id ≡ true → active ≡ some id
active_of_is_active none id e = absurd (ground arith)
active_of_is_active (some live) id e = ground (arith, e)

pub Distinct-head :
    (active : Option ℕ) (id : ℕ) (queue : List ℕ)
    → active ≡ some id
    → Distinct (line_from active queue)
    → Distinct (id ∷ queue)
Distinct-head active id queue live h = subst (λ a. Distinct (line_from a queue)) live h
