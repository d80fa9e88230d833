-- ===== src/Manager/Seats/Joins.antt =====
-- AddClient of server/icecast.go puts a source at the end of the line.
use icecast_proxy_go.Prelude.{
  ℕ, ◌+◌, ◌<◌, ◌≡◌, ◌≢◌, refl, sym, ap, ap₂, ◌∙◌, Bool-cases, inl, inr, Bool, true, List, [], ◌∷◌,
  ◌++◌, Option, none, some, ◌==◌, ==_self, if◌then◌else◌, All, arith, done, length, lookup, text_eq,
  update, update_self,
}
use icecast_proxy_go.Config.{Yaml, queue_limit}
use icecast_proxy_go.Container.{Container, get_by_id, add}
use icecast_proxy_go.Container.Laws.{add-IsValid, get_by_id-add}
use icecast_proxy_go.Mount.{Mount}
use icecast_proxy_go.Shout.{LibShout}
use icecast_proxy_go.World.{World, id_of, mount_name}
use icecast_proxy_go.Manager.Add.{add_client}
use icecast_proxy_go.Manager.Add.Laws.{with_joined, put_mount, add_client-joined}
use icecast_proxy_go.Manager.Seats.{keep, keep_option, is_on, seats, join, line, line_from, IsTidy}
use icecast_proxy_go.Manager.Seats.Laws.{keep-append, keep-add_absent, is_on-add, Distinct-snoc}

-- No identifier of the line is this one.
abbrev pub IsNew : ℕ → Mount → Type 0
IsNew id t = All (λ y. id ≢ y) (line t)

pub queue_of_line :
    (P : ℕ → Type 0) (active : Option ℕ) (queue : List ℕ)
    → All P (line_from active queue)
    → All P queue
queue_of_line P none queue h = h
queue_of_line P (some id) queue h = h.1

keep_option-add :
    (id client : ℕ) (c : Container) (active : Option ℕ) (queue : List ℕ)
    → All (λ y. id ≢ y) (line_from active queue)
    → keep_option (is_on (add id client c)) active ≡ keep_option (is_on c) active
keep_option-add id client c none queue h = refl
keep_option-add id client c (some live) queue h =
    ap (λ b. if b then some live else none) (is_on-add id client live c ∙ ground (arith, h.0))

keep-one : (id client : ℕ) (c : Container) → keep (is_on (add id client c)) (id ∷ []) ≡ id ∷ []
unfolding keep
keep-one id client c = rw (is_on-add id client id c) (ap (λ b. keep_front b) (==_self id))
  where
    keep_front : Bool → List ℕ
    keep_front same = if (if same then true else is_on c id) then id ∷ [] else []

pub owned-add :
    (owner : ℕ → ℕ) (id client : ℕ) (c : Container)
    → ((j k : ℕ) → get_by_id c j ≡ some k → owner k ≡ j)
    → owner client ≡ id
    → (j k : ℕ) → get_by_id (add id client c) j ≡ some k
    → owner k ≡ j
owned-add owner id client c old own j k e = elim (Bool-cases (id == j)) [
  | inl same ↦ ground (arith, get_by_id-add id j client c, own, same)
  | inr other ↦ old j k (ground (arith, get_by_id-add id j client c, other))
]

seats-joined :
    (id client : ℕ) (t : Mount)
    → IsNew id t
    → seats
        (record t { clients = add id client t.clients; client_queue = t.client_queue ++ id ∷ [] })
      ≡ join id (seats t)
seats-joined id client t new =
    ap₂ (λ l q. record { live = l; waiting = q })
      (keep_option-add id client t.clients t.active t.client_queue new)
      (keep-append (is_on (add id client t.clients)) t.client_queue (id ∷ [])
        ∙ ap₂ (λ a b. a ++ b)
            (keep-add_absent id client t.clients t.client_queue
              (queue_of_line (λ y. id ≢ y) t.active t.client_queue new))
            (keep-one id client t.clients))

pub line-snoc :
    (active : Option ℕ) (queue : List ℕ) (id : ℕ)
    → line_from active (queue ++ id ∷ []) ≡ line_from active queue ++ id ∷ []
line-snoc none queue id = refl
line-snoc (some live) queue id = refl

-- A source whose identifier is new to the line, not listed yet, joins a mount that is there, in
-- good order and has room in its queue and counter: it then waits behind the others, who keep their
-- places, and the mount is in good order.
pub add_client-seats :
    (lib : LibShout) (yaml : Yaml) (client m : ℕ) (w : World)
    → lookup (mount_name w client) w.manager.mounts ≡ some m
    → length (w.mount_at m).client_queue < queue_limit
    → IsTidy w m
    → IsNew (id_of w client) (w.mount_at m)
    → get_by_id (w.mount_at m).clients (id_of w client) ≡ none
    → (w.mount_at m).clients.length + 1 < 2147483648
    → (w' : World) × (add_client lib yaml client w ≡ done none w')
      × (seats (w'.mount_at m) ≡ join (id_of w client) (seats (w.mount_at m)))
      × IsTidy w' m
add_client-seats lib yaml client m w found room tidy new fresh small =
    let id = id_of w client in
    let t = with_joined m client w in
    let same : update m t w.mount_at m ≡ t = update_self m t w.mount_at in
    (
      put_mount m t w,
      add_client-joined lib yaml client m w found room,
      ap seats same ∙ seats-joined id client (w.mount_at m) new,
      record {
        valid = rw same (add-IsValid id client (w.mount_at m).clients tidy.valid fresh small);
        owned = λ j c e.
            owned-add (id_of w) id client (w.mount_at m).clients tidy.owned refl j c
              (ap (λ r. get_by_id r.clients j) (sym same) ∙ e);
        lined =
            rw (same, line-snoc (w.mount_at m).active (w.mount_at m).client_queue id)
              (Distinct-snoc (line (w.mount_at m)) id tidy.lined new);
      },
    )
