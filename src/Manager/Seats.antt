-- ===== src/Manager/Seats.antt =====
-- What a mount of server/icecast.go promises its sources: one of them is on the air, the others wait
-- in line. The view of a mount forgets the clients that have left but stand in its queue still.
pub mod Laws
pub mod Queue
pub mod Views
pub mod Joins
pub mod Leaves
pub mod Runs
use icecast_proxy_go.Prelude.{
  ℕ, ◌≡◌, ◌≢◌, refl, Bool, true, false, not, List, [], ◌∷◌, ◌++◌, Option, none, some, ◌==◌,
  if◌then◌else◌, All,
}
use icecast_proxy_go.Container.{Container, get_by_id}
use icecast_proxy_go.Container.Laws.{IsValid}
use icecast_proxy_go.Mount.{Mount}
use icecast_proxy_go.World.{World, id_of}

-- The identifiers of the source that is on the air and of those that wait, the first one first.
pub record Seats : Type 0 where
  pub live : Option ℕ
  pub waiting : List ℕ

-- The elements that pass the test.
unfoldable pub keep : (ℕ → Bool) → List ℕ → List ℕ
keep p [] = []
keep p (x ∷ xs) = if p x then x ∷ keep p xs else keep p xs

abbrev pub keep_option : (ℕ → Bool) → Option ℕ → Option ℕ
keep_option p none = none
keep_option p (some x) = if p x then some x else none

abbrev pub is_some : Option ℕ → Bool
is_some none = false
is_some (some x) = true

-- A client is listed under the identifier.
abbrev pub is_on : Container → ℕ → Bool
is_on c id = is_some (get_by_id c id)

abbrev pub seats : Mount → Seats
seats t = record {
  live = keep_option (is_on t.clients) t.active;
  waiting = keep (is_on t.clients) t.client_queue;
}

-- A source joins the line.
abbrev pub join : ℕ → Seats → Seats
join id s = record s { waiting = s.waiting ++ id ∷ [] }

-- The first one in line goes on the air.
abbrev pub next_on_air : List ℕ → Seats
next_on_air [] = record { live = none; waiting = [] }
next_on_air (id ∷ rest) = record { live = some id; waiting = rest }

-- A source leaves: the one on the air makes room for the first in line, another steps out of it.
abbrev pub is_live : Option ℕ → ℕ → Bool
is_live none id = false
is_live (some live) id = live == id

abbrev pub leave : ℕ → Seats → Seats
leave id s =
    if is_live s.live id
    then next_on_air s.waiting
    else record s { waiting = keep (λ j. not (id == j)) s.waiting }

-- No two elements are the same.
abbrev pub Distinct : List ℕ → Type 0
Distinct [] = Unit {0}
Distinct (x ∷ xs) = All (λ y. x ≢ y) xs × Distinct xs

-- The live identifier and the queue.
abbrev pub line_from : Option ℕ → List ℕ → List ℕ
line_from none queue = queue
line_from (some id) queue = id ∷ queue

abbrev pub line : Mount → List ℕ
line t = line_from t.active t.client_queue

-- The container is valid, each client is listed under its own identifier, and no identifier is
-- twice in line.
pub record IsTidy (w : World) (m : ℕ) : Type 0 where
  pub valid : IsValid (w.mount_at m).clients
  pub owned :
      (id client : ℕ) → get_by_id (w.mount_at m).clients id ≡ some client → id_of w client ≡ id
  pub lined : Distinct (line (w.mount_at m))
