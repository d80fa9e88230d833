-- ===== src/Handlers.antt =====
-- server/handlers.go: the table of connected clients by mount that the admin page shows, and its
-- lock. HandleClientUnlive and HandleMetadata are empty in the source.
pub mod Laws
use icecast_proxy_go.Prelude.{
  ℕ, Bool, true, false, ◌||◌, List, [], ◌∷◌, ◌++◌, Option, none, some, Str, ◌==◌, if◌then◌else◌,
  lookup, insert, delete, text_eq, Go, done, blocked, ◌>>=◌, ◌>>◌, skip, gets, modify, str_eq,
}

-- HandlerMounts and HandlerLock.
pub record Handlers : Type 0 where
  pub handler_mounts : List (Str × List ℕ)
  pub locked : Bool

-- Lock: a locked mutex is waited for.
abbrev pub lock : Go Handlers (Unit {0})
lock s = elim s.locked [ true ↦ blocked s | false ↦ done tt (record s { locked = true }) ]

abbrev pub unlock : Go Handlers (Unit {0})
unlock = modify (λ r. record r { locked = false })

abbrev pub or_empty : Option (List ℕ) → List ℕ
or_empty none = []
or_empty (some cs) = cs

unfoldable pub is_member : ℕ → List ℕ → Bool
is_member client [] = false
is_member client (c ∷ cs) = c == client || is_member client cs

-- `append(Clients[:i], Clients[i+1:]...)` for the first index of the client.
unfoldable pub remove_first : ℕ → List ℕ → List ℕ
remove_first client [] = []
remove_first client (c ∷ cs) = if c == client then cs else c ∷ remove_first client cs

unfoldable pub handle_client_connect : Str → ℕ → Go Handlers (Unit {0})
unfolding lookup insert str_eq
handle_client_connect mount client = do
  lock
  clients ← gets (λ s. or_empty (lookup mount s.handler_mounts))
  modify (λ s. record s { handler_mounts = insert mount (clients ++ client ∷ []) s.handler_mounts })
  unlock

-- The loop and the deletion of HandleClientDisconnect.
abbrev pub drop_entry : Str → ℕ → List ℕ → List (Str × List ℕ) → List (Str × List ℕ)
drop_entry mount client clients m = elim (remove_first client clients) [
  | [] ↦ delete mount m
  | c ∷ cs ↦ if is_member client clients then insert mount (c ∷ cs) m else m
]

-- Where the mount has no entry the function returns without unlocking.
unfoldable pub handle_client_disconnect : Str → ℕ → Go Handlers (Unit {0})
unfolding is_member remove_first lookup insert delete str_eq
handle_client_disconnect mount client = do
  lock
  found ← gets (λ s. lookup mount s.handler_mounts)
  elim found [
    | none ↦ skip
    | some clients ↦ do
      modify (λ s. record s { handler_mounts = drop_entry mount client clients s.handler_mounts })
      unlock
  ]

-- The client moves to the front of its mount's list; the lock is not taken.
unfoldable pub handle_client_live : Str → ℕ → Go Handlers (Unit {0})
unfolding is_member remove_first lookup insert str_eq
handle_client_live mount client = do
  found ← gets (λ s. lookup mount s.handler_mounts)
  elim found [
    | none ↦ skip
    | some clients ↦
        if is_member client clients
        then modify (λ s. record s {
          handler_mounts = insert mount (client ∷ remove_first client clients) s.handler_mounts;
        })
        else skip
  ]

-- HandleClientUnlive and HandleMetadata.
abbrev pub handle_client_unlive : ℕ → Go Handlers (Unit {0})
handle_client_unlive client = skip

abbrev pub handle_metadata : ℕ → Str → Go Handlers (Unit {0})
handle_metadata client metadata = skip
