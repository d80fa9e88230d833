-- ===== src/Handlers/Laws.antt =====
-- The table of connected clients and its lock.
use mathlib.Core.List.{Perm}
use mathlib.Core.List.Perm
use icecast_proxy_go.Prelude.{
  ℕ, ◌≡◌, refl, ◌∙◌, inl, inr, true, false, List, [], ◌∷◌, ◌++◌, none, some, Str, arith, ◌==◌,
  if◌then◌else◌, str_eq, str_eq_iff, lookup, insert, text_eq, HasUniqueKeys, lookup-insert,
  lookup-insert_self, lookup-delete, insert-HasUniqueKeys, state_of, >>=-done, done, blocked,
  Bool-cases, ◌>>◌, Option-cases,
}
use icecast_proxy_go.Handlers.{
  Handlers, or_empty, is_member, remove_first, drop_entry, handle_client_connect,
  handle_client_disconnect, handle_client_live,
}

-- The clients listed for a mount.
abbrev pub listed : Handlers → Str → List ℕ
listed h mount = or_empty (lookup mount h.handler_mounts)

remove_first-append :
    (client : ℕ) (cs : List ℕ)
    → is_member client cs ≡ false
    → remove_first client (cs ++ client ∷ []) ≡ cs
unfolding remove_first is_member
remove_first-append client [] h = ground arith
remove_first-append client (c ∷ cs) h = ground (arith, remove_first-append client cs)

pub is_member-append : (client : ℕ) (cs : List ℕ) → is_member client (cs ++ client ∷ []) ≡ true
unfolding is_member
is_member-append client [] = ground arith
is_member-append client (c ∷ cs) = ground (arith, is_member-append client cs)

remove_first-perm :
    (client : ℕ) (cs : List ℕ)
    → is_member client cs ≡ true
    → Perm cs (client ∷ remove_first client cs)
unfolding remove_first is_member
remove_first-perm client [] h = absurd (ground arith)
remove_first-perm client (c ∷ cs) h = elim (Bool-cases (c == client)) [
  | inl hit ↦ let e : c ≡ client = ground arith in rw (hit, e) (Perm.refl _)
  | inr miss ↦
      rw miss (
        Perm.trans (Perm.cons c (remove_first-perm client cs (ground arith)))
          (Perm.swap client c _))
]

-- The table after HandleClientConnect.
abbrev pub connected_table : Str → ℕ → Handlers → Handlers
connected_table mount client h = record {
  handler_mounts = insert mount (listed h mount ++ client ∷ []) h.handler_mounts;
  locked = false;
}

pub connect_unlocked :
    (mount : Str) (client : ℕ) (h : Handlers)
    → h.locked ≡ false
    → handle_client_connect mount client h ≡ done tt (connected_table mount client h)
unfolding handle_client_connect
connect_unlocked mount client h u = ground arith

-- A lock that was not released is waited for.
pub handle_client_connect-blocked :
    (mount : Str) (client : ℕ) (h : Handlers)
    → h.locked ≡ true
    → handle_client_connect mount client h ≡ blocked h
unfolding handle_client_connect
handle_client_connect-blocked mount client h l = ground arith

-- The table after HandleClientDisconnect, for a mount that has an entry.
abbrev pub disconnected_table : Str → ℕ → List ℕ → Handlers → Handlers
disconnected_table mount client cs h = record {
  handler_mounts = drop_entry mount client cs h.handler_mounts;
  locked = false;
}

pub disconnect_unlocked :
    (mount : Str) (client : ℕ) (cs : List ℕ) (h : Handlers)
    → h.locked ≡ false
    → lookup mount h.handler_mounts ≡ some cs
    → handle_client_disconnect mount client h ≡ done tt (disconnected_table mount client cs h)
unfolding handle_client_disconnect
disconnect_unlocked mount client cs h u found = ground arith

-- Where the mount has no entry, HandleClientDisconnect returns with the lock held.
pub disconnect_leaks :
    (mount : Str) (client : ℕ) (h : Handlers)
    → h.locked ≡ false
    → lookup mount h.handler_mounts ≡ none
    → handle_client_disconnect mount client h ≡ done tt (record h { locked = true })
unfolding handle_client_disconnect
disconnect_leaks mount client h u missing = ground arith

-- If a client disconnects from a mount that has no entry, with the lock free, then whoever connects
-- next waits for ever: the lock is still held.
pub disconnect_deadlocks :
    (mount other : Str) (client next : ℕ) (h : Handlers)
    → h.locked ≡ false
    → lookup mount h.handler_mounts ≡ none
    → (do handle_client_disconnect mount client; handle_client_connect other next) h
      ≡ blocked (record h { locked = true })
disconnect_deadlocks mount other client next h u missing =
    >>=-done (handle_client_disconnect mount client) (λ _. handle_client_connect other next)
      (disconnect_leaks mount client h u missing)
    ∙ handle_client_connect-blocked other next (record h { locked = true }) refl

remove_first-not_member :
    (client : ℕ) (cs : List ℕ) → is_member client cs ≡ false → remove_first client cs ≡ cs
unfolding remove_first is_member
remove_first-not_member client [] h = refl
remove_first-not_member client (c ∷ cs) h = ground (arith, remove_first-not_member client cs)

drop_nonempty :
    (mount key : Str) (client c : ℕ) (cs rest : List ℕ) (m : List (Str × List ℕ))
    → lookup mount m ≡ some cs
    → remove_first client cs ≡ c ∷ rest
    → or_empty (lookup key (drop_entry mount client cs m))
      ≡ (if str_eq mount key then remove_first client cs else or_empty (lookup key m))
drop_nonempty mount key client c cs rest m found e = ground (
  arith,
  lookup-insert mount key (c ∷ rest) m,
  remove_first-not_member client cs,
  str_eq_iff mount key,
)

lookup-drop :
    (mount key : Str) (client : ℕ) (cs left : List ℕ) (m : List (Str × List ℕ))
    → HasUniqueKeys m
    → lookup mount m ≡ some cs
    → remove_first client cs ≡ left
    → or_empty (lookup key (drop_entry mount client cs m))
      ≡ (if str_eq mount key then left else or_empty (lookup key m))
lookup-drop mount key client cs [] m u found e = ground (arith, lookup-delete mount key m u)
lookup-drop mount key client cs (c ∷ rest) m u found e =
    drop_nonempty mount key client c cs rest m found e ∙ rw e

-- A client that was not listed for a mount and disconnects right after it connected leaves every
-- mount's list as it was, and the lock free, if the lock was free and each mount had one entry.
pub disconnect-connect :
    (mount key : Str) (client : ℕ) (h : Handlers)
    → h.locked ≡ false
    → HasUniqueKeys h.handler_mounts
    → is_member client (listed h mount) ≡ false
    → (t : Handlers) × ((do
      handle_client_connect mount client
      handle_client_disconnect mount client)
          h
        ≡ done tt t)
      × (listed t key ≡ listed h key)
      × (t.locked ≡ false)
disconnect-connect mount key client h u k fresh =
    let cs = listed h mount ++ client ∷ [] in
    let mid = connected_table mount client h in
    let found = lookup-insert_self mount cs h.handler_mounts in
    (
      disconnected_table mount client cs mid,
      >>=-done (handle_client_connect mount client) (λ _. handle_client_disconnect mount client)
            (connect_unlocked mount client h u)
          ∙ disconnect_unlocked mount client cs mid refl found,
      ground (
        arith,
        lookup-drop mount key client cs (listed h mount) mid.handler_mounts
            (insert-HasUniqueKeys mount cs h.handler_mounts k) found
            (remove_first-append client (listed h mount) fresh),
        lookup-insert mount key cs h.handler_mounts,
        str_eq_iff mount key,
      ),
      refl,
    )

-- HandleClientLive puts a listed client first in its mount's list, which is else a permutation of
-- what it was.
pub handle_client_live-perm :
    (mount : Str) (client : ℕ) (cs : List ℕ) (h : Handlers)
    → lookup mount h.handler_mounts ≡ some cs
    → is_member client cs ≡ true
    → (t : Handlers) × (rest : List ℕ) × (handle_client_live mount client h ≡ done tt t)
      × (listed t mount ≡ client ∷ rest)
      × Perm cs (client ∷ rest)
unfolding handle_client_live
handle_client_live-perm mount client cs h found is = (
  record h { handler_mounts = insert mount (client ∷ remove_first client cs) h.handler_mounts },
  remove_first client cs,
  ground arith,
  rw (lookup-insert_self mount (client ∷ remove_first client cs) h.handler_mounts),
  remove_first-perm client cs is,
)

-- HandleClientLive neither panics nor waits.
pub handle_client_live-done :
    (mount : Str) (client : ℕ) (h : Handlers)
    → handle_client_live mount client h ≡ done tt (state_of (handle_client_live mount client h))
unfolding handle_client_live
handle_client_live-done mount client h = ground arith

-- It takes the lock from nobody and no mount out of the table.
pub handle_client_live-locked :
    (mount : Str) (client : ℕ) (h : Handlers)
    → (state_of (handle_client_live mount client h)).locked ≡ h.locked
unfolding handle_client_live
handle_client_live-locked mount client h = ground arith

pub handle_client_live-keeps :
    (mount key : Str) (client : ℕ) (cs : List ℕ) (h : Handlers)
    → lookup key h.handler_mounts ≡ some cs
    → (ds : List ℕ) × (lookup key (state_of (handle_client_live mount client h)).handler_mounts
        ≡ some ds)
unfolding handle_client_live
handle_client_live-keeps mount key client cs h found =
    elim (Option-cases (lookup mount h.handler_mounts)) [
      | inl e ↦ (cs, ground (arith, e))
      | inr (es, e) ↦ elim (Bool-cases (is_member client es)) [
        | inl is ↦ elim (Bool-cases (str_eq mount key)) [
          | inl same ↦ (
            client ∷ remove_first client es,
            ground (
              arith,
              e,
              is,
              same,
              lookup-insert mount key (client ∷ remove_first client es) h.handler_mounts,
            ),
          )
          | inr other ↦ (
            cs,
            ground (
              arith,
              e,
              is,
              other,
              lookup-insert mount key (client ∷ remove_first client es) h.handler_mounts,
            ),
          )
        ]
        | inr not ↦ (cs, ground (arith, e, not))
      ]
    ]
