-- ===== src/Gateway/Connections/Delivery.antt =====
-- connection-manager.ts: what a broadcast delivers, and when a session is listed.
use swift_agent.Common.{
  ℕ, String, Bool, true, false, ◌≡◌, refl, sym, ap, ◌∙◌, Option, none, some, List, [], ◌∷◌, ◌++◌,
  arith, if_cases, if◌then◌else◌, get_key, set_key, delete_key, get_key-set_same, inl, inr, subst,
  get_key-nil, eq_iff, get_key-set_other, get_key-delete_same, get_key-delete_other, append_assoc,
  append-nil, str_eq, Bool-cases, ◌==◌, ltb, length,
}
use swift_agent.Shared.{ChatEvent}
use swift_agent.Gateway.Connections.{
  Manager, Frame, chat, add, remove, remove_from, put_or_delete, safe_send, send_each, broadcast,
  get_connections, add_socket, delete_socket, sockets_or_empty, is_connected, no_connections,
}

-- A frame for each socket whose send succeeds.
abbrev pub copies : (ℕ → Bool) → Frame → List ℕ → List (ℕ × Frame)
copies sends f [] = []
copies sends f (ws ∷ rest) = if sends ws then (ws, f) ∷ copies sends f rest else copies sends f rest

put_or_delete-delivered :
    (sid : String) (xs : List ℕ) (m : Manager) → (put_or_delete sid xs m).delivered ≡ m.delivered
put_or_delete-delivered sid [] m = refl
put_or_delete-delivered sid (x ∷ xs) m = refl

remove_from-delivered :
    (sid : String) (ws : ℕ) (o : Option (List ℕ)) (m : Manager)
    → (remove_from sid ws o m).delivered ≡ m.delivered
remove_from-delivered sid ws none m = refl
remove_from-delivered sid ws (some xs) m = put_or_delete-delivered sid (delete_socket ws xs) m

remove-delivered : (sid : String) (ws : ℕ) (m : Manager) → (remove sid ws m).delivered ≡ m.delivered
unfolding remove
remove-delivered sid ws m = remove_from-delivered sid ws (get_key sid m.sessions) m

module _ (sends : ℕ → Bool) where
  safe_send-then :
      (sid : String) (ws : ℕ) (f : Frame) (m : Manager) (rest : List (ℕ × Frame))
      → (safe_send sends sid ws f m).delivered ++ rest
        ≡ m.delivered ++ (if sends ws then (ws, f) ∷ rest else rest)
  unfolding safe_send
  safe_send-then sid ws f m rest = elim (Bool-cases (sends ws)) [
    | inl ok ↦ rw ok (append_assoc m.delivered ((ws, f) ∷ []) rest)
    | inr dead ↦ rw dead (ap (λ d. d ++ rest) (remove-delivered sid ws m))
  ]

  pub send_each-delivered :
      (sid : String) (f : Frame) (xs : List ℕ) (m : Manager)
      → (send_each sends sid f xs m).delivered ≡ m.delivered ++ copies sends f xs
  unfolding send_each
  send_each-delivered sid f [] m = sym (append-nil m.delivered)
  send_each-delivered sid f (ws ∷ rest) m =
      send_each-delivered sid f rest (safe_send sends sid ws f m)
      ∙ safe_send-then sid ws f m (copies sends f rest)

-- Every listed session has a socket.
abbrev HasSocket : Option (List ℕ) → Type 0
HasSocket none = Unit
HasSocket (some []) = ⊥
HasSocket (some (x ∷ xs)) = Unit

abbrev pub NoEmptySession : Manager → Type 0
NoEmptySession m = (sid : String) → HasSocket (get_key sid m.sessions)

set-HasSocket :
    (sid : String) (x : ℕ) (xs : List ℕ) (m : Manager)
    → NoEmptySession m
    → NoEmptySession (record m { sessions = set_key sid (x ∷ xs) m.sessions })
set-HasSocket sid x xs m h key = elim (Bool-cases (str_eq sid key)) [
  | inl same ↦
      subst (λ k. HasSocket (get_key k (set_key sid (x ∷ xs) m.sessions))) ((eq_iff sid key).0 same)
        (subst HasSocket (sym (get_key-set_same sid (x ∷ xs) m.sessions)) tt)
  | inr other ↦ subst HasSocket (sym (get_key-set_other key sid (x ∷ xs) m.sessions other)) (h key)
]

delete-HasSocket :
    (sid : String) (m : Manager)
    → NoEmptySession m
    → NoEmptySession (record m { sessions = delete_key sid m.sessions })
delete-HasSocket sid m h key = elim (Bool-cases (str_eq sid key)) [
  | inl same ↦
      subst (λ k. HasSocket (get_key k (delete_key sid m.sessions))) ((eq_iff sid key).0 same)
        (subst HasSocket (sym (get_key-delete_same sid m.sessions)) tt)
  | inr other ↦ subst HasSocket (sym (get_key-delete_other key sid m.sessions other)) (h key)
]

put_or_delete-NoEmptySession :
    (sid : String) (xs : List ℕ) (m : Manager)
    → NoEmptySession m
    → NoEmptySession (put_or_delete sid xs m)
put_or_delete-NoEmptySession sid [] m h = delete-HasSocket sid m h
put_or_delete-NoEmptySession sid (x ∷ xs) m h = set-HasSocket sid x xs m h

remove_from-NoEmptySession :
    (sid : String) (ws : ℕ) (o : Option (List ℕ)) (m : Manager)
    → NoEmptySession m
    → NoEmptySession (remove_from sid ws o m)
remove_from-NoEmptySession sid ws none m h = h
remove_from-NoEmptySession sid ws (some xs) m h =
    put_or_delete-NoEmptySession sid (delete_socket ws xs) m h

remove-NoEmptySession :
    (sid : String) (ws : ℕ) (m : Manager) → NoEmptySession m → NoEmptySession (remove sid ws m)
unfolding remove
remove-NoEmptySession sid ws m h = remove_from-NoEmptySession sid ws (get_key sid m.sessions) m h

add_socket-cons : (ws : ℕ) (xs : List ℕ) → (x : ℕ) × (ys : List ℕ) × (add_socket ws xs ≡ x ∷ ys)
unfolding add_socket
add_socket-cons ws [] = (ws, [], refl)
add_socket-cons ws (x ∷ xs) = elim (Bool-cases (x == ws)) [
  | inl e ↦ (x, xs, rw e refl)
  | inr n ↦ (x, add_socket ws xs, rw n refl)
]

add-NoEmptySession :
    (sid : String) (ws : ℕ) (m : Manager) → NoEmptySession m → NoEmptySession (add sid ws m)
unfolding add
add-NoEmptySession sid ws m h =
    let (x, ys, e) = add_socket-cons ws (get_connections sid m) in
    subst (λ zs. NoEmptySession (record m { sessions = set_key sid zs m.sessions })) (sym e)
      (set-HasSocket sid x ys m h)

module _ (sends : ℕ → Bool) where
  safe_send-NoEmptySession :
      (sid : String) (ws : ℕ) (f : Frame) (m : Manager)
      → NoEmptySession m
      → NoEmptySession (safe_send sends sid ws f m)
  unfolding safe_send
  safe_send-NoEmptySession sid ws f m h =
      if_cases NoEmptySession (sends ws) {x = record m { delivered = m.delivered ++ (ws, f) ∷ [] }}
        {y = remove sid ws m} (λ ok. h) (λ dead. remove-NoEmptySession sid ws m h)

  send_each-NoEmptySession :
      (sid : String) (f : Frame) (xs : List ℕ) (m : Manager)
      → NoEmptySession m
      → NoEmptySession (send_each sends sid f xs m)
  unfolding send_each
  send_each-NoEmptySession sid f [] m h = h
  send_each-NoEmptySession sid f (ws ∷ rest) m h =
      send_each-NoEmptySession sid f rest (safe_send sends sid ws f m)
        (safe_send-NoEmptySession sid ws f m h)

  -- A broadcast delivers the event once to each socket of the session whose send succeeds, in the
  -- set's order, and to no other socket; and if every listed session had a socket, every session
  -- that is still listed has one.
  pub broadcast-delivers :
      (sid : String) (e : ChatEvent) (m : Manager)
      → NoEmptySession m
      → ((broadcast sends sid e m).delivered
          ≡ m.delivered ++ copies sends (chat e) (get_connections sid m))
        × NoEmptySession (broadcast sends sid e m)
  unfolding broadcast
  broadcast-delivers sid e m h = (
    send_each-delivered sends sid (chat e) (get_connections sid m) m,
    send_each-NoEmptySession sid (chat e) (get_connections sid m) m h,
  )

-- The calls of the manager.
pub data Call : Type 0 where
  adds removes : String → ℕ → Call
  broadcasts : String → ChatEvent → Call

unfoldable pub call : (ℕ → Bool) → Call → Manager → Manager
call sends (adds sid ws) m = add sid ws m
call sends (removes sid ws) m = remove sid ws m
call sends (broadcasts sid e) m = broadcast sends sid e m

unfoldable pub calls : (ℕ → Bool) → List Call → Manager → Manager
unfolding call
calls sends [] m = m
calls sends (c ∷ cs) m = calls sends cs (call sends c m)

pub calls-NoEmptySession :
    (sends : ℕ → Bool) (cs : List Call) (m : Manager)
    → NoEmptySession m
    → NoEmptySession (calls sends cs m)
unfolding calls call
calls-NoEmptySession sends [] m h = h
calls-NoEmptySession sends (adds sid ws ∷ cs) m h =
    calls-NoEmptySession sends cs _ (add-NoEmptySession sid ws m h)
calls-NoEmptySession sends (removes sid ws ∷ cs) m h =
    calls-NoEmptySession sends cs _ (remove-NoEmptySession sid ws m h)
calls-NoEmptySession sends (broadcasts sid e ∷ cs) m h =
    calls-NoEmptySession sends cs _ (broadcast-delivers sends sid e m h).1

abbrev pub is_listed : Option (List ℕ) → Bool
is_listed none = false
is_listed (some xs) = true

listed-connected :
    (o : Option (List ℕ)) → HasSocket o → ltb 0 (length (sockets_or_empty o)) ≡ is_listed o
listed-connected none h = ground arith
listed-connected (some []) h = absurd h
listed-connected (some (x ∷ xs)) h = ground arith

pub none_listed : NoEmptySession no_connections
none_listed key = subst HasSocket (sym (get_key-nil key)) tt

-- After any additions, removals and broadcasts on a manager that starts empty, a session is
-- connected exactly if it is listed: no empty set stays behind.
pub calls-is_connected :
    (sends : ℕ → Bool) (cs : List Call) (sid : String)
    → let m = calls sends cs no_connections in
      is_connected sid m ≡ is_listed (get_key sid m.sessions)
unfolding is_connected get_connections
calls-is_connected sends cs sid =
    listed-connected _ (calls-NoEmptySession sends cs no_connections none_listed sid)
