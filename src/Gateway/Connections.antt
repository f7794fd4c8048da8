-- ===== src/Gateway/Connections.antt =====
-- packages/gateway/src/connection-manager.ts: the sockets of each session. A socket is a number;
-- the network is a parameter: it says whether a socket is open and its `send` does not throw. The
-- frames that reach a socket are logged.
pub mod Delivery
use swift_agent.Common.{
  ℕ, ◌+◌, String, Bool, true, false, ◌==◌, ltb, not, Option, none, some, List, [], ◌∷◌, ◌++◌,
  length, if◌then◌else◌, get_key, set_key, delete_key,
}
use swift_agent.Shared.{ChatEvent}

-- events.ts: a serialized chat event, or an error event with its code and message.
pub data Frame : Type 0 where
  chat : ChatEvent → Frame
  error_event : String → String → Frame

pub record Manager : Type 0 where
  pub sessions : List (String × List ℕ)
  pub delivered : List (ℕ × Frame)

abbrev pub no_connections : Manager
no_connections = record { sessions = []; delivered = [] }

-- `Set.add` and `Set.delete`
unfoldable pub add_socket : ℕ → List ℕ → List ℕ
add_socket ws [] = ws ∷ []
add_socket ws (x ∷ xs) = if x == ws then x ∷ xs else x ∷ add_socket ws xs

unfoldable pub delete_socket : ℕ → List ℕ → List ℕ
delete_socket ws [] = []
delete_socket ws (x ∷ xs) = if x == ws then delete_socket ws xs else x ∷ delete_socket ws xs

abbrev pub sockets_or_empty : Option (List ℕ) → List ℕ
sockets_or_empty none = []
sockets_or_empty (some xs) = xs

-- `getConnections`
unfoldable pub get_connections : String → Manager → List ℕ
get_connections sid m = sockets_or_empty (get_key sid m.sessions)

-- `add`
unfoldable pub add : String → ℕ → Manager → Manager
unfolding get_connections
add sid ws m = record m {
  sessions = set_key sid (add_socket ws (get_connections sid m)) m.sessions;
}

-- A session whose set is empty is deleted.
abbrev pub put_or_delete : String → List ℕ → Manager → Manager
put_or_delete sid [] m = record m { sessions = delete_key sid m.sessions }
put_or_delete sid (x ∷ xs) m = record m { sessions = set_key sid (x ∷ xs) m.sessions }

abbrev pub remove_from : String → ℕ → Option (List ℕ) → Manager → Manager
remove_from sid ws none m = m
remove_from sid ws (some sockets) m = put_or_delete sid (delete_socket ws sockets) m

-- `remove`
unfoldable pub remove : String → ℕ → Manager → Manager
remove sid ws m = remove_from sid ws (get_key sid m.sessions) m

-- `isConnected`
unfoldable pub is_connected : String → Manager → Bool
unfolding get_connections
is_connected sid m = ltb 0 (length (get_connections sid m))

-- `connectionCount` and `sessionCount`
abbrev pub total : List (String × List ℕ) → ℕ
total [] = 0
total ((k, xs) ∷ rest) = length xs + total rest

unfoldable pub connection_count : Manager → ℕ
connection_count m = total m.sessions

unfoldable pub session_count : Manager → ℕ
session_count m = length m.sessions

-- `closeAll`, less the close frames: both the sets and the map are cleared.
unfoldable pub close_all : Manager → Manager
close_all m = record m { sessions = [] }

module _ (sends : ℕ → Bool) where
  -- `safeSend`, and with it `sendTo` and `sendError`
  unfoldable pub safe_send : String → ℕ → Frame → Manager → Manager
  unfolding remove
  safe_send sid ws data_ m =
      if sends ws then record m { delivered = m.delivered ++ (ws, data_) ∷ [] } else remove sid ws m

  -- The loop of `broadcast` over the sockets of the set.
  unfoldable pub send_each : String → Frame → List ℕ → Manager → Manager
  unfolding safe_send
  send_each sid data_ [] m = m
  send_each sid data_ (ws ∷ rest) m = send_each sid data_ rest (safe_send sid ws data_ m)

  -- `broadcast`
  unfoldable pub broadcast : String → ChatEvent → Manager → Manager
  unfolding send_each get_connections
  broadcast sid e m = send_each sid (chat e) (get_connections sid m) m
