-- ===== src/Tests/Sockets.antt =====
-- Two sockets of one session, and the theorems of the gateway on them.
use swift_agent.Common.{
  ℕ, ◌≡◌, refl, List, [], ◌∷◌, ◌++◌, none, some, Bool, true, false, ltb, get_key, set_key,
  delete_key,
}
use swift_agent.Shared.{ChatEvent, Fault}
use swift_agent.Gateway.Connections.{
  chat, broadcast, get_connections, no_connections, Manager, add, remove, send_each, safe_send,
  add_socket, delete_socket,
}
use swift_agent.Gateway.Connections.Delivery.{
  Call, adds, removes, broadcasts, call, calls, calls-NoEmptySession, copies, NoEmptySession,
  none_listed, broadcast-delivers,
}
use swift_agent.Gateway.Channels.{channel, ref_count}
use swift_agent.Gateway.Channels.Refs.{
  Use, acquires, releases, use_all, held, as_subscription, no_channels, use_all-ref_count,
}
use swift_agent.Gateway.Bridge.{
  Bridge, current_buffer, on_events, on_settled, handle_cancel, replay_events,
}
use swift_agent.Gateway.Bridge.Replay.{extended, on_events-buffer, on_settled-loses_active_run}
use swift_agent.Gateway.Heartbeat.{Socket, timeout, send_ping, beats}
use swift_agent.Gateway.Heartbeat.Liveness.{send_ping-terminates_silent}

-- Socket 2 is dead.
abbrev sends : ℕ → Bool
sends ws = ltb ws 2

abbrev first_event : ChatEvent
first_event = ChatEvent.message_started "u" "r" "s"

abbrev tabs : List Call
tabs =
    adds "s" 1
    ∷ adds "s" 2
    ∷ adds "t" 2
    ∷ adds "t" 1
    ∷ removes "t" 1
    ∷ broadcasts "t" first_event
    ∷ adds "s" 0
    ∷ []

-- Session s has the sockets 1, 2 and 0; session t has lost its only one.
abbrev connected : Manager
connected = calls sends tabs no_connections

connected-sockets : get_connections "s" connected ≡ 1 ∷ 2 ∷ 0 ∷ []
unfolding get_connections calls call add remove broadcast send_each safe_send get_key set_key
    delete_key add_socket delete_socket
connected-sockets = refl

broadcast-delivers_example :
    ((broadcast sends "s" first_event connected).delivered
      ≡ connected.delivered ++ copies sends (chat first_event) (get_connections "s" connected))
    × NoEmptySession (broadcast sends "s" first_event connected)
broadcast-delivers_example =
    broadcast-delivers sends "s" first_event connected
      (calls-NoEmptySession sends tabs no_connections none_listed)

abbrev uses : List Use
uses = acquires "s" ∷ acquires "s" ∷ acquires "t" ∷ releases "s" ∷ []

use_all-ref_count_example :
    (ref_count "s" (use_all uses (no_channels "i")) ≡ held "s" uses 0)
    × (get_key (channel "s") (use_all uses (no_channels "i")).subscribed
        ≡ as_subscription (held "s" uses 0))
use_all-ref_count_example = use_all-ref_count "i" "s" uses

abbrev active : Bridge
active = record {
  connections = no_connections;
  channels = no_channels "i";
  max_replay_buffer_size = 1;
  replay_buffers = ("s", record { run_id = "r"; events = [] }) ∷ [];
  cancels = [];
}

abbrev two_events : List ChatEvent
two_events = first_event ∷ ChatEvent.token "r" "s" "a" "hi" ∷ []

on_events-buffer_example :
    current_buffer "r" (get_key "s" (on_events sends "s" two_events active).replay_buffers)
    ≡ extended 1 (current_buffer "r" (get_key "s" active.replay_buffers)) two_events
on_events-buffer_example = on_events-buffer sends "r" "s" refl two_events active (refl, (refl, tt))

abbrev conflict : Fault
conflict = record { code = some "CONFLICT"; message = "busy"; scope = none }

has_buffer : get_key "s" active.replay_buffers ≡ some record { run_id = "r"; events = [] }
unfolding get_key
has_buffer = refl

on_settled-loses_active_run_example :
    let c = on_settled sends "s" 1 false (some conflict) active in
    ((handle_cancel "s" active).cancels ≡ "r" ∷ [])
    × (handle_cancel "s" c ≡ c)
    × (replay_events sends "s" 2 c ≡ (c, 0))
on_settled-loses_active_run_example =
    on_settled-loses_active_run sends "s" 1 2 conflict record { run_id = "r"; events = [] } active
      has_buffer refl refl

abbrev monitored : Socket
monitored = record {
  entry = some record { alive = true; timeout_at = none };
  terminated = false;
  pinged = 0;
}

send_ping-terminates_silent_example :
    (send_ping 30 30 true (beats 30 (timeout ∷ []) (send_ping 30 15 true monitored))).terminated
    ≡ true
send_ping-terminates_silent_example =
    send_ping-terminates_silent 30 15 30 true true record { alive = true; timeout_at = none }
      (timeout ∷ []) monitored refl refl
