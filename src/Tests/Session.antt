-- ===== src/Tests/Session.antt =====
-- A session that two runs want, a history of three messages, an address, and the theorems on them.
use swift_agent.Common.{String, ◌≡◌, refl, List, [], ◌∷◌, none, false, inl, arith, get_key}
use swift_agent.Runtime.Loop.Defs.{MessageRecord, MessageRole, system, user, assistant}
use swift_agent.Runtime.SessionLock.{no_locks, conflict, acquire, is_active}
use swift_agent.Runtime.SessionLock.Exclusion.{acquires, releases, lock_calls, acquire-excludes}
use swift_agent.Runtime.Ssrf.{ipv4_to_int, is_disallowed_v4}
use swift_agent.Runtime.Ssrf.Octets.{is_reserved, is_disallowed_v4-address}

free : is_active "s" no_locks ≡ false
unfolding is_active get_key
free = refl

acquire-excludes_example :
    acquire "s" "q"
      (lock_calls (acquires "t" "p" ∷ releases "s" "q" ∷ []) (acquire "s" "r" no_locks).1)
    ≡ (
      inl (conflict "s" "r"),
      lock_calls (acquires "t" "p" ∷ releases "s" "q" ∷ []) (acquire "s" "r" no_locks).1,
    )
acquire-excludes_example =
    acquire-excludes "s" "r" "q" (acquires "t" "p" ∷ releases "s" "q" ∷ []) no_locks free
      (tt, (refl, tt))

abbrev message : MessageRole → String → MessageRecord
message role content = record {
  message_id = content;
  session_id = "s";
  run_id = none;
  role = role;
  content = content;
}

abbrev history : List MessageRecord
history = message system "be brief" ∷ message user "2 + 2" ∷ message assistant "4" ∷ []

-- 169.254.169.254
is_disallowed_v4-address_example :
    is_disallowed_v4 (ipv4_to_int 169 254 169 254) ≡ is_reserved 169 254
is_disallowed_v4-address_example =
    is_disallowed_v4-address 169 254 169 254 (omega arith) (omega arith) (omega arith) (omega arith)
