-- ===== src/Runtime/Memory.antt =====
-- packages/runtime/src/memory/last-n.ts: the messages of the context that a run is given.
pub mod Window
use swift_agent.Common.{
  ℕ, zero, suc, ◌-◌, Bool, true, false, not, List, [], ◌∷◌, length, keep, leb, ◌==◌, if◌then◌else◌,
}
use swift_agent.Runtime.Loop.Defs.{MessageRecord, MessageRole, system}

abbrev pub is_system : MessageRole → Bool
is_system system = true
is_system _ = false

abbrev pub drop : ℕ → List MessageRecord → List MessageRecord
drop zero xs = xs
drop (suc n) [] = []
drop (suc n) (x ∷ xs) = drop n xs

-- `slice(-n)`: `slice(-0)` is `slice(0)`, the whole list.
unfoldable pub slice_last : ℕ → List MessageRecord → List MessageRecord
slice_last n xs = if n == 0 then xs else drop (length xs - n) xs

abbrev pub non_system : List MessageRecord → List MessageRecord
non_system = keep λ (m : MessageRecord). not (is_system m.role)

-- `trim`
unfoldable pub trim : ℕ → List MessageRecord → List MessageRecord
unfolding slice_last
trim max_messages messages =
    if leb (length (non_system messages)) max_messages
    then non_system messages
    else slice_last max_messages (non_system messages)
