-- ===== src/Gateway/Bridge/Replay.antt =====
-- session-bridge.ts: what the replay buffer holds during a run, and after a second message.
use swift_agent.Common.{
  ℕ, ◌-◌, String, Bool, true, false, ◌≡◌, refl, sym, ap, ◌∙◌, Option, none, some, List, [], ◌∷◌,
  ◌++◌, ltb, length, str_eq, eq_iff, eq_refl, arith, All, if◌then◌else◌, if_cases, get_key, set_key,
  get_key-set_same, get_key-delete_same, append_assoc, append-nil, length-append,
}
use swift_agent.Shared.{ChatEvent, Fault}
use swift_agent.Gateway.Bridge.{
  Bridge, ReplayBuffer, run_id_of, current_buffer, push_event, buffer_event, handle_cancel,
  request_cancel, on_event, on_events, on_settled, clear_replay_buffer, is_conflict, replay_events,
  replay_buffer,
}

-- `slice(0, n)`
abbrev pub take : ℕ → List ChatEvent → List ChatEvent
take n [] = []
take n (e ∷ es) = if ltb 0 n then e ∷ take (n - 1) es else []

abbrev pub OfRun : String → ChatEvent → Type 0
OfRun r e = str_eq (run_id_of e) r ≡ true

take-none : (n : ℕ) (es : List ChatEvent) → ltb 0 n ≡ false → take n es ≡ []
take-none n [] h = refl
take-none n (e ∷ es) h = rw h refl

take-step :
    (n k : ℕ) (e : ChatEvent) (es : List ChatEvent)
    → ltb 0 n ≡ true
    → n - 1 ≡ k
    → take n (e ∷ es) ≡ e ∷ take k es
take-step n k e es h q = rw h (ap (λ j. e ∷ take j es) q)

-- The buffer with the first events that still have room.
abbrev pub extended : ℕ → ReplayBuffer → List ChatEvent → ReplayBuffer
extended size b es = record b { events = b.events ++ take (size - length b.events) es }

extended-push :
    (size : ℕ) (e : ChatEvent) (b : ReplayBuffer) (es : List ChatEvent)
    → extended size (push_event size e b) es ≡ extended size b (e ∷ es)
extended-push size e b es =
    if_cases (λ p. extended size p es ≡ extended size b (e ∷ es)) (ltb (length b.events) size)
      (λ room.
        ap (λ evs. record b { events = evs })
          (append_assoc b.events (e ∷ []) _
            ∙ sym (
                ap (λ l. b.events ++ l)
                  (take-step (size - length b.events) (size - length (b.events ++ e ∷ [])) e es
                    (ground arith) (ground (arith, length-append b.events (e ∷ [])))))))
      (λ full.
        ap (λ l. record b { events = b.events ++ l })
          (take-none (size - length b.events) es (ground arith)
            ∙ sym (take-none (size - length b.events) (e ∷ es) (ground arith))))

push_event-run_id :
    (size : ℕ) (e : ChatEvent) (b : ReplayBuffer) → (push_event size e b).run_id ≡ b.run_id
push_event-run_id size e b =
    if_cases (λ (p : ReplayBuffer). p.run_id ≡ b.run_id) (ltb (length b.events) size)
      {x = record b { events = b.events ++ e ∷ [] }} {y = b} (λ room. refl) (λ full. refl)

current_buffer-run_id : (r : String) (o : Option ReplayBuffer) → (current_buffer r o).run_id ≡ r
current_buffer-run_id r none = refl
current_buffer-run_id r (some b) =
    if_cases (λ (p : ReplayBuffer). p.run_id ≡ r) (str_eq b.run_id r) {x = b}
      {y = record { run_id = r; events = [] }} (λ same. (eq_iff b.run_id r).0 same) (λ other. refl)

current_buffer-own : (r : String) (b : ReplayBuffer) → b.run_id ≡ r → current_buffer r (some b) ≡ b
current_buffer-own r b h = rw h (rw (eq_refl r) refl)

buffer_event-OfRun :
    (r sid : String) (e : ChatEvent) (b : Bridge)
    → OfRun r e
    → str_eq r "" ≡ false
    → buffer_event sid e b ≡ record b {
      replay_buffers =
          set_key sid
            (push_event b.max_replay_buffer_size e
              (current_buffer r (get_key sid b.replay_buffers)))
            b.replay_buffers;
    }
unfolding buffer_event
buffer_event-OfRun r sid e b own some_id = rw ((eq_iff (run_id_of e) r).0 own) (rw some_id refl)

module _ (sends : ℕ → Bool) (r sid : String) (named : str_eq r "" ≡ false) where
  pushed : ChatEvent → Bridge → ReplayBuffer
  pushed e b =
      push_event b.max_replay_buffer_size e (current_buffer r (get_key sid b.replay_buffers))

  on_event-size :
      (e : ChatEvent) (b : Bridge)
      → OfRun r e
      → (on_event sends sid e b).max_replay_buffer_size ≡ b.max_replay_buffer_size
  unfolding on_event
  on_event-size e b own =
      ap (λ (c : Bridge). c.max_replay_buffer_size) (buffer_event-OfRun r sid e b own named)

  on_event-buffer :
      (e : ChatEvent) (b : Bridge)
      → OfRun r e
      → get_key sid (on_event sends sid e b).replay_buffers ≡ some (pushed e b)
  unfolding on_event pushed
  on_event-buffer e b own =
      ap (λ (c : Bridge). get_key sid c.replay_buffers) (buffer_event-OfRun r sid e b own named)
      ∙ get_key-set_same sid (pushed e b) b.replay_buffers

  pushed-run_id : (e : ChatEvent) (b : Bridge) → (pushed e b).run_id ≡ r
  unfolding pushed
  pushed-run_id e b =
      push_event-run_id b.max_replay_buffer_size e _
      ∙ current_buffer-run_id r (get_key sid b.replay_buffers)

  -- While the events of a run reach the bridge, the buffer that stands for the run is the one it
  -- had, extended by the events in order until the buffer is full.
  pub on_events-buffer :
      (es : List ChatEvent) (b : Bridge)
      → All (OfRun r) es
      → current_buffer r (get_key sid (on_events sends sid es b).replay_buffers)
        ≡ extended b.max_replay_buffer_size (current_buffer r (get_key sid b.replay_buffers)) es
  unfolding on_events pushed
  on_events-buffer [] b h =
      ap (λ l. record (current_buffer r (get_key sid b.replay_buffers)) { events = l })
        (sym (append-nil _))
  on_events-buffer (e ∷ es) b (own, h) =
      let c = on_event sends sid e b in
      on_events-buffer es c h
      ∙ ap (λ n. extended n (current_buffer r (get_key sid c.replay_buffers)) es)
          (on_event-size e b own)
      ∙ ap (λ p. extended b.max_replay_buffer_size (current_buffer r p) es)
          (on_event-buffer e b own)
      ∙ ap (λ p. extended b.max_replay_buffer_size p es)
          (current_buffer-own r (pushed e b) (pushed-run_id e b))
      ∙ extended-push b.max_replay_buffer_size e (current_buffer r (get_key sid b.replay_buffers))
          es

-- However `runtime.start` settles, no buffer of the session is left.
on_settled-buffer :
    (sends : ℕ → Bool) (sid : String) (sender : ℕ) (emitted : Bool) (o : Option Fault) (b : Bridge)
    → get_key sid (on_settled sends sid sender emitted o b).replay_buffers ≡ none
unfolding on_settled clear_replay_buffer
on_settled-buffer sends sid sender emitted none b = get_key-delete_same sid b.replay_buffers
on_settled-buffer sends sid sender true (some err) b =
    let gone = get_key-delete_same sid b.replay_buffers in
    if_cases (λ (c : Bridge). get_key sid c.replay_buffers ≡ none) (is_conflict err.code)
      (λ conflict. gone) (λ other. gone)
on_settled-buffer sends sid sender false (some err) b =
    let gone = get_key-delete_same sid b.replay_buffers in
    if_cases (λ (c : Bridge). get_key sid c.replay_buffers ≡ none) (is_conflict err.code)
      (λ conflict. gone) (λ other. gone)

-- When a run is active and a second message of the session is refused because of it, the refusal
-- leaves the run without its buffer: a cancel before the next event asks the runtime for nothing,
-- though before the second message it asked for the run, and a reconnecting socket is sent nothing.
pub on_settled-loses_active_run :
    (sends : ℕ → Bool) (sid : String) (sender reconnecting : ℕ) (err : Fault)
    (buffer : ReplayBuffer) (b : Bridge)
    → get_key sid b.replay_buffers ≡ some buffer
    → str_eq buffer.run_id "" ≡ false
    → is_conflict err.code ≡ true
    → let c = on_settled sends sid sender false (some err) b in
      ((handle_cancel sid b).cancels ≡ b.cancels ++ buffer.run_id ∷ [])
      × (handle_cancel sid c ≡ c)
      × (replay_events sends sid reconnecting c ≡ (c, 0))
unfolding handle_cancel replay_events
on_settled-loses_active_run sends sid sender reconnecting err buffer b active named conflict =
    let gone = on_settled-buffer sends sid sender false (some err) b in
    let c = on_settled sends sid sender false (some err) b in
    (
      rw active (rw named refl),
      ap (λ o. request_cancel o c) gone,
      ap (λ o. replay_buffer sends sid reconnecting o c) gone,
    )
