-- ===== src/Runtime/Loop/Walk.antt =====
-- One walk through the loop: a condition on the state that every small update keeps is kept by all
-- of the loop up to its terminal write.
use swift_agent.Common.{
  ℕ, zero, suc, ◌+◌, String, Bool, true, false, ◌≡◌, refl, List, [], ◌∷◌, ◌++◌, Option, none, some,
}
use swift_agent.Json.{Json, str}
use swift_agent.Shared.{
  ChatEvent, Fault, ToolCallStatus, completed, failed, token, tool_call_started,
  tool_call_completed, message_started, message_completed, run_failed,
}
use swift_agent.Db.ToolCalls.{is_started}
use swift_agent.Runtime.Exec.Rules.{
  Keeps, Keeps-modify, Keeps-gets, Keeps-bind, Keeps-pure, Keeps-throw, Keeps-catch, Keeps-if,
}
use swift_agent.Runtime.Loop.Defs.{
  refused, World, LoopState, M, db, write_or_throw, emit, resume, deliver, tick, clock, generate_id,
  create_message, append_message, MessageRecord, PreparedCall, ToolCallChunk, Usage, Chunk,
  tool_call, finish, ToolCallResult, success, failure,
}
use swift_agent.Runtime.Loop.Defs
use swift_agent.Runtime.Loop.Model.{
  throw_if_aborted, raise_if, handle_chunk, throw_if_some, consume, note_deadline, on_model_error,
  model_call,
}
use swift_agent.Runtime.Loop.Calls.{
  create_call, prepare, open_call, close_call, reject, record_result, execute_call, verdict, gate,
  handle_call, handle_calls, tool_round,
}
use swift_agent.Runtime.Loop.Run.{create_run, prologue, after_model, round_if, rounds, persist_text}

-- The two events that end a run.
abbrev pub is_terminal : ChatEvent → Bool
is_terminal (message_completed message_id run_id session_id) = true
is_terminal (run_failed run_id session_id code message) = true
is_terminal (message_started message_id run_id session_id) = false
is_terminal (token run_id session_id message_id text) = false
is_terminal (tool_call_started call_id run_id session_id tool_name) = false
is_terminal (tool_call_completed call_id run_id session_id tool_name status) = false

pub record Stable (w : World) (P : LoopState → Type 0) : Type 0 where
  pub ticks : (s : LoopState) → P s → P (tick s)
  pub delivers : (e : ChatEvent) (s : LoopState) → is_terminal e ≡ false → P s → P (deliver e s)
  pub appends : (m : MessageRecord) (s : LoopState) → P s → P (append_message m s)
  pub texts : (t : String) (s : LoopState) → P s → P (record s { assistant_text = t })
  pub usages : (u : Usage) (s : LoopState) → P s → P (record s { last_usage = u })
  pub collects : (c : List ToolCallChunk) (s : LoopState) → P s → P (record s { chunks = c })
  pub counts : (s : LoopState) → P s → P (record s { iteration_count = s.iteration_count + 1 })
  pub deadlines : (f : Fault) (s : LoopState) → P s → P (record s { deadline_hit = some f })
  pub creates : (s : LoopState) → P s → P (create_run w s)
  pub opens : (p : PreparedCall) (input : Json) (s : LoopState) → P s → P (open_call w p input s)
  pub closes :
      (p : PreparedCall) (output : Json) (to : ToolCallStatus) (s : LoopState)
      → is_started to ≡ false
      → P s
      → P (close_call w p output to s)
  pub executes :
      (p : PreparedCall) (s : LoopState)
      → verdict w p ≡ none
      → P s
      → P (record s { executed = s.executed ++ p ∷ [] })

module _ (w : World) (P : LoopState → Type 0) (st : Stable w P) where
  write_keeps :
      (f : LoopState → LoopState) (o : Option Fault) (s : LoopState)
      → ((s : LoopState) → P s → P (f s))
      → P s
      → P (write_or_throw f o s).1
  write_keeps f none s k p = k s p
  write_keeps f (some e) s k p = p

  pub Keeps-db : (f : LoopState → LoopState) → ((s : LoopState) → P s → P (f s)) → Keeps P (db w f)
  unfolding db
  Keeps-db f k = record { at = λ s p. write_keeps f _ _ k (st.ticks s p) }

  resume_keeps : (b : Bool) (s : LoopState) → P s → P (resume b s).1
  resume_keeps true s p = p
  resume_keeps false s p = p

  pub Keeps-emit : (e : ChatEvent) → is_terminal e ≡ false → Keeps P (emit w e)
  unfolding emit
  Keeps-emit e t = record { at = λ s p. resume_keeps _ _ (st.delivers e s t p) }

  pub Keeps-clock : Keeps P (clock w)
  unfolding clock
  Keeps-clock = record { at = st.ticks }

  pub Keeps-generate_id : Keeps P (generate_id w)
  unfolding generate_id
  Keeps-generate_id = record { at = st.ticks }

  pub Keeps-create_message :
      (id : String) (role : Defs.MessageRole) (content : String)
      → Keeps P (create_message w id role content)
  unfolding create_message
  Keeps-create_message id role content = Keeps-db _ (st.appends _)

  raise_keeps : (o : Option Fault) (s : LoopState) → P s → P (raise_if o s).1
  raise_keeps none s p = p
  raise_keeps (some f) s p = p

  pub Keeps-throw_if_aborted : Keeps P (throw_if_aborted w)
  unfolding throw_if_aborted
  Keeps-throw_if_aborted = record { at = λ s p. raise_keeps _ _ (st.ticks s p) }

  pub Keeps-throw_if_some : (o : Option Fault) → Keeps P (throw_if_some o)
  Keeps-throw_if_some none = Keeps-pure tt
  Keeps-throw_if_some (some f) = Keeps-throw f

  note_keeps : (o : Option Fault) (s : LoopState) → P s → P (note_deadline o s)
  note_keeps none s p = p
  note_keeps (some f) s p = st.deadlines f s p

  Keeps-handle_chunk : (id : String) (c : Chunk) → Keeps P (handle_chunk w id c)
  unfolding handle_chunk
  Keeps-handle_chunk id (Chunk.token text) =
      Keeps-bind _ _ (Keeps-modify _ (λ s. st.texts _ s)) (λ _. Keeps-emit _ refl)
  Keeps-handle_chunk id (tool_call chunk) = Keeps-modify _ (λ s. st.collects _ s)
  Keeps-handle_chunk id (finish usage) = Keeps-modify _ (λ s. st.usages _ s)

  pub Keeps-consume :
      (id : String) (cs : List Chunk) (ending : Option Fault) → Keeps P (consume w id cs ending)
  unfolding consume
  Keeps-consume id [] ending = Keeps-throw_if_some ending
  Keeps-consume id (c ∷ cs) ending =
      Keeps-bind _ _ Keeps-throw_if_aborted
        λ _. Keeps-bind _ _ (Keeps-handle_chunk id c) λ _. Keeps-consume id cs ending

  pub Keeps-on_model_error : (armed : ℕ) (error : Fault) → Keeps P (on_model_error w armed error)
  unfolding on_model_error
  Keeps-on_model_error armed error =
      Keeps-bind _ _ Keeps-clock
        λ _. Keeps-bind _ _ (Keeps-modify _ (note_keeps _)) λ _. Keeps-throw error

  pub Keeps-model_call :
      ((s : LoopState) → P s → P (record s { requests = s.requests + 1 }))
      → (id : String) → Keeps P (model_call w id)
  unfolding model_call
  Keeps-model_call request id = Keeps-bind _ _ (Keeps-db _ (st.collects [])) λ _.
      Keeps-bind _ _ (Keeps-throw_if_some _) λ _. Keeps-bind _ _ (Keeps-gets _) λ stream.
        Keeps-bind _ _ (Keeps-modify _ request) λ _.
          Keeps-bind _ _ Keeps-clock
            λ armed. Keeps-catch _ _ (Keeps-consume id _ _) (Keeps-on_model_error armed)

  pub Keeps-prepare : (tcs : List ToolCallChunk) → Keeps P (prepare w tcs)
  unfolding prepare
  Keeps-prepare [] = Keeps-pure []
  Keeps-prepare (tc ∷ tcs) =
      Keeps-bind _ _ Keeps-generate_id λ _. Keeps-bind _ _ (Keeps-prepare tcs) λ _. Keeps-pure _

  Keeps-record_result : (p : PreparedCall) (r : ToolCallResult) → Keeps P (record_result w p r)
  unfolding record_result
  Keeps-record_result p (success output) =
      Keeps-bind _ _ (Keeps-db _ (λ s. st.closes p output completed s refl)) λ _. Keeps-pure _
  Keeps-record_result p (failure error) =
      Keeps-bind _ _ (Keeps-db _ (λ s. st.closes p (str error) failed s refl)) λ _. Keeps-pure _

  Keeps-execute_call : (p : PreparedCall) → verdict w p ≡ none → Keeps P (execute_call w p)
  unfolding execute_call
  Keeps-execute_call p valid = Keeps-bind _ _ Keeps-clock λ _.
      Keeps-bind _ _ (Keeps-gets _) λ result.
        Keeps-bind _ _ (Keeps-modify _ (λ s. st.executes p s valid)) λ _.
          Keeps-bind _ _ Keeps-clock λ _.
            Keeps-bind _ _ (Keeps-record_result p result)
              λ _. Keeps-bind _ _ (Keeps-modify _ (note_keeps _)) λ _. Keeps-pure _

  Keeps-gate : (p : PreparedCall) (v : Option _) → verdict w p ≡ v → Keeps P (gate w p v)
  unfolding gate reject
  Keeps-gate p (some e) v =
      Keeps-bind _ _ (Keeps-db _ (λ s. st.closes p _ failed s refl)) λ _. Keeps-pure _
  Keeps-gate p none v = Keeps-execute_call p v

  Keeps-create_call : (p : PreparedCall) (o : Option Json) → Keeps P (create_call w p o)
  unfolding create_call refused
  Keeps-create_call p none = record { at = λ s h. st.ticks s h }
  Keeps-create_call p (some input) = Keeps-db _ (st.opens p input)

  Keeps-handle_call : (p : PreparedCall) → Keeps P (handle_call w p)
  unfolding handle_call
  Keeps-handle_call p = Keeps-bind _ _ (Keeps-emit _ refl) λ _.
      Keeps-bind _ _ (Keeps-create_call p p.arguments) λ _.
        Keeps-bind _ _ (Keeps-gate p _ refl) λ (status, text).
          Keeps-bind _ _ (Keeps-emit _ refl) λ _. Keeps-bind _ _ Keeps-generate_id λ id.
            Keeps-bind _ _ (Keeps-create_message id _ _)
              λ _. Keeps-bind _ _ (Keeps-gets _) λ hit. Keeps-throw_if_some hit

  pub Keeps-handle_calls : (ps : List PreparedCall) → Keeps P (handle_calls w ps)
  unfolding handle_calls
  Keeps-handle_calls [] = Keeps-pure tt
  Keeps-handle_calls (p ∷ ps) = Keeps-bind _ _ (Keeps-handle_call p) λ _. Keeps-handle_calls ps

  pub Keeps-tool_round : (chunks : List ToolCallChunk) → Keeps P (tool_round w chunks)
  unfolding tool_round
  Keeps-tool_round chunks = Keeps-bind _ _ (Keeps-prepare chunks) λ calls.
      Keeps-bind _ _ Keeps-generate_id λ id. Keeps-bind _ _ (Keeps-gets _) λ text.
        Keeps-bind _ _ (Keeps-create_message id _ _) λ _.
          Keeps-bind _ _ (Keeps-modify _ (st.texts ""))
            λ _. Keeps-bind _ _ (Keeps-handle_calls calls) λ _. Keeps-modify _ st.counts

  pub Keeps-prologue :
      (prepared : Option String) (content : String) → Keeps P (prologue w prepared content)
  unfolding prologue
  Keeps-prologue (some id) content = Keeps-emit _ refl
  Keeps-prologue none content = Keeps-bind _ _ Keeps-generate_id λ id.
      Keeps-bind _ _ (Keeps-create_message id _ _)
        λ _. Keeps-bind _ _ (Keeps-emit _ refl) λ _. Keeps-db _ st.creates

  Keeps-after_model :
      (again : M (Unit {0})) (cs : List ToolCallChunk)
      → Keeps P again
      → Keeps P (after_model w again cs)
  unfolding after_model
  Keeps-after_model again [] k = Keeps-pure tt
  Keeps-after_model again (c ∷ cs) k = Keeps-bind _ _ (Keeps-tool_round (c ∷ cs)) λ _. k

  Keeps-round_if :
      ((s : LoopState) → P s → P (record s { requests = s.requests + 1 }))
      → (id : String) (again : M (Unit {0})) (more : Bool) → Keeps P again
      → Keeps P (round_if w id again more)
  unfolding round_if
  Keeps-round_if request id again false k = Keeps-pure tt
  Keeps-round_if request id again true k = Keeps-bind _ _ Keeps-throw_if_aborted λ _.
      Keeps-bind _ _ (Keeps-model_call request id)
        λ _. Keeps-bind _ _ (Keeps-gets _) λ chunks. Keeps-after_model again chunks k

  pub Keeps-rounds :
      ((s : LoopState) → P s → P (record s { requests = s.requests + 1 }))
      → (id : String) (fuel : ℕ) → Keeps P (rounds w id fuel)
  unfolding rounds
  Keeps-rounds request id zero = Keeps-pure tt
  Keeps-rounds request id (suc fuel) =
      Keeps-bind _ _ (Keeps-gets _)
        λ more. Keeps-round_if request id _ more (Keeps-rounds request id fuel)

  pub Keeps-persist_text : (id text : String) → Keeps P (persist_text w id text)
  unfolding persist_text
  Keeps-persist_text id text = Keeps-if _ _ _ (Keeps-pure tt) (Keeps-create_message id _ text)
