-- ===== src/React/State/Streaming.antt =====
-- state.ts over the events of one answer: message_started, its tokens, message_completed.
use swift_agent.Common.{
  String, false, ◌≡◌, refl, sym, ap, ◌∙◌, none, some, List, [], ◌∷◌, ◌++◌, map, str_eq, eq_refl,
  All, ◌<>◌, if_cases,
}
use swift_agent.Shared.{ChatEvent}
use swift_agent.React.State.{
  ChatState, ChatMessage, ChatAction, event, assistant, streaming, complete, settle_user, add_text,
  complete_message, stop_streaming, on_event, chat_reducer, dispatch_all, is_streaming_status,
}

-- The events of one answer: announced under one id, streamed and completed under another.
abbrev pub token_actions : String → List String → List ChatAction
token_actions id [] = []
token_actions id (t ∷ ts) = event (ChatEvent.token "run" "session" id t) ∷ token_actions id ts

abbrev pub answer_actions : String → String → List String → List ChatAction
answer_actions announced id ts =
    event (ChatEvent.message_started announced "run" "session")
    ∷ (token_actions id ts ++ event (ChatEvent.message_completed id "run" "session") ∷ [])

abbrev pub onto : String → List String → String
onto c [] = c
onto c (t ∷ ts) = onto (c <> t) ts

abbrev pub Other : String → ChatMessage → Type 0
Other id m = str_eq m.id id ≡ false

abbrev add_texts : String → List String → ChatMessage → ChatMessage
add_texts id [] m = m
add_texts id (t ∷ ts) m = add_texts id ts (add_text id t m)

map-append_one :
    (f : ChatMessage → ChatMessage) (xs : List ChatMessage) (m : ChatMessage)
    → map f (xs ++ m ∷ []) ≡ map f xs ++ f m ∷ []
map-append_one f [] m = refl
map-append_one f (x ∷ xs) m = ap (λ ys. f x ∷ ys) (map-append_one f xs m)

map-others :
    (id : String) (f : ChatMessage → ChatMessage)
    → ((m : ChatMessage) → Other id m → f m ≡ m)
    → (xs : List ChatMessage) → All (Other id) xs
    → map f xs ≡ xs
map-others id f keeps [] h = refl
map-others id f keeps (x ∷ xs) (n, h) =
    ap (λ y. y ∷ map f xs) (keeps x n) ∙ ap (λ ys. x ∷ ys) (map-others id f keeps xs h)

add_text-Other : (id t : String) (m : ChatMessage) → Other id m → add_text id t m ≡ m
unfolding add_text
add_text-Other id t m n = rw n refl

add_texts-Other :
    (id : String) (ts : List String) (m : ChatMessage) → Other id m → add_texts id ts m ≡ m
add_texts-Other id [] m n = refl
add_texts-Other id (t ∷ ts) m n =
    ap (add_texts id ts) (add_text-Other id t m n) ∙ add_texts-Other id ts m n

complete_message-Other : (id : String) (m : ChatMessage) → Other id m → complete_message id m ≡ m
unfolding complete_message
complete_message-Other id m n = rw n refl

settle_user-Other : (id : String) (m : ChatMessage) → Other id m → Other id (settle_user m)
unfolding settle_user
settle_user-Other id m n = if_cases (Other id) _ (λ yes_. n) (λ no_. n)

settled-Other :
    (id : String) (xs : List ChatMessage) → All (Other id) xs → All (Other id) (map settle_user xs)
settled-Other id [] h = h
settled-Other id (x ∷ xs) (n, h) = (settle_user-Other id x n, settled-Other id xs h)

map-add_texts :
    (id t : String) (ts : List String) (xs : List ChatMessage)
    → map (add_texts id ts) (map (add_text id t) xs) ≡ map (add_texts id (t ∷ ts)) xs
map-add_texts id t ts [] = refl
map-add_texts id t ts (x ∷ xs) = ap (λ ys. add_texts id (t ∷ ts) x ∷ ys) (map-add_texts id t ts xs)

map_no_texts : (id : String) (xs : List ChatMessage) → map (add_texts id []) xs ≡ xs
map_no_texts id [] = refl
map_no_texts id (x ∷ xs) = ap (λ ys. x ∷ ys) (map_no_texts id xs)

-- The tokens, then message_completed, by what they do to each message.
dispatch-tokens :
    (id : String) (ts : List String) (s : ChatState)
    → (dispatch_all
        (token_actions id ts ++ event (ChatEvent.message_completed id "run" "session") ∷ [])
        s).messages
      ≡ map (complete_message id) (map (add_texts id ts) s.messages)
unfolding dispatch_all chat_reducer on_event
dispatch-tokens id [] s = ap (map (complete_message id)) (sym (map_no_texts id s.messages))
dispatch-tokens id (t ∷ ts) s =
    dispatch-tokens id ts (on_event s (ChatEvent.token "run" "session" id t))
    ∙ ap (map (complete_message id)) (map-add_texts id t ts s.messages)

abbrev pub opening : String → ChatMessage
opening id = record {
  id = id;
  role = assistant;
  content = "";
  status = streaming;
  tool_calls = none;
}

add_texts-own :
    (id c : String) (ts : List String)
    → add_texts id ts (record (opening id) { content = c })
      ≡ record (opening id) { content = onto c ts }
unfolding add_text
add_texts-own id c [] = refl
add_texts-own id c (t ∷ ts) = rw (eq_refl id) (add_texts-own id (c <> t) ts)

completed-own :
    (id c : String)
    → complete_message id (record (opening id) { content = c })
      ≡ record (opening id) { content = c; status = complete }
unfolding complete_message
completed-own id c = rw (eq_refl id) refl

answer-messages :
    (announced id : String) (ts : List String) (s : ChatState)
    → All (Other id) s.messages
    → (dispatch_all (answer_actions announced id ts) s).messages
      ≡ map settle_user s.messages ++ complete_message id (add_texts id ts (opening announced)) ∷ []
unfolding dispatch_all chat_reducer on_event
answer-messages announced id ts s others =
    dispatch-tokens id ts (on_event s (ChatEvent.message_started announced "run" "session"))
    ∙ ap (map (complete_message id))
        (map-append_one (add_texts id ts) (map settle_user s.messages) (opening announced))
    ∙ map-append_one (complete_message id) (map (add_texts id ts) (map settle_user s.messages)) _
    ∙ ap
        (λ xs.
          map (complete_message id) xs
          ++ complete_message id (add_texts id ts (opening announced)) ∷ [])
        (map-others id (add_texts id ts) (add_texts-Other id ts) _
          (settled-Other id s.messages others))
    ∙ ap (λ xs. xs ++ complete_message id (add_texts id ts (opening announced)) ∷ [])
        (map-others id (complete_message id) (complete_message-Other id) _
          (settled-Other id s.messages others))

-- When no earlier message has the answer's id and the answer is announced under that id, it stands
-- last, complete, with its tokens in order, and the earlier messages change only in that pending
-- messages of the user are complete.
pub dispatch_all-streams_answer :
    (id : String) (ts : List String) (s : ChatState)
    → All (Other id) s.messages
    → (dispatch_all (answer_actions id id ts) s).messages
      ≡ map settle_user s.messages
        ++ record (opening id) { content = onto "" ts; status = complete } ∷ []
dispatch_all-streams_answer id ts s others =
    answer-messages id id ts s others
    ∙ ap (λ m. map settle_user s.messages ++ m ∷ [])
        (ap (complete_message id) (add_texts-own id "" ts) ∙ completed-own id (onto "" ts))

-- When the answer is announced under another id than its tokens carry, which no earlier message
-- has either, then its text is lost: the last message is empty and still streaming.
pub dispatch_all-loses_answer :
    (announced id : String) (ts : List String) (s : ChatState)
    → All (Other id) s.messages
    → str_eq announced id ≡ false
    → (dispatch_all (answer_actions announced id ts) s).messages
      ≡ map settle_user s.messages ++ opening announced ∷ []
dispatch_all-loses_answer announced id ts s others differ =
    answer-messages announced id ts s others
    ∙ ap (λ m. map settle_user s.messages ++ m ∷ [])
        (ap (complete_message id) (add_texts-Other id ts (opening announced) differ)
          ∙ complete_message-Other id (opening announced) differ)

abbrev pub Stopped : ChatMessage → Type 0
Stopped m = is_streaming_status m.status ≡ false

stop_streaming-Stopped : (m : ChatMessage) → Stopped (stop_streaming m)
unfolding stop_streaming
stop_streaming-Stopped m =
    if_cases Stopped (is_streaming_status m.status) {x = record m { status = complete }} {y = m}
      (λ was. refl) (λ stopped. stopped)

map_stop-Stopped : (xs : List ChatMessage) → All Stopped (map stop_streaming xs)
map_stop-Stopped [] = tt
map_stop-Stopped (x ∷ xs) = (stop_streaming-Stopped x, map_stop-Stopped xs)

abbrev pub text : ChatMessage → String × String
text m = (m.id, m.content)

abbrev pub texts : List ChatMessage → List (String × String)
texts [] = []
texts (m ∷ ms) = text m ∷ texts ms

text-stop : (m : ChatMessage) → text (stop_streaming m) ≡ text m
unfolding stop_streaming
text-stop m =
    if_cases (λ n. text n ≡ text m) (is_streaming_status m.status)
      {x = record m { status = complete }} {y = m} (λ was. refl) (λ stopped. refl)

texts-map_stop : (xs : List ChatMessage) → texts (map stop_streaming xs) ≡ texts xs
texts-map_stop [] = refl
texts-map_stop (x ∷ xs) =
    ap (λ p. p ∷ texts (map stop_streaming xs)) (text-stop x)
    ∙ ap (λ ps. text x ∷ ps) (texts-map_stop xs)

-- After run_failed, in every state, the chat is not streaming, no message is, the error reads
-- `[code] message`, and the messages have the ids and contents they had.
pub chat_reducer-run_failed :
    (run session code message : String) (s : ChatState)
    → let t = chat_reducer s (event (ChatEvent.run_failed run session code message)) in
      (t.is_streaming ≡ false)
      × All Stopped t.messages
      × (t.last_error ≡ some ("[" <> code <> "] " <> message))
      × (texts t.messages ≡ texts s.messages)
unfolding chat_reducer on_event
chat_reducer-run_failed run session code message s =
    (refl, map_stop-Stopped s.messages, refl, texts-map_stop s.messages)
