-- ===== src/Runner/Client/Retries.antt =====
-- tool-executor-remote.ts: which answers are final, what is sent again, and what is read.
use swift_agent.Common.{
  ◌≡◌, refl, sym, ap, subst, ◌∙◌, ℕ, zero, suc, ◌+◌, ◌≤◌, ◌<◌, String, Bool, true, false, List, [],
  ◌∷◌, ◌++◌, Option, none, some, ltb, leb, length, length-append, if◌then◌else◌, arith, if_cases,
  append_assoc, append-nil, ◌⊎◌, false≢true,
}
use swift_agent.Json.{Json}
use swift_agent.Runner.Client.{
  Result, Interpreted, done, retry, Texts, Net, interpret, interpret_json, parsed_text, attempt,
  after_attempt, send_from, send_with_retries, read_chunks,
}

abbrev pub is_retry : Interpreted → Bool
is_retry (done result) = false
is_retry (retry error) = true

module _ (t : Texts) (net : Net) (total : ℕ) where
  -- What is fetched before the last attempt was not final.
  after_done :
      (left n : ℕ) (rest : Result × ℕ) (o : Interpreted)
      → 1 < (after_attempt t net total left n rest o).1
      → is_retry o ≡ true
  after_done left n rest (done r) h = ground (arith, h)
  after_done left n rest (retry e) h = refl

  after_rest :
      (left n i : ℕ) (rest : Result × ℕ) (o : Interpreted)
      → suc i + 1 < (after_attempt t net total (suc left) n rest o).1
      → i + 1 < rest.1
  after_rest left n i rest (done r) h = ground (arith, h)
  after_rest left n i rest (retry e) h =
      if_cases (λ (o : Result × ℕ). suc i + 1 < o.1 → i + 1 < rest.1) (net.aborted_after n)
        (λ aborted k. ground (arith, k)) (λ going k. ground (arith, k)) h

  after_last :
      (n : ℕ) (rest : Result × ℕ) (o : Interpreted)
      → (after_attempt t net total zero n rest o).1 ≤ 1
  after_last n rest (done r) = ground arith
  after_last n rest (retry e) = ground arith

  after_bound :
      (left n : ℕ) (rest : Result × ℕ) (o : Interpreted)
      → rest.1 ≤ 1 + left
      → (after_attempt t net total (suc left) n rest o).1 ≤ 1 + suc left
  after_bound left n rest (done r) h = ground arith
  after_bound left n rest (retry e) h =
      if_cases (λ (o : Result × ℕ). o.1 ≤ 1 + suc left) (net.aborted_after n)
        (λ aborted. ground arith) (λ going. ground (arith, h))

  send_from-bound : (left n : ℕ) → (send_from t net total left n).1 ≤ 1 + left
  unfolding send_from
  send_from-bound zero n = after_last n (Result.fails "", 0) (attempt t net n)
  send_from-bound (suc left) n =
      after_bound left n (send_from t net total left (n + 1)) (attempt t net n)
        (send_from-bound left (n + 1))

  send_from-retried :
      (left n i : ℕ)
      → i + 1 < (send_from t net total left n).1
      → is_retry (attempt t net (n + i)) ≡ true
  unfolding send_from
  send_from-retried zero n i h =
      absurd (omega (arith, h, after_last n (Result.fails "", 0) (attempt t net n)))
  send_from-retried (suc left) n zero h =
      subst (λ k. is_retry (attempt t net k) ≡ true) (omega arith)
        (after_done (suc left) n (send_from t net total left (n + 1)) (attempt t net n)
          (omega (arith, h)))
  send_from-retried (suc left) n (suc i) h =
      subst (λ k. is_retry (attempt t net k) ≡ true) (omega arith)
        (send_from-retried left (n + 1) i
          (after_rest left n i (send_from t net total left (n + 1)) (attempt t net n) h))

  -- The first final answer is the result.
  after_going :
      (left n : ℕ) (rest : Result × ℕ) (o : Interpreted)
      → is_retry o ≡ true
      → net.aborted_after n ≡ false
      → after_attempt t net total (suc left) n rest o ≡ (rest.0, 1 + rest.1)
  after_going left n rest (done r) h going = absurd (false≢true h)
  after_going left n rest (retry e) h going =
      ap (λ b. if b then (Result.fails "Aborted", 1) else (rest.0, 1 + rest.1)) going

  send_from-finds :
      (k left n : ℕ) (result : Result)
      → k ≤ left
      → ((i : ℕ) → i < k → is_retry (attempt t net (n + i)) ≡ true)
      → ((i : ℕ) → i < k → net.aborted_after (n + i) ≡ false)
      → attempt t net (n + k) ≡ done result
      → send_from t net total left n ≡ (result, 1 + k)
  unfolding send_from
  send_from-finds zero zero n result le retried going found =
      ap (after_attempt t net total zero n (Result.fails "", 0))
        (ap (attempt t net) (omega arith) ∙ found)
  send_from-finds zero (suc left) n result le retried going found =
      ap (after_attempt t net total (suc left) n (send_from t net total left (n + 1)))
        (ap (attempt t net) (omega arith) ∙ found)
  send_from-finds (suc k) zero n result le retried going found = absurd (omega (arith, le))
  send_from-finds (suc k) (suc left) n result le retried going found =
      after_going left n (send_from t net total left (n + 1)) (attempt t net n)
        (subst (λ m. is_retry (attempt t net m) ≡ true) (omega arith) (retried 0 (omega arith)))
        (subst (λ m. net.aborted_after m ≡ false) (omega arith) (going 0 (omega arith)))
      ∙ ap (λ (r : Result × ℕ). (r.0, 1 + r.1))
          (send_from-finds k left (n + 1) result (omega (arith, le))
            (λ i lt.
              subst (λ m. is_retry (attempt t net m) ≡ true) (omega arith)
                (retried (i + 1) (omega (arith, lt))))
            (λ i lt.
              subst (λ m. net.aborted_after m ≡ false) (omega arith)
                (going (i + 1) (omega (arith, lt))))
            (ap (attempt t net) (omega arith) ∙ found))
      ∙ ap (λ m. (result, m)) (omega arith)

-- `sendWithRetries` fetches at most once more than `maxRetries`; it fetches again only after an
-- attempt that was not final; and where the first attempts are not final, the signal is not aborted
-- after them and the next one is, within the bound, that one's result is the result.
pub send_with_retries-Sends :
    (t : Texts) (net : Net) (max_retries : ℕ)
    → ((send_with_retries t net max_retries).1 ≤ 1 + max_retries)
      × ((i : ℕ)
          → i + 1 < (send_with_retries t net max_retries).1
          → is_retry (attempt t net (1 + i)) ≡ true)
      × ((k : ℕ) (result : Result)
          → k ≤ max_retries
          → ((i : ℕ) → i < k → is_retry (attempt t net (1 + i)) ≡ true)
          → ((i : ℕ) → i < k → net.aborted_after (1 + i) ≡ false)
          → attempt t net (1 + k) ≡ done result
          → send_with_retries t net max_retries ≡ (result, 1 + k))
unfolding send_with_retries
send_with_retries-Sends t net max_retries = (
  send_from-bound t net (1 + max_retries) max_retries 1,
  send_from-retried t net (1 + max_retries) max_retries 1,
  λ k result. send_from-finds t net (1 + max_retries) k max_retries 1 result,
)

interpret_json-done :
    (t : Texts) (status : ℕ) (o : Option Json)
    → ((200 ≤ status) × (status < 300)) ⊎ ((400 ≤ status) × (status < 500))
    → is_retry (interpret_json t status o) ≡ false
interpret_json-done t status none h = ground (arith, h)
interpret_json-done t status (some json) h = ground (arith, h)

interpret_json-retry :
    (t : Texts) (status : ℕ) (o : Option Json)
    → 500 ≤ status
    → is_retry (interpret_json t status o) ≡ true
interpret_json-retry t status none h = ground (arith, h)
interpret_json-retry t status (some json) h = ground (arith, h)

-- Whatever the body is, a 2xx or a 4xx answer is final and a 5xx answer is sent again.
pub interpret-kind :
    (t : Texts) (status : ℕ) (text : String)
    → (((200 ≤ status) × (status < 300)) ⊎ ((400 ≤ status) × (status < 500))
        → is_retry (interpret t status text) ≡ false)
      × (500 ≤ status → is_retry (interpret t status text) ≡ true)
unfolding interpret
interpret-kind t status text = (
  λ h. interpret_json-done t status (parsed_text t text) h,
  λ h. interpret_json-retry t status (parsed_text t text) h,
)

abbrev pub concat : List (List ℕ) → List ℕ
concat [] = []
concat (c ∷ cs) = c ++ concat cs

abbrev within : ℕ → List ℕ → Option (List ℕ)
within max_bytes bytes = if leb (length bytes) max_bytes then some bytes else none

within_bound :
    (max_bytes : ℕ) (bytes : List ℕ)
    → length bytes ≤ max_bytes
    → some bytes ≡ within max_bytes bytes
within_bound max_bytes bytes h = ground (arith, h)

within_over :
    (max_bytes : ℕ) (bytes : List ℕ) → max_bytes < length bytes → within max_bytes bytes ≡ none
within_over max_bytes bytes h = ground (arith, h)

read_chunks-over :
    (max_bytes : ℕ) (total : List ℕ) (chunks : List (List ℕ))
    → length total ≤ max_bytes
    → read_chunks max_bytes total chunks ≡ within max_bytes (total ++ concat chunks)
unfolding read_chunks
read_chunks-over max_bytes total [] h =
    within_bound max_bytes total h ∙ ap (within max_bytes) (sym (append-nil total))
read_chunks-over max_bytes total (c ∷ cs) h =
    if_cases (λ (o : Option (List ℕ)). o ≡ within max_bytes (total ++ (c ++ concat cs)))
      (ltb max_bytes (length total + length c))
      (λ over. sym (
        within_over max_bytes (total ++ (c ++ concat cs)) (
          ground (arith, over, length-append total (c ++ concat cs), length-append c (concat cs)))))
      (λ fits.
        read_chunks-over max_bytes (total ++ c) cs (ground (arith, fits, length-append total c))
        ∙ ap (within max_bytes) (append_assoc total c (concat cs)))

-- `readBoundedText` reads all bytes of a body of at most `maxBytes`, in their order, and refuses
-- every longer body, however it is cut into chunks.
pub read_chunks-bound :
    (max_bytes : ℕ) (chunks : List (List ℕ))
    → read_chunks max_bytes [] chunks
      ≡ (if leb (length (concat chunks)) max_bytes then some (concat chunks) else none)
read_chunks-bound max_bytes chunks = read_chunks-over max_bytes [] chunks (omega arith)
