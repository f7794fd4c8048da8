-- ===== src/Gateway/Channels/Refs.antt =====
-- channel-registry.ts: the count of a session's subscription over its sockets.
use swift_agent.Common.{
  ℕ, ◌+◌, ◌-◌, String, Bool, true, false, ◌≡◌, refl, sym, ap, subst, ◌∙◌, Option, none, some, List,
  [], ◌∷◌, ltb, str_eq, eq_iff, arith, if◌then◌else◌, if_cases, get_key, set_key, delete_key,
  get_key-set_same, get_key-set_other, get_key-delete_same, get_key-delete_other, get_key-nil, inl,
  inr, Bool-cases,
}
use swift_agent.Gateway.Channels.{
  Channels, channel, ref_count, count_of, acquire, acquire_at, release, release_at,
}

-- The sockets of all sessions acquire and release.
pub data Use : Type 0 where
  acquires releases : String → Use

unfoldable pub use_all : List Use → Channels → Channels
use_all [] r = r
use_all (acquires sid ∷ us) r = use_all us (acquire sid r)
use_all (releases sid ∷ us) r = use_all us (release sid r)

-- How often a session's channel is held, from the uses alone.
abbrev pub held : String → List Use → ℕ → ℕ
held sid [] n = n
held sid (acquires other ∷ us) n =
    held sid us (if str_eq (channel other) (channel sid) then n + 1 else n)
held sid (releases other ∷ us) n =
    held sid us (if str_eq (channel other) (channel sid) then n - 1 else n)

abbrev as_ref : ℕ → Option ℕ
as_ref n = if ltb 0 n then some n else none

abbrev pub as_subscription : ℕ → Option Bool
as_subscription n = if ltb 0 n then some true else none

record Holds (key : String) (n : ℕ) (r : Channels) : Type 0 where
  ref : get_key key r.refs ≡ as_ref n
  sub : get_key key r.subscribed ≡ as_subscription n

as_ref-pos : (n : ℕ) → ltb 0 n ≡ true → as_ref n ≡ some n
as_ref-pos n h = rw h refl

as_subscription-pos : (n : ℕ) → ltb 0 n ≡ true → as_subscription n ≡ some true
as_subscription-pos n h = rw h refl

as_ref-zero : (n : ℕ) → ltb 0 n ≡ false → as_ref n ≡ none
as_ref-zero n h = rw h refl

as_subscription-zero : (n : ℕ) → ltb 0 n ≡ false → as_subscription n ≡ none
as_subscription-zero n h = rw h refl

acquire_at-Holds :
    (key : String) (n : ℕ) (r : Channels)
    → Holds key n r
    → Holds key (n + 1) (acquire_at key (as_ref n) r)
acquire_at-Holds key n r h =
    if_cases (λ o. Holds key (n + 1) (acquire_at key o r)) (ltb 0 n)
      (λ pos. record {
        ref = get_key-set_same key (n + 1) r.refs ∙ sym (as_ref-pos (n + 1) (ground arith));
        sub = h.sub ∙ as_subscription-pos n pos ∙ sym (as_subscription-pos (n + 1) (ground arith));
      })
      (λ nil. record {
        ref =
            get_key-set_same key 1 r.refs
            ∙ ap some (ground arith)
            ∙ sym (as_ref-pos (n + 1) (ground arith));
        sub =
            get_key-set_same key true r.subscribed
            ∙ sym (as_subscription-pos (n + 1) (ground arith));
      })

release_at-Holds :
    (key : String) (n : ℕ) (r : Channels)
    → Holds key n r
    → Holds key (n - 1) (release_at key (as_ref n) r)
release_at-Holds key n r h =
    if_cases (λ o. Holds key (n - 1) (release_at key o r)) (ltb 0 n)
      (λ pos.
        if_cases (Holds key (n - 1)) (ltb 0 (n - 1))
          {x = record r { refs = set_key key (n - 1) r.refs }}
          {y = record r { refs = delete_key key r.refs; subscribed = delete_key key r.subscribed }}
          (λ more. record {
            ref = get_key-set_same key (n - 1) r.refs ∙ sym (as_ref-pos (n - 1) more);
            sub = h.sub ∙ as_subscription-pos n pos ∙ sym (as_subscription-pos (n - 1) more);
          })
          (λ last. record {
            ref = get_key-delete_same key r.refs ∙ sym (as_ref-zero (n - 1) last);
            sub = get_key-delete_same key r.subscribed ∙ sym (as_subscription-zero (n - 1) last);
          }))
      (λ nothing. record {
        ref = h.ref ∙ as_ref-zero n nothing ∙ sym (as_ref-zero (n - 1) (ground arith));
        sub =
            h.sub
            ∙ as_subscription-zero n nothing
            ∙ sym (as_subscription-zero (n - 1) (ground arith));
      })

acquire_at-other :
    (key other : String) (n : ℕ) (o : Option ℕ) (r : Channels)
    → str_eq other key ≡ false
    → Holds key n r
    → Holds key n (acquire_at other o r)
acquire_at-other key other n (some k) r d h = record {
  ref = get_key-set_other key other (k + 1) r.refs d ∙ h.ref;
  sub = h.sub;
}
acquire_at-other key other n none r d h = record {
  ref = get_key-set_other key other 1 r.refs d ∙ h.ref;
  sub = get_key-set_other key other true r.subscribed d ∙ h.sub;
}

release_at-other :
    (key other : String) (n : ℕ) (o : Option ℕ) (r : Channels)
    → str_eq other key ≡ false
    → Holds key n r
    → Holds key n (release_at other o r)
release_at-other key other n none r d h = h
release_at-other key other n (some k) r d h =
    if_cases (Holds key n) (ltb 0 (k - 1)) {x = record r { refs = set_key other (k - 1) r.refs }}
      {y = record r { refs = delete_key other r.refs; subscribed = delete_key other r.subscribed }}
      (λ more. record { ref = get_key-set_other key other (k - 1) r.refs d ∙ h.ref; sub = h.sub })
      (λ last. record {
        ref = get_key-delete_other key other r.refs d ∙ h.ref;
        sub = get_key-delete_other key other r.subscribed d ∙ h.sub;
      })

acquire-Holds :
    (sid other : String) (n : ℕ) (r : Channels)
    → Holds (channel sid) n r
    → Holds
        (channel sid)
        (if str_eq (channel other) (channel sid) then n + 1 else n)
        (acquire other r)
unfolding acquire
acquire-Holds sid other n r h = elim (Bool-cases (str_eq (channel other) (channel sid))) [
  | inl same ↦ rw same (
      subst (λ k. Holds (channel sid) (n + 1) (acquire_at k (get_key k r.refs) r))
        (sym ((eq_iff (channel other) (channel sid)).0 same))
        (subst (λ o. Holds (channel sid) (n + 1) (acquire_at (channel sid) o r)) (sym h.ref)
          (acquire_at-Holds (channel sid) n r h)))
  | inr differ ↦
      rw differ (
        acquire_at-other (channel sid) (channel other) n (get_key (channel other) r.refs) r differ
          h)
]

release-Holds :
    (sid other : String) (n : ℕ) (r : Channels)
    → Holds (channel sid) n r
    → Holds
        (channel sid)
        (if str_eq (channel other) (channel sid) then n - 1 else n)
        (release other r)
unfolding release
release-Holds sid other n r h = elim (Bool-cases (str_eq (channel other) (channel sid))) [
  | inl same ↦ rw same (
      subst (λ k. Holds (channel sid) (n - 1) (release_at k (get_key k r.refs) r))
        (sym ((eq_iff (channel other) (channel sid)).0 same))
        (subst (λ o. Holds (channel sid) (n - 1) (release_at (channel sid) o r)) (sym h.ref)
          (release_at-Holds (channel sid) n r h)))
  | inr differ ↦
      rw differ (
        release_at-other (channel sid) (channel other) n (get_key (channel other) r.refs) r differ
          h)
]

use_all-Holds :
    (sid : String) (us : List Use) (n : ℕ) (r : Channels)
    → Holds (channel sid) n r
    → Holds (channel sid) (held sid us n) (use_all us r)
unfolding use_all
use_all-Holds sid [] n r h = h
use_all-Holds sid (acquires other ∷ us) n r h =
    use_all-Holds sid us _ (acquire other r) (acquire-Holds sid other n r h)
use_all-Holds sid (releases other ∷ us) n r h =
    use_all-Holds sid us _ (release other r) (release-Holds sid other n r h)

count-as_ref : (n : ℕ) → count_of (as_ref n) ≡ n
count-as_ref n =
    if_cases (λ o. count_of o ≡ n) (ltb 0 n) {x = some n} {y = none} (λ pos. refl)
      (λ nil. ground arith)

abbrev pub no_channels : String → Channels
no_channels instance_id = record {
  instance_id = instance_id;
  refs = [];
  subscribed = [];
  published = [];
}

-- After any acquisitions and releases by the sockets of all sessions, from a registry without
-- subscriptions, a session's count is its acquisitions less its releases, where a release of
-- nothing counts for nothing, and Redis holds the session's subscription exactly while the count
-- is positive.
pub use_all-ref_count :
    (instance_id sid : String) (us : List Use)
    → let r = use_all us (no_channels instance_id) in
      (ref_count sid r ≡ held sid us 0)
      × (get_key (channel sid) r.subscribed ≡ as_subscription (held sid us 0))
unfolding ref_count
use_all-ref_count instance_id sid us =
    let h =
      use_all-Holds sid us 0 (no_channels instance_id)
        record { ref = get_key-nil _; sub = get_key-nil _ } in
    (ap count_of h.ref ∙ count-as_ref (held sid us 0), h.sub)
