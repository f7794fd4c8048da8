-- ===== src/Db/Spend/Totals.antt =====
-- The reservations of a day never pass its ceiling.
use swift_agent.Common.{
  ℕ, zero, suc, ◌+◌, ◌≤◌, String, Bool, true, false, ◌≡◌, refl, sym, ap, ◌∙◌, List, [], ◌∷◌, ◌++◌,
  Option, arith, str_eq, eq_iff, All, All-append, All-mono, if◌then◌else◌, Bool-cases, inl, inr,
}
use swift_agent.Db.Table.{update_where, returning, All-update_where}
use swift_agent.Db.Spend.{
  Ledger, SpendDay, Reservation, TerminalStatus, has_day, upsert_day, has_room, charge, commit,
  reserve, attach_run, settle, sweep_abandoned, new_reservation,
}

-- All that was reserved on a day, settled or not.
unfoldable pub spent : String → List Reservation → ℕ
spent day [] = 0
spent day (r ∷ rs) = (if str_eq r.day day then r.reserved_micro_usd else 0) + spent day rs

spent-append :
    (day : String) (rs ss : List Reservation) → spent day (rs ++ ss) ≡ spent day rs + spent day ss
unfolding spent
spent-append day [] ss = omega arith
spent-append day (r ∷ rs) ss = omega (arith, spent-append day rs ss)

-- An update that keeps each row's day and amount keeps what was spent.
spent-update_where :
    (day : String) (hit : Reservation → Bool) (set : Reservation → Reservation)
    (rs : List Reservation)
    → ((r : Reservation) → (set r).day ≡ r.day)
    → ((r : Reservation) → (set r).reserved_micro_usd ≡ r.reserved_micro_usd)
    → spent day (update_where hit set rs) ≡ spent day rs
unfolding spent update_where
spent-update_where day hit set [] d a = refl
spent-update_where day hit set (r ∷ rs) d a =
    ground (arith, spent-update_where day hit set rs d a, d r, a r)

-- Each day's total is what was spent on that day, and within the ceiling; on a day with no row
-- nothing was spent.
pub record Sound (ceiling : ℕ) (l : Ledger) : Type 0 where
  pub totals : All (λ d. d.reserved_total ≡ spent d.day l.reservations) l.days
  pub capped : All (λ d. d.reserved_total ≤ ceiling) l.days
  pub known : (day : String) → has_day day l.days ≡ false → spent day l.reservations ≡ 0

has_day-append :
    (day : String) (ds : List SpendDay) (d : SpendDay)
    → has_day day (ds ++ d ∷ []) ≡ false
    → has_day day ds ≡ false
has_day-append day [] d h = refl
has_day-append day (x ∷ ds) d h = ground (arith, has_day-append day ds d)

upsert_day-Sound :
    (ceiling : ℕ) (day : String) (l : Ledger)
    → Sound ceiling l
    → Sound ceiling (record l { days = upsert_day day l.days })
unfolding upsert_day
upsert_day-Sound ceiling day l v = elim (Bool-cases (has_day day l.days)) [
  | inl old ↦ rw old v
  | inr new ↦ rw new (record {
    totals =
        All-append (λ d. d.reserved_total ≡ spent d.day l.reservations) l.days _ v.totals
          (sym (v.known day new), tt);
    capped = All-append (λ d. d.reserved_total ≤ ceiling) l.days _ v.capped (omega arith, tt);
    known = λ other h. v.known other (has_day-append other l.days _ h);
  })
]

module _ (ceiling amount : ℕ) (day : String) (rs : List Reservation) where
  -- A row that passes the gate shows that there is room.
  gate_room :
      (ds : List SpendDay) (d : SpendDay) (more : List SpendDay)
      → All (λ d. d.reserved_total ≡ spent d.day rs) ds
      → returning (has_room day amount ceiling) (charge amount) ds ≡ d ∷ more
      → (spent day rs + amount ≤ ceiling) × (has_day day ds ≡ true)
  unfolding returning
  gate_room [] d more h e = cc
  gate_room (x ∷ ds) d more (p, h) e =
      ground
        (arith, gate_room ds d more h, eq_iff x.day day, ap (λ k. spent k rs) {x = x.day} {y = day})

  charged_total :
      (row : Reservation) (d : SpendDay)
      → row.day ≡ day
      → row.reserved_micro_usd ≡ amount
      → spent day rs + amount ≤ ceiling
      → d.reserved_total ≡ spent d.day rs
      → (if has_room day amount ceiling d then charge amount d else d).reserved_total
        ≡ spent (if has_room day amount ceiling d then charge amount d else d).day (rs ++ row ∷ [])
  unfolding spent
  charged_total row d e a room p = ground (
    arith,
    spent-append d.day rs (row ∷ []),
    eq_iff d.day day,
    eq_iff row.day d.day,
    ap (λ k. spent k rs) {x = d.day} {y = day},
  )

  charged_capped :
      (d : SpendDay)
      → d.reserved_total ≤ ceiling
      → (if has_room day amount ceiling d then charge amount d else d).reserved_total ≤ ceiling
  charged_capped d h = ground arith

  has_day-charged :
      (other : String) (ds : List SpendDay)
      → has_day other (update_where (has_room day amount ceiling) (charge amount) ds)
        ≡ has_day other ds
  unfolding update_where
  has_day-charged other [] = refl
  has_day-charged other (d ∷ ds) = ground (arith, has_day-charged other ds)

  charged_known :
      (row : Reservation) (ds : List SpendDay) (other : String)
      → row.day ≡ day
      → has_day day ds ≡ true
      → (has_day other ds ≡ false → spent other rs ≡ 0)
      → has_day other (update_where (has_room day amount ceiling) (charge amount) ds) ≡ false
      → spent other (rs ++ row ∷ []) ≡ 0
  unfolding spent
  charged_known row ds other e present h absent = ground (
    arith,
    has_day-charged other ds,
    spent-append other rs (row ∷ []),
    eq_iff row.day other,
    ap (λ k. has_day k ds) {x = other} {y = day},
  )

commit-Sound :
    (ceiling amount : ℕ) (day : String) (row : Reservation) (l : Ledger) (days gate : List SpendDay)
    → row.day ≡ day
    → row.reserved_micro_usd ≡ amount
    → Sound ceiling l
    → Sound ceiling (record l { days = days })
    → returning (has_room day amount ceiling) (charge amount) days ≡ gate
    → Sound ceiling
        (commit row l days (update_where (has_room day amount ceiling) (charge amount) days) gate).1
unfolding commit
commit-Sound ceiling amount day row l days [] e a v v' g = v
commit-Sound ceiling amount day row l days (d ∷ ds) e a v v' g =
    let (room, present) = gate_room ceiling amount day l.reservations days d ds v'.totals g in
    record {
      totals =
          All-update_where _ _ _ _ days
            (λ x p. charged_total ceiling amount day l.reservations row x e a room p) v'.totals;
      capped =
          All-update_where _ _ _ _ days (charged_capped ceiling amount day l.reservations)
            v'.capped;
      known = λ other.
          charged_known ceiling amount day l.reservations row days other e present (v'.known other);
    }

reserve-Sound :
    (ceiling amount now : ℕ) (day session_id id : String) (l : Ledger)
    → Sound ceiling l
    → Sound ceiling (reserve day amount ceiling session_id id now l).1
unfolding reserve
reserve-Sound ceiling zero now day session_id id l v = v
reserve-Sound ceiling (suc n) now day session_id id l v =
    commit-Sound ceiling (suc n) day (new_reservation day (suc n) session_id id now) l
      (upsert_day day l.days) _ refl refl v (upsert_day-Sound ceiling day l v) refl

-- A write to the reservations that keeps each row's day and amount.
update-Sound :
    (ceiling : ℕ) (hit : Reservation → Bool) (set : Reservation → Reservation) (l : Ledger)
    → ((r : Reservation) → (set r).day ≡ r.day)
    → ((r : Reservation) → (set r).reserved_micro_usd ≡ r.reserved_micro_usd)
    → Sound ceiling l
    → Sound ceiling (record l { reservations = update_where hit set l.reservations })
update-Sound ceiling hit set l d a v = record {
  totals =
      All-mono (λ x p. p ∙ sym (spent-update_where x.day hit set l.reservations d a)) l.days
        v.totals;
  capped = v.capped;
  known = λ other h. spent-update_where other hit set l.reservations d a ∙ v.known other h;
}

-- The operations that change the ledger, under one ceiling.
pub data SpendCall : Type 0 where
  reserves : (day : String) (amount : ℕ) (session_id id : String) (now : ℕ) → SpendCall
  attaches : (id run_id : String) → SpendCall
  settles : (id : String) (to : TerminalStatus) (input output : Option ℕ) (now : ℕ) → SpendCall
  sweeps : (older_than now : ℕ) → SpendCall

unfoldable pub apply : ℕ → SpendCall → Ledger → Ledger
unfolding reserve attach_run settle sweep_abandoned
apply ceiling (reserves day amount session_id id now) l =
    (reserve day amount ceiling session_id id now l).1
apply ceiling (attaches id run_id) l = attach_run id run_id l
apply ceiling (settles id to input output now) l = (settle id to input output now l).1
apply ceiling (sweeps older_than now) l = (sweep_abandoned older_than now l).1

unfoldable pub apply_all : ℕ → List SpendCall → Ledger → Ledger
unfolding apply
apply_all ceiling [] l = l
apply_all ceiling (c ∷ cs) l = apply_all ceiling cs (apply ceiling c l)

apply-Sound :
    (ceiling : ℕ) (c : SpendCall) (l : Ledger) → Sound ceiling l → Sound ceiling (apply ceiling c l)
unfolding apply attach_run settle sweep_abandoned
apply-Sound ceiling (reserves day amount session_id id now) l v =
    reserve-Sound ceiling amount now day session_id id l v
apply-Sound ceiling (attaches id run_id) l v = update-Sound ceiling _ _ l (λ r. refl) (λ r. refl) v
apply-Sound ceiling (settles id to input output now) l v =
    update-Sound ceiling _ _ l (λ r. refl) (λ r. refl) v
apply-Sound ceiling (sweeps older_than now) l v =
    update-Sound ceiling _ _ l (λ r. refl) (λ r. refl) v

-- Every history of reservations under one ceiling, of attached runs, settlements and sweeps keeps
-- the ledger sound: each day's total is exactly what was reserved on that day, settled or not, and
-- is within the ceiling.
pub apply_all-Sound :
    (ceiling : ℕ) (cs : List SpendCall) (l : Ledger)
    → Sound ceiling l
    → Sound ceiling (apply_all ceiling cs l)
unfolding apply_all
apply_all-Sound ceiling [] l v = v
apply_all-Sound ceiling (c ∷ cs) l v =
    apply_all-Sound ceiling cs (apply ceiling c l) (apply-Sound ceiling c l v)

spent-le_of_row :
    (ceiling : ℕ) (day : String) (rs : List Reservation) (ds : List SpendDay)
    → has_day day ds ≡ true
    → All (λ d. d.reserved_total ≡ spent d.day rs) ds
    → All (λ d. d.reserved_total ≤ ceiling) ds
    → spent day rs ≤ ceiling
spent-le_of_row ceiling day rs [] e p c = cc
spent-le_of_row ceiling day rs (d ∷ ds) e (p, ps) (c, cs) = ground (
  arith,
  spent-le_of_row ceiling day rs ds,
  eq_iff d.day day,
  ap (λ k. spent k rs) {x = d.day} {y = day},
)

-- The daily ceiling holds: from a sound ledger, after any history under that ceiling, the amounts
-- of all reservations of a day, settled and abandoned ones included, add up to at most the ceiling.
pub spent-apply_all-le :
    (ceiling : ℕ) (cs : List SpendCall) (l : Ledger) (day : String)
    → Sound ceiling l
    → spent day (apply_all ceiling cs l).reservations ≤ ceiling
spent-apply_all-le ceiling cs l day v =
    let v' = apply_all-Sound ceiling cs l v in
    let l' = apply_all ceiling cs l in
    elim (Bool-cases (has_day day l'.days)) [
      | inl present ↦
          spent-le_of_row ceiling day l'.reservations l'.days present v'.totals v'.capped
      | inr absent ↦ omega (arith, v'.known day absent)
    ]
