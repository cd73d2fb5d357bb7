-- ===== src/Store/Invariant/Heartbeat.antt =====
-- services/protocol-runner-api/src/store.ts: `recordParallelHeartbeat` and the
-- invariant of the tables.
use protocol_runner.Common.{
  ℕ, ◌≤◌, ◌<◌, ◌≡◌, refl, sym, ◌∙◌, subst, ap, true, ◌&&◌, ◌==◌, String, Option, some, List, [],
  ◌∷◌, All-imp, find, count, Pairwise, arith, if◌then◌else◌, or_else, eq_iff,
}
use protocol_runner.Store.Error.{ok, guard, StoreError, >>=-eq-ok, require-eq-ok, ok_pair}
use protocol_runner.Store.Ids.{
  assert_safe_run_instance_id, assert_safe_parallel_id, assert_safe_parallel_id-same,
}
use protocol_runner.Store.Rows.{
  LeaseStatus, ItemRow, AttemptRow, LeaseRow, AttemptWarning, is_leased_item, is_leased_attempt,
}
use protocol_runner.Store.Tables.{
  lease_ttl_ms, effective_expiry_ms, lease_is_expired, Db, load_run_row, load_lease, load_attempt,
  update_where, at_attempt, at_item, at_lease, active_in, active_on,
}
use mathlib.Core.Path.{subst₂}
use protocol_runner.Store.Tables.Laws.{find-update_where, count-update_where, All-update_where}
use protocol_runner.Store.Heartbeat.{
  record_parallel_heartbeat, heartbeat_effect, beat, run_attempt, run_item, warn, warn_attempt,
  TimeInput, read_time, check_heartbeat,
}
use protocol_runner.Store.Invariant.{IsSound, IsIdleUnlessLive, IsLinked, IsOtherAttempt}
use protocol_runner.Store.Invariant.Updates.{
  All-IsLatest-update_items, Carries-update_attempts, Carries, Carries-trans, IsLinked-Carries,
  All-IsLinked-update_leases, lease_ids-update_leases, item_keys-update_items,
}
use protocol_runner.Store.Invariant.Keys.{attempt_keys-update_attempts}

module _ (group : String) (heartbeat_at now : ℕ) (warnings : List AttemptWarning) (row : LeaseRow)
    (attempt : AttemptRow) where
  abbrev beaten : List LeaseRow → List LeaseRow
  beaten = update_where (at_lease row.lease_id) (beat heartbeat_at now row)

  count-beaten_in :
      (g : String) (ls : List LeaseRow) → count (active_in g) (beaten ls) ≡ count (active_in g) ls
  unfolding beat
  count-beaten_in g ls = count-update_where _ _ (active_in g) ls (λ l. refl)

  count-beaten_on :
      (g i : String) (ls : List LeaseRow)
      → count (active_on g i) (beaten ls) ≡ count (active_on g i) ls
  unfolding beat
  count-beaten_on g i ls = count-update_where _ _ (active_on g i) ls (λ l. refl)

  Carries-warn :
      (ws : List AttemptWarning) (as' : List AttemptRow)
      → Carries as' (warn now row.attempt_id attempt.warnings ws as')
  unfolding warn
  Carries-warn [] as' = λ id a found. (a, found, refl, refl)
  Carries-warn (w ∷ ws) as' =
      Carries-update_attempts _ (warn_attempt now _)
        (unfold warn_attempt in λ a. (refl, refl, refl, refl)) as'

  Carries-beat :
      (as' : List AttemptRow)
      → Carries as' (
          warn now row.attempt_id attempt.warnings warnings (
            update_where
              (λ a. at_attempt row.attempt_id a && is_leased_attempt a.status)
              (run_attempt now)
              as'))
  Carries-beat as' =
      Carries-trans as' _ _
        (Carries-update_attempts _ (run_attempt now)
          (unfold run_attempt in λ a. (refl, refl, refl, refl)) as')
        (Carries-warn warnings _)

  attempt_keys-warn :
      (ws : List AttemptWarning) (as' : List AttemptRow)
      → Pairwise IsOtherAttempt as'
      → Pairwise IsOtherAttempt (warn now row.attempt_id attempt.warnings ws as')
  unfolding warn
  attempt_keys-warn [] as' h = h
  attempt_keys-warn (w ∷ ws) as' h =
      attempt_keys-update_attempts _ (warn_attempt now _)
        (unfold warn_attempt in λ a. (refl, refl, refl, refl)) as' h

  idle-beaten :
      (ls : List LeaseRow) (it : ItemRow)
      → IsIdleUnlessLive ls it
      → IsIdleUnlessLive
          (beaten ls)
          (if at_item group row.item_id it && is_leased_item it.status then run_item now it else it)
  unfolding run_item
  idle-beaten ls it h = ground (arith, count-beaten_on it.group_id it.item_id ls)

  heartbeat_effect-IsSound :
      (db : Db)
      → IsSound db
      → IsSound (heartbeat_effect group heartbeat_at now warnings row attempt db)
  unfolding heartbeat_effect
  heartbeat_effect-IsSound db s = record {
    capacity = λ g r e. omega (arith, count-beaten_in g db.leases, s.capacity g r e);
    single = λ g i. omega (arith, count-beaten_on g i db.leases, s.single g i);
    idle =
        All-update_where (IsIdleUnlessLive db.leases) (IsIdleUnlessLive (beaten db.leases)) _ _
          db.items (idle-beaten db.leases) s.idle;
    linked =
        All-IsLinked-update_leases _ (beat heartbeat_at now row)
          (unfold beat in λ l. (refl, refl, refl, refl)) _ db.leases
          (All-imp (IsLinked db.attempts) (IsLinked _) db.leases
            (IsLinked-Carries db.attempts _ (Carries-beat db.attempts)) s.linked);
    latest =
        All-IsLatest-update_items db.attempts _ _ (run_item now) db.items
          (unfold run_item in λ it. (refl, refl, refl)) (Carries-beat db.attempts) s.latest;
    item_keys =
        item_keys-update_items _ (run_item now) (unfold run_item in λ it. (refl, refl)) db.items
          s.item_keys;
    lease_ids =
        lease_ids-update_leases _ (beat heartbeat_at now row)
          (unfold beat in λ l. (refl, refl, refl, refl)) db.leases s.lease_ids;
    group_keys = s.group_keys;
    attempt_keys = attempt_keys-warn warnings _ (
        attempt_keys-update_attempts _ (run_attempt now)
          (unfold run_attempt in λ a. (refl, refl, refl, refl)) db.attempts s.attempt_keys);
  }

-- What a heartbeat that succeeds has found, and the tables that it leaves.
pub record Beat (db : Db) (lease_id : String) (input : TimeInput) (called now : ℕ) (l : LeaseRow)
    (db' : Db) : Type 0 where
  pub group : String
  pub heartbeat_at : ℕ
  pub warnings : List AttemptWarning
  pub row : LeaseRow
  pub attempt : AttemptRow
  pub found : find (at_lease lease_id) db.leases ≡ some row
  pub timed : read_time input called StoreError.invalid_heartbeat_at ≡ ok heartbeat_at
  pub checked : check_heartbeat group heartbeat_at now row ≡ ok tt
  pub result : l ≡ beat heartbeat_at now row row
  pub tables : db' ≡ heartbeat_effect group heartbeat_at now warnings row attempt db

record_parallel_heartbeat-Beat :
    (run group lease : String) (input : TimeInput) (warnings : List AttemptWarning) (called now : ℕ)
    (db : Db) {l : LeaseRow} {db' : Db}
    → record_parallel_heartbeat run group lease input warnings called now db ≡ ok (l, db')
    → Beat db lease input called now l db'
unfolding record_parallel_heartbeat
record_parallel_heartbeat-Beat run group lease input warnings called now db {l} {db'} h =
    let (r, e1, h1) = >>=-eq-ok (assert_safe_run_instance_id run) _ h in
    let (g, e2, h2) = >>=-eq-ok (assert_safe_parallel_id group) _ h1 in
    let (s, e3, h3) = >>=-eq-ok (assert_safe_parallel_id lease) _ h2 in
    let (u, e4, h4) = >>=-eq-ok (load_run_row db r) _ h3 in
    let (t, e5, h5) = >>=-eq-ok (read_time input called StoreError.invalid_heartbeat_at) _ h4 in
    let (row, e6, h6) = >>=-eq-ok (load_lease db s) _ h5 in
    let (v, e7, h7) = >>=-eq-ok (check_heartbeat g t now row) _ h6 in
    let (attempt, e8, h8) = >>=-eq-ok (load_attempt db row.attempt_id) _ h7 in
    let same : s ≡ lease = assert_safe_parallel_id-same lease e3 in
    record {
      group = g;
      heartbeat_at = t;
      warnings = warnings;
      row = row;
      attempt = attempt;
      found = subst (λ k. find (at_lease k) db.leases ≡ some row) same (require-eq-ok _ _ e6);
      timed = e5;
      checked = e7;
      result = sym (ok_pair h8).0;
      tables = sym (ok_pair h8).1;
    }

-- A heartbeat that succeeds leaves sound tables sound.
pub record_parallel_heartbeat-IsSound :
    (run group lease : String) (input : TimeInput) (warnings : List AttemptWarning) (called now : ℕ)
    (db : Db) {l : LeaseRow} {db' : Db}
    → record_parallel_heartbeat run group lease input warnings called now db ≡ ok (l, db')
    → IsSound db
    → IsSound db'
record_parallel_heartbeat-IsSound run group lease input warnings called now db h s =
    let b = record_parallel_heartbeat-Beat run group lease input warnings called now db h in
    subst IsSound (sym b.tables)
      (heartbeat_effect-IsSound b.group b.heartbeat_at now b.warnings b.row b.attempt db s)

lease_ttl_ms_pos : (row : LeaseRow) → 1 ≤ lease_ttl_ms row
unfolding lease_ttl_ms
lease_ttl_ms_pos row = ground arith

check_heartbeat-ok :
    (group : String) (t now : ℕ) (row : LeaseRow)
    → check_heartbeat group t now row ≡ ok tt
    → (row.status ≡ LeaseStatus.active)
      × (now < effective_expiry_ms row)
      × (or_else row.heartbeat_at row.leased_at ≤ t)
unfolding check_heartbeat lease_is_expired
check_heartbeat-ok group t now row h =
    let (u, e1, h1) = >>=-eq-ok (guard (row.group_id == group) _) _ h in ground arith

beat_extends : (t now : ℕ) (row : LeaseRow) → now < effective_expiry_ms (beat t now row row)
unfolding beat effective_expiry_ms
beat_extends t now row = omega (arith, lease_ttl_ms_pos row)

heartbeat_effect-found :
    (group : String) (t now : ℕ) (ws : List AttemptWarning) (row : LeaseRow) (a : AttemptRow)
    (db : Db) (lease : String)
    → find (at_lease lease) db.leases ≡ some row
    → find (at_lease lease) (heartbeat_effect group t now ws row a db).leases
      ≡ some (beat t now row row)
unfolding heartbeat_effect
heartbeat_effect-found group t now ws row a db lease h =
    let self : (row.lease_id == row.lease_id) ≡ true = (eq_iff row.lease_id row.lease_id).1 refl in
    let changed =
      find-update_where (at_lease row.lease_id) (beat t now row) (at_lease lease) db.leases
        (unfold beat in λ l. refl) h in
    changed ∙ rw self

beat_kept :
    (t now : ℕ) (row : LeaseRow)
    → row.status ≡ LeaseStatus.active
    → or_else row.heartbeat_at row.leased_at ≤ t
    → (or_else row.heartbeat_at row.leased_at
        ≤ or_else (beat t now row row).heartbeat_at (beat t now row row).leased_at)
      × ((beat t now row row).status ≡ LeaseStatus.active)
unfolding beat
beat_kept t now row a h = (h, a)

-- The time of a request is the one that it names, and the time of the call when it names none.
abbrev pub IsTimeOf : TimeInput → ℕ → Option ℕ → Type 0
IsTimeOf TimeInput.omitted called recorded = recorded ≡ some called
IsTimeOf TimeInput.invalid called recorded = ⊥
IsTimeOf (TimeInput.at t) called recorded = recorded ≡ some t

read_time-IsTimeOf :
    (input : TimeInput) (called t : ℕ)
    → read_time input called StoreError.invalid_heartbeat_at ≡ ok t
    → IsTimeOf input called (some t)
read_time-IsTimeOf TimeInput.omitted called t h = ground arith
read_time-IsTimeOf TimeInput.invalid called t h = ground arith
read_time-IsTimeOf (TimeInput.at u) called t h = ground arith

beat_records : (t now : ℕ) (row l : LeaseRow) → (beat t now row l).heartbeat_at ≡ some t
unfolding beat
beat_records t now row l = refl

-- A heartbeat succeeds only on a lease that is active and whose term has not run out, never with a
-- time before the one recorded last; the lease then records the time of the request, which is the time
-- of the call where the request names none, stays active, and its term ends after the present time.
pub record_parallel_heartbeat_lem :
    (run group lease : String) (input : TimeInput) (warnings : List AttemptWarning) (called now : ℕ)
    (db : Db) {l : LeaseRow} {db' : Db}
    → record_parallel_heartbeat run group lease input warnings called now db ≡ ok (l, db')
    → (row : LeaseRow) × (find (at_lease lease) db.leases ≡ some row)
      × (row.status ≡ LeaseStatus.active)
      × (now < effective_expiry_ms row)
      × (or_else row.heartbeat_at row.leased_at ≤ or_else l.heartbeat_at l.leased_at)
      × (find (at_lease lease) db'.leases ≡ some l)
      × IsTimeOf input called l.heartbeat_at
      × (l.status ≡ LeaseStatus.active)
      × (now < effective_expiry_ms l)
record_parallel_heartbeat_lem run group lease input warnings called now db {l} {db'} h =
    let b = record_parallel_heartbeat-Beat run group lease input warnings called now db h in
    let (active, fresh, later) = check_heartbeat-ok b.group b.heartbeat_at now b.row b.checked in
    let (after, still) = beat_kept b.heartbeat_at now b.row active later in
    let found =
      heartbeat_effect-found b.group b.heartbeat_at now b.warnings b.row b.attempt db lease
        b.found in
    (
      b.row,
      b.found,
      active,
      fresh,
      subst (λ x. or_else b.row.heartbeat_at b.row.leased_at ≤ or_else x.heartbeat_at x.leased_at)
          (sym b.result) after,
      subst₂ (λ x d. find (at_lease lease) d.leases ≡ some x) (sym b.result) (sym b.tables) found,
      subst (IsTimeOf input called)
          (sym (ap (λ x. x.heartbeat_at) b.result ∙ beat_records b.heartbeat_at now b.row b.row))
          (read_time-IsTimeOf input called b.heartbeat_at b.timed),
      subst (λ x. x.status ≡ LeaseStatus.active) (sym b.result) still,
      subst (λ x. now < effective_expiry_ms x) (sym b.result)
          (beat_extends b.heartbeat_at now b.row),
    )
