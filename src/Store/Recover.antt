-- ===== src/Store/Recover.antt =====
-- services/protocol-runner-api/src/store.ts: `recoverStaleParallelLeases`. Whether the directory of
-- an attempt is proven absent (`attemptDirectoryIsProvenAbsentSync`) is read from the file system:
-- the parameter `absent`, by the lease.
use Prim.Native.Nat.{Ordering}
use Prim.Native.String.{compare}
use protocol_runner.Common.{
  ℕ, String, Bool, true, false, ◌&&◌, ◌||◌, not, List, [], ◌∷◌, ◌++◌, keep, ltb, sort_by,
  if◌then◌else◌,
}
use protocol_runner.Store.Error.{Result, ok, ◌>>=◌, ◌>>◌, StoreError}
use protocol_runner.Store.Rows.{
  GroupStatus, ItemStatus, AttemptStatus, LeaseStatus, GroupRow, ItemRow, AttemptRow, LeaseRow,
  is_active, is_active_attempt, is_live, is_paused,
}
use protocol_runner.Store.Ids.{assert_safe_run_instance_id, assert_safe_parallel_id}
use protocol_runner.Store.Heartbeat.{TimeInput, read_time}
use protocol_runner.Store.Tables.{
  Db, update_where, at_group, at_item, at_attempt, at_lease, active_in, load_run_row, load_group,
  load_attempt, lease_is_expired, compute_group_status,
}

-- `ORDER BY leased_at, lease_id`.
unfoldable pub lease_le : LeaseRow → LeaseRow → Bool
lease_le a b =
    ltb a.leased_at b.leased_at
    || not (ltb b.leased_at a.leased_at)
      && (elim (compare a.lease_id b.lease_id) [ Ordering.gt ↦ false | _ ↦ true ])

-- The active leases of the group that are expired.
unfoldable pub stale_rows : Db → String → ℕ → List LeaseRow
unfolding sort_by lease_le
stale_rows db group observed =
    keep (λ l. lease_is_expired l observed) (sort_by lease_le (keep (active_in group) db.leases))

-- `can_requeue_without_new_attempt`.
unfoldable pub can_requeue : (LeaseRow → Bool) → LeaseRow → AttemptRow → Bool
can_requeue absent row attempt = absent row && is_active_attempt attempt.status

unfoldable pub expire_lease : ℕ → LeaseRow → LeaseRow
expire_lease observed l = record l { status = LeaseStatus.expired; updated_at = observed }

unfoldable pub requeue_attempt : ℕ → AttemptRow → AttemptRow
requeue_attempt observed a = record a {
  status = AttemptStatus.created;
  warnings = [];
  updated_at = observed;
}

unfoldable pub stale_attempt : ℕ → AttemptRow → AttemptRow
stale_attempt observed a = record a { status = AttemptStatus.stale; updated_at = observed }

unfoldable pub set_item : ItemStatus → ℕ → ItemRow → ItemRow
set_item status observed it = record it { status = status; updated_at = observed }

-- The updates for one stale lease. Either branch changes only an attempt and an item that are
-- leased or running.
unfoldable pub recover_effect : String → ℕ → Bool → LeaseRow → Db → Db
unfolding expire_lease requeue_attempt stale_attempt set_item
recover_effect group observed requeue row db = record db {
  leases =
      update_where (λ l. at_lease row.lease_id l && is_active l.status) (expire_lease observed)
        db.leases;
  attempts =
      update_where (λ a. at_attempt row.attempt_id a && is_active_attempt a.status)
        (if requeue then requeue_attempt observed else stale_attempt observed) db.attempts;
  items =
      update_where (λ it. at_item group row.item_id it && is_live it.status)
        (set_item (if requeue then ItemStatus.pending else ItemStatus.needs_recovery) observed)
        db.items;
}

-- The leases that were requeued and those that need attention; the lists of attempt and item ids of
-- the source are read off them, and the stale ones are both.
pub record Recovery : Type 0 where
  pub requeued : List LeaseRow
  pub attention : List LeaseRow

-- The loop over the stale rows.
unfoldable pub recover_rows :
    (LeaseRow → Bool) → String → ℕ → List LeaseRow → Recovery → Db → Result (Recovery × Db)
unfolding can_requeue recover_effect
recover_rows absent group observed [] r db = ok (r, db)
recover_rows absent group observed (row ∷ rows) r db = do
  attempt ← load_attempt db row.attempt_id
  let requeue = can_requeue absent row attempt
  let r' : Recovery =
      if requeue
      then record r { requeued = r.requeued ++ row ∷ [] }
      else record r { attention = r.attention ++ row ∷ [] }
  recover_rows absent group observed rows r' (recover_effect group observed requeue row db)

-- The group's status is computed again if a lease was stale, but a paused group stays paused.
unfoldable pub refresh_unless_paused : GroupRow → String → ℕ → List LeaseRow → Db → Db
refresh_unless_paused row group observed [] db = db
refresh_unless_paused row group observed (l ∷ ls) db = record db {
  groups =
      update_where (at_group group)
        (λ g. record g {
          status =
              if is_paused row.status then GroupStatus.paused else compute_group_status db group;
          updated_at = observed;
        })
        db.groups;
}

unfoldable pub recover_stale_parallel_leases :
    (LeaseRow → Bool) → String → String → TimeInput → ℕ → Db → Result (Recovery × Db)
unfolding stale_rows recover_rows refresh_unless_paused
recover_stale_parallel_leases absent run_instance_id group_id input now db = do
  run ← assert_safe_run_instance_id run_instance_id
  group ← assert_safe_parallel_id group_id
  load_run_row db run
  observed ← read_time input now StoreError.invalid_observed_at
  row ← load_group db group
  let stale = stale_rows db group observed
  done ← recover_rows absent group observed stale (record { requeued = []; attention = [] }) db
  ok (done.0, refresh_unless_paused row group observed stale done.1)
