-- ===== src/Store/Invariant.antt =====
-- services/protocol-runner-api/src/store.ts: the invariant of the parallel tables between two
-- transactions, and lemmas on updates of single tables.
pub mod Updates
pub mod Keys
pub mod Heartbeat
pub mod ResultRows
pub mod AttemptResult
pub mod Retry
pub mod Control
pub mod Grant
pub mod Recover
pub mod GrantRows
pub mod GrantRound
pub mod GrantLoop
pub mod RecoverRows
pub mod RecoverLoop
use protocol_runner.Common.{
  eq_iff, Bool-cases, inl, inr, true, false, ℕ, ◌≤◌, ◌≡◌, ◌≢◌, refl, sym, ◌∙◌, subst, ap, Bool,
  true, false, ◌&&◌, ◌==◌, String, Option, some, List, [], ◌∷◌, ◌++◌, All, Pairwise, find, count,
  arith, if◌then◌else◌, Bool-cases, inl, inr,
}
use protocol_runner.Store.Rows.{GroupRow, ItemRow, AttemptRow, LeaseRow, is_live, is_active}
use protocol_runner.Store.Tables.{
  Db, update_where, at_group, at_item, at_attempt, active_in, active_on,
}
use protocol_runner.Store.Tables.Laws.{
  find-update_where, All-update_where, find-update_where_inv, find-append_left,
}

pub some-equal : {x y : String} → some x ≡ some y → x ≡ y
some-equal e = cc

-- An item that is neither leased nor running has no active lease.
abbrev pub IsIdleUnlessLive : List LeaseRow → ItemRow → Type 0
IsIdleUnlessLive leases it =
    is_live it.status ≡ false → count (active_on it.group_id it.item_id) leases ≡ 0

-- The attempt of a lease is there, and belongs to the lease's group and item.
abbrev pub IsLinked : List AttemptRow → LeaseRow → Type 0
IsLinked attempts l =
    (a : AttemptRow) × (find (at_attempt l.attempt_id) attempts ≡ some a)
    × (a.group_id ≡ l.group_id)
    × (a.item_id ≡ l.item_id)

-- The latest attempt of an item, where there is one, belongs to the item.
abbrev pub IsLatest : List AttemptRow → ItemRow → Type 0
IsLatest attempts it =
    (id : String)
    → it.latest_attempt_id ≡ some id
    → (a : AttemptRow) × (find (at_attempt id) attempts ≡ some a)
      × (a.group_id ≡ it.group_id)
      × (a.item_id ≡ it.item_id)

abbrev pub IsOtherItem : ItemRow → ItemRow → Type 0
IsOtherItem x y = ¬ ((x.group_id ≡ y.group_id) × (x.item_id ≡ y.item_id))

abbrev pub IsOtherLease : LeaseRow → LeaseRow → Type 0
IsOtherLease x y = x.lease_id ≢ y.lease_id

abbrev pub IsOtherGroup : GroupRow → GroupRow → Type 0
IsOtherGroup x y = (x.group_id ≢ y.group_id) × (x.step_id ≢ y.step_id)

-- Another id, and another number where the item is the same.
abbrev pub IsOtherAttempt : AttemptRow → AttemptRow → Type 0
IsOtherAttempt x y =
    (x.attempt_id ≢ y.attempt_id)
    × ¬ (
        (x.group_id ≡ y.group_id) × (x.item_id ≡ y.item_id) × (x.attempt_number ≡ y.attempt_number))

abbrev pub HasRoom : List LeaseRow → List GroupRow → Type 0
HasRoom leases groups =
    (g : String) (row : GroupRow)
    → find (at_group g) groups ≡ some row
    → count (active_in g) leases ≤ row.max_concurrency

-- A group has no more active leases than its bound on concurrency, an item at most one, and none
-- unless it is leased or running; leases, and items for their latest attempt, refer to attempts of
-- their own item; no two groups have the same id or step, no two items the same group and id, no two
-- attempts the same id or, within an item, the same number, and no two leases the same id.
pub record IsSound (db : Db) : Type 0 where
  pub capacity : HasRoom db.leases db.groups
  pub single : (g i : String) → count (active_on g i) db.leases ≤ 1
  pub idle : All (IsIdleUnlessLive db.leases) db.items
  pub linked : All (IsLinked db.attempts) db.leases
  pub latest : All (IsLatest db.attempts) db.items
  pub item_keys : Pairwise IsOtherItem db.items
  pub lease_ids : Pairwise IsOtherLease db.leases
  pub group_keys : Pairwise IsOtherGroup db.groups
  pub attempt_keys : Pairwise IsOtherAttempt db.attempts
