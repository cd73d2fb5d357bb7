-- ===== src/Store/Tables.antt =====
-- services/protocol-runner-api/src/store.ts: the tables of one run, and the queries and inserts that
-- the operations share. A statement's `WHERE` is a Boolean test, an `UPDATE` changes every row that
-- passes it, and an `INSERT` checks the primary and unique keys and the foreign key of the schema.
pub mod Laws
pub mod Inserts
use Prim.Native.Nat.{Ordering}
use Prim.Native.String.{compare}
use protocol_runner.Common.{
  ℕ, zero, suc, ◌+◌, ◌-◌, ◌==◌, String, Bool, true, false, not, ◌&&◌, ◌||◌, Option, none, some,
  List, [], ◌∷◌, ◌++◌, map, any, all, find, keep, count, length, ltb, leb, max, or_else, sort_by,
  if◌then◌else◌,
}
use protocol_runner.Store.Error.{Result, ok, err, ◌>>=◌, ◌>>◌, guard, require, StoreError}
use protocol_runner.Store.Rows.{
  GroupStatus, ItemStatus, GroupRow, ItemRow, AttemptRow, LeaseRow, is_active, is_attention,
  is_completed, is_pending, is_created,
}

-- The rows of the run `run_instance_id`.
pub record Db : Type 0 where
  pub run_instance_id : String
  pub groups : List GroupRow
  pub items : List ItemRow
  pub attempts : List AttemptRow
  pub leases : List LeaseRow

-- `UPDATE … WHERE test`.
unfoldable pub update_where {ℓ} : {A : Type ℓ} → (A → Bool) → (A → A) → List A → List A
update_where p f [] = []
update_where p f (x ∷ xs) = (if p x then f x else x) ∷ update_where p f xs

abbrev pub at_group : String → GroupRow → Bool
at_group g r = r.group_id == g

abbrev pub at_item : String → String → ItemRow → Bool
at_item g i r = r.group_id == g && r.item_id == i

abbrev pub at_attempt : String → AttemptRow → Bool
at_attempt a r = r.attempt_id == a

abbrev pub at_lease : String → LeaseRow → Bool
at_lease l r = r.lease_id == l

-- An active lease of the group, and of the item.
abbrev pub active_in : String → LeaseRow → Bool
active_in g r = r.group_id == g && is_active r.status

abbrev pub active_on : String → String → LeaseRow → Bool
active_on g i r = (r.group_id == g && r.item_id == i) && is_active r.status

-- `loadRunRow`: the run has to be there.
abbrev pub load_run_row : Db → String → Result (Unit {0})
load_run_row db run = guard (db.run_instance_id == run) StoreError.run_not_found

-- `loadParallelGroupRowSync` and its like.
abbrev pub load_group : Db → String → Result GroupRow
load_group db g = require (find (at_group g) db.groups) StoreError.group_missing

abbrev pub load_item : Db → String → String → Result ItemRow
load_item db g i = require (find (at_item g i) db.items) StoreError.item_missing

abbrev pub load_attempt : Db → String → Result AttemptRow
load_attempt db a = require (find (at_attempt a) db.attempts) StoreError.attempt_missing

abbrev pub load_lease : Db → String → Result LeaseRow
load_lease db l = require (find (at_lease l) db.leases) StoreError.lease_missing

abbrev pub count_active_leases : Db → String → ℕ
count_active_leases db g = count (active_in g) db.leases

-- `MAX(attempt_number)` over the attempts of the item, 0 if there is none.
unfoldable pub max_attempt_number : String → String → List AttemptRow → ℕ
max_attempt_number g i [] = 0
max_attempt_number g i (a ∷ as') =
    let rest = max_attempt_number g i as' in
    if a.group_id == g && a.item_id == i then max a.attempt_number rest else rest

unfoldable pub next_attempt_number : Db → String → String → ℕ
next_attempt_number db g i = max_attempt_number g i db.attempts + 1

-- `computeParallelGroupStatus`, from the items of the group and the number of active leases.
unfoldable pub group_status_from : List ItemRow → ℕ → GroupStatus
group_status_from items active =
    if ltb 0 (length items) && all (λ it. is_completed it.status) items
    then GroupStatus.completed
    else if any (λ it. is_attention it.status) items
    then GroupStatus.needs_attention
    else if ltb 0 active
    then GroupStatus.running
    else if any (λ it. is_pending it.status) items
    then GroupStatus.running
    else GroupStatus.needs_attention

unfoldable pub compute_group_status : Db → String → GroupStatus
unfolding group_status_from
compute_group_status db g =
    group_status_from (keep (λ it. it.group_id == g) db.items) (count_active_leases db g)

-- The `LEFT JOIN` of the candidate query: the latest attempt is missing or has status `created`.
unfoldable pub latest_is_created : Db → Option String → Bool
latest_is_created db none = true
latest_is_created db (some a) = elim (find (at_attempt a) db.attempts) [
  | none ↦ false
  | some row ↦ is_created row.status
]

unfoldable pub is_candidate : Db → String → ItemRow → Bool
unfolding latest_is_created
is_candidate db g it =
    it.group_id == g
    && is_pending it.status
    && not (any (active_on g it.item_id) db.leases)
    && latest_is_created db it.latest_attempt_id

-- `ORDER BY item_id`.
unfoldable pub item_le : ItemRow → ItemRow → Bool
item_le a b = elim (compare a.item_id b.item_id) [ Ordering.gt ↦ false | _ ↦ true ]

-- `loadLeaseCandidateRows`.
unfoldable pub lease_candidates : Db → String → List ItemRow
unfolding is_candidate sort_by item_le
lease_candidates db g = sort_by item_le (keep (is_candidate db g) db.items)

-- An attempt of the same item with the same number.
abbrev pub same_number : AttemptRow → AttemptRow → Bool
same_number row a =
    a.group_id == row.group_id
    && a.item_id == row.item_id
    && (leb a.attempt_number row.attempt_number && leb row.attempt_number a.attempt_number)

-- The keys of `parallel_attempts`: its primary key, the number within the item, the item itself.
unfoldable pub insert_attempt : AttemptRow → Db → Result Db
insert_attempt row db = do
  guard (not (any (at_attempt row.attempt_id) db.attempts)) StoreError.constraint
  guard (not (any (same_number row) db.attempts)) StoreError.constraint
  guard (any (at_item row.group_id row.item_id) db.items) StoreError.constraint
  ok (record db { attempts = db.attempts ++ row ∷ [] })

unfoldable pub insert_lease : LeaseRow → Db → Result Db
insert_lease row db = do
  guard (not (any (at_lease row.lease_id) db.leases)) StoreError.constraint
  guard (any (at_attempt row.attempt_id) db.attempts) StoreError.constraint
  ok (record db { leases = db.leases ++ row ∷ [] })

-- `DEFAULT_PARALLEL_LEASE_TTL_MS`.
abbrev pub default_lease_ttl_ms : ℕ
default_lease_ttl_ms = 300_000

-- `parallelLeaseTtlMs`: what is left of the lease at its last write, if that is positive.
unfoldable pub lease_ttl_ms : LeaseRow → ℕ
lease_ttl_ms row = elim row.expires_at [
  | none ↦ default_lease_ttl_ms
  | some expires ↦
      if ltb row.updated_at expires then expires - row.updated_at else default_lease_ttl_ms
]

-- `effectiveParallelLeaseExpiryMs` and `parallelLeaseIsExpired`.
unfoldable pub effective_expiry_ms : LeaseRow → ℕ
effective_expiry_ms row = elim row.expires_at [
  | some expires ↦ expires
  | none ↦ or_else row.heartbeat_at row.leased_at + default_lease_ttl_ms
]

unfoldable pub lease_is_expired : LeaseRow → ℕ → Bool
unfolding effective_expiry_ms
lease_is_expired row observed = leb (effective_expiry_ms row) observed
