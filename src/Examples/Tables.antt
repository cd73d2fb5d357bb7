-- ===== src/Examples/Tables.antt =====
-- services/protocol-runner-api/src/store.ts: tables with one group and one item, in several states.
use protocol_runner.Common.{
  ℕ, ◌≡◌, refl, sym, ◌∙◌, arith, String, eq_iff, true, Option, none, some, [], ◌∷◌,
}
use protocol_runner.Store.Rows.{
  GroupStatus, ItemStatus, AttemptStatus, LeaseStatus, PreflightStatus, GroupRow, ItemRow,
  AttemptRow, LeaseRow,
}
use protocol_runner.Store.Tables.{Db, at_attempt}
use protocol_runner.Store.Invariant.{IsSound, IsLatest, some-equal}

abbrev pub group : GroupStatus → GroupRow
group status = record {
  step_id = "s1";
  group_id = "g";
  status = status;
  max_concurrency = 1;
  preflight_status = PreflightStatus.passed;
  checked_at = some 100;
  checked_by = some "checker";
  updated_at = 100;
}

abbrev pub item : ItemStatus → String → ℕ → ItemRow
item status attempt_id now = record {
  step_id = "s1";
  group_id = "g";
  item_id = "i";
  status = status;
  input_ref = "input.json";
  contract_ref = "contract.md";
  sealed_output_target = "out";
  latest_attempt_id = some attempt_id;
  updated_at = now;
}

abbrev pub attempt : AttemptStatus → ℕ → AttemptRow
attempt status now = record {
  step_id = "s1";
  group_id = "g";
  item_id = "i";
  attempt_id = "a1";
  attempt_number = 1;
  status = status;
  evidence_dir = none;
  warnings = [];
  created_at = 100;
  updated_at = now;
}

abbrev pub lease : LeaseStatus → Option ℕ → ℕ → ℕ → LeaseRow
lease status heartbeat expires now = record {
  step_id = "s1";
  group_id = "g";
  item_id = "i";
  attempt_id = "a1";
  lease_id = "l1";
  executor_id = "e";
  status = status;
  leased_at = 100;
  expires_at = some expires;
  heartbeat_at = heartbeat;
  created_at = 100;
  updated_at = now;
}

abbrev tables : GroupStatus → ItemStatus → AttemptStatus → LeaseRow → ℕ → Db
tables g i a l now = record {
  run_instance_id = "run1";
  groups = group g ∷ [];
  items = item i "a1" now ∷ [];
  attempts = attempt a now ∷ [];
  leases = l ∷ [];
}

-- The item is leased until 1100.
abbrev pub leased : Db
leased =
    tables GroupStatus.running ItemStatus.leased AttemptStatus.leased
      (lease LeaseStatus.active none 1_100 100) 100

owned :
    (a : AttemptRow)
    → a.attempt_id ≡ "a1"
    → a.group_id ≡ "g"
    → a.item_id ≡ "i"
    → (it : ItemRow) → it.latest_attempt_id ≡ some "a1"
    → it.group_id ≡ "g"
    → it.item_id ≡ "i"
    → IsLatest (a ∷ []) it
owned a key group item it latest same_group same_item id e =
    let same : "a1" ≡ id = some-equal (sym latest ∙ e) in
    let hit : at_attempt id a ≡ true = ground (arith, eq_iff a.attempt_id id) in
    (a, rw hit refl, group ∙ sym same_group, item ∙ sym same_item)

pub leased-IsSound : IsSound leased
leased-IsSound = record {
  capacity = λ g row e. ground (arith, eq_iff "g" g);
  single = λ g i. ground (arith);
  idle = ((λ idle. absurd (cc)), tt);
  linked = ((attempt AttemptStatus.leased 100, refl, refl, refl), tt);
  latest = (
    owned (attempt AttemptStatus.leased 100) refl refl refl (item ItemStatus.leased "a1" 100) refl
        refl refl,
    tt,
  );
  item_keys = (tt, tt);
  lease_ids = (tt, tt);
  group_keys = (tt, tt);
  attempt_keys = (tt, tt);
}

-- The item's attempt has failed.
abbrev pub failed : Db
failed =
    tables GroupStatus.needs_attention ItemStatus.needs_recovery AttemptStatus.failed
      (lease LeaseStatus.released none 1_100 600) 600

pub failed-IsSound : IsSound failed
failed-IsSound = record {
  capacity = λ g row e. ground (arith, eq_iff "g" g);
  single = λ g i. ground (arith);
  idle = ((λ idle. refl), tt);
  linked = ((attempt AttemptStatus.failed 600, refl, refl, refl), tt);
  latest = (
    owned (attempt AttemptStatus.failed 600) refl refl refl
        (item ItemStatus.needs_recovery "a1" 600) refl refl refl,
    tt,
  );
  item_keys = (tt, tt);
  lease_ids = (tt, tt);
  group_keys = (tt, tt);
  attempt_keys = (tt, tt);
}

-- The item waits for a lease on its second try of the first attempt.
abbrev pub waiting : Db
waiting =
    tables GroupStatus.ready_to_lease ItemStatus.pending AttemptStatus.created
      (lease LeaseStatus.expired none 1_100 600) 600

pub waiting-IsSound : IsSound waiting
waiting-IsSound = record {
  capacity = λ g row e. ground (arith, eq_iff "g" g);
  single = λ g i. ground (arith);
  idle = ((λ idle. refl), tt);
  linked = ((attempt AttemptStatus.created 600, refl, refl, refl), tt);
  latest = (
    owned (attempt AttemptStatus.created 600) refl refl refl (item ItemStatus.pending "a1" 600) refl
        refl refl,
    tt,
  );
  item_keys = (tt, tt);
  lease_ids = (tt, tt);
  group_keys = (tt, tt);
  attempt_keys = (tt, tt);
}

-- A paused group whose one lease has run out.
abbrev pub paused : Db
paused =
    tables GroupStatus.paused ItemStatus.running AttemptStatus.running
      (lease LeaseStatus.active none 1_100 600) 600

pub paused-IsSound : IsSound paused
paused-IsSound = record {
  capacity = λ g row e. ground (arith, eq_iff "g" g);
  single = λ g i. ground (arith);
  idle = ((λ idle. absurd (cc)), tt);
  linked = ((attempt AttemptStatus.running 600, refl, refl, refl), tt);
  latest = (
    owned (attempt AttemptStatus.running 600) refl refl refl (item ItemStatus.running "a1" 600) refl
        refl refl,
    tt,
  );
  item_keys = (tt, tt);
  lease_ids = (tt, tt);
  group_keys = (tt, tt);
  attempt_keys = (tt, tt);
}
