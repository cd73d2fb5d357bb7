-- ===== src/Store/Error.antt =====
-- The codes of `RunnerStoreError` in services/protocol-runner-api/src/store.ts, a violated constraint
-- of the schema, and the results of operations that may throw.
use protocol_runner.Common.{Bool, true, false, Option, none, some, ◌≡◌, refl}

pub data StoreError : Type 0 where
  invalid_run_instance_id invalid_parallel_id invalid_attempt invalid_step_id : StoreError
  run_not_found group_missing item_missing attempt_missing lease_missing : StoreError
  invalid_capacity invalid_lease_ttl preflight_required group_not_leaseable : StoreError
  invalid_heartbeat_at lease_group_mismatch lease_not_active lease_expired : StoreError
  heartbeat_regressed attempt_group_mismatch lease_attempt_mismatch : StoreError
  attempt_not_active item_not_retryable attempt_still_active invalid_observed_at : StoreError
  constraint : StoreError

-- An operation either throws or returns.
pub data Result {κ} (R : Type κ) : Type κ where
  err : StoreError → Result R
  ok : R → Result R

-- `if (!passed) throw …`.
abbrev pub guard : (passed : Bool) (thrown : StoreError) → Result (Unit {0})
guard false thrown = err thrown
guard true thrown = ok tt

-- A row that has to be there.
abbrev pub require {κ} : {R : Type κ} → Option R → StoreError → Result R
require (some row) thrown = ok row
require none thrown = err thrown

infixl 5 ◌>>=◌
infixl 5 ◌>>◌
-- The statements after one that may throw.
abbrev pub ◌>>=◌ {κ μ} : {R : Type κ} {S : Type μ} → Result R → (rest : R → Result S) → Result S
err thrown >>= rest = err thrown
ok value >>= rest = rest value

abbrev pub ◌>>◌ {μ} : {S : Type μ} (first : Result (Unit {0})) (rest : Result S) → Result S
first >> rest = first >>= (λ done. rest)

module _ {κ μ} {R : Type κ} {S : Type μ} where
  -- What a successful sequence has done.
  pub >>=-eq-ok :
      (first : Result R) (rest : R → Result S) {s : S}
      → (first >>= rest) ≡ ok s
      → (value : R) × (first ≡ ok value) × (rest value ≡ ok s)
  >>=-eq-ok (err thrown) rest h = absurd (cc)
  >>=-eq-ok (ok value) rest h = (value, refl, h)

pub >>-eq-ok {κ} :
    {B : Type κ} (c : Bool) (e : StoreError) (k : Result B) {b : B}
    → (guard c e >> k) ≡ ok b
    → (c ≡ true) × (k ≡ ok b)
>>-eq-ok true e k h = (refl, h)
>>-eq-ok false e k h = absurd (cc)

pub require-eq-ok {ℓ} :
    {A : Type ℓ} (o : Option A) (e : StoreError) {a : A} → require o e ≡ ok a → o ≡ some a
require-eq-ok none e h = absurd (cc)
require-eq-ok (some b) e h = cc

pub ok_pair {ℓ κ} :
    {A : Type ℓ} {B : Type κ} {a c : A} {b d : B}
    → ◌≡◌ {A = Result (A × B)} (ok (a, b)) (ok (c, d))
    → (a ≡ c) × (b ≡ d)
ok_pair h = (cc, cc)

pub ok_inj {ℓ} : {A : Type ℓ} {a b : A} → ok a ≡ ok b → a ≡ b
ok_inj h = cc
