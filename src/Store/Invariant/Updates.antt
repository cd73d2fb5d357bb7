-- ===== src/Store/Invariant/Updates.antt =====
-- services/protocol-runner-api/src/store.ts: what updates of single tables leave of the invariant.
use protocol_runner.Common.{
  eq_iff, Bool-cases, inl, inr, ◌≤◌, ◌≡◌, refl, sym, ◌∙◌, subst, ap, Bool, ◌==◌, String, some, List,
  [], ◌∷◌, ◌++◌, All, Pairwise, find, count, arith, if◌then◌else◌, Bool-cases, inl, inr,
}
use protocol_runner.Store.Rows.{GroupRow, ItemRow, AttemptRow, LeaseRow}
use protocol_runner.Store.Tables.{update_where, at_group, at_item, at_attempt, active_in}
use protocol_runner.Store.Tables.Laws.{
  find-update_where, All-update_where, find-update_where_inv, find-append_left,
}
use protocol_runner.Store.Invariant.{
  HasRoom, IsLatest, IsLinked, IsOtherItem, IsOtherLease, IsOtherGroup, some-equal,
}

pub Pairwise-update_where {ℓ κ} :
    {A : Type ℓ} (R : A → A → Type κ) (p : A → Bool) (f : A → A) (xs : List A)
    → ((x y : A) → R x y → R (if p x then f x else x) (if p y then f y else y))
    → Pairwise R xs
    → Pairwise R (update_where p f xs)
unfolding update_where
Pairwise-update_where R p f [] h k = tt
Pairwise-update_where R p f (x ∷ xs) h (q, k) = (
  All-update_where (R x) (R (if p x then f x else x)) p f xs (h x) q,
  Pairwise-update_where R p f xs h k,
)

-- Updates that leave the keys of a table alone.
abbrev pub KeepsGroups : (GroupRow → GroupRow) → Type 0
KeepsGroups f =
    (g : GroupRow)
    → ((f g).group_id ≡ g.group_id)
      × ((f g).max_concurrency ≡ g.max_concurrency)
      × ((f g).step_id ≡ g.step_id)

abbrev pub KeepsItems : (ItemRow → ItemRow) → Type 0
KeepsItems f = (it : ItemRow) → ((f it).group_id ≡ it.group_id) × ((f it).item_id ≡ it.item_id)

abbrev pub KeepsLatest : (ItemRow → ItemRow) → Type 0
KeepsLatest f =
    (it : ItemRow)
    → ((f it).group_id ≡ it.group_id)
      × ((f it).item_id ≡ it.item_id)
      × ((f it).latest_attempt_id ≡ it.latest_attempt_id)

abbrev pub KeepsAttempts : (AttemptRow → AttemptRow) → Type 0
KeepsAttempts f =
    (a : AttemptRow)
    → ((f a).group_id ≡ a.group_id)
      × ((f a).item_id ≡ a.item_id)
      × ((f a).attempt_id ≡ a.attempt_id)
      × ((f a).attempt_number ≡ a.attempt_number)

abbrev pub KeepsLeases : (LeaseRow → LeaseRow) → Type 0
KeepsLeases f =
    (l : LeaseRow)
    → ((f l).group_id ≡ l.group_id)
      × ((f l).item_id ≡ l.item_id)
      × ((f l).attempt_id ≡ l.attempt_id)
      × ((f l).lease_id ≡ l.lease_id)

module _ (p : GroupRow → Bool) (f : GroupRow → GroupRow) (keeps : KeepsGroups f) where
  pub HasRoom-update_groups :
      (leases : List LeaseRow) (groups : List GroupRow)
      → HasRoom leases groups
      → HasRoom leases (update_where p f groups)
  HasRoom-update_groups leases groups h g row e =
      let (old, found, same) =
        find-update_where_inv p f (at_group g) groups (λ x. ap (λ s. s == g) (keeps x).0) e in
      ground (arith, h g old found, keeps old)

  pub group_keys-update_groups :
      (groups : List GroupRow)
      → Pairwise IsOtherGroup groups
      → Pairwise IsOtherGroup (update_where p f groups)
  group_keys-update_groups groups h =
      Pairwise-update_where IsOtherGroup p f groups
        (λ x y other. (
          (λ e. ground (arith, keeps x, keeps y, other.0)),
          (λ e. ground (arith, keeps x, keeps y, other.1)),
        ))
        h

pub HasRoom-le :
    (leases fewer : List LeaseRow) (groups : List GroupRow)
    → ((g : String) → count (active_in g) fewer ≤ count (active_in g) leases)
    → HasRoom leases groups
    → HasRoom fewer groups
HasRoom-le leases fewer groups le h g row e = omega (arith, le g, h g row e)

-- Every attempt is still there, with its group and its item.
abbrev pub Carries : List AttemptRow → List AttemptRow → Type 0
Carries attempts attempts' =
    (id : String) (a : AttemptRow)
    → find (at_attempt id) attempts ≡ some a
    → (b : AttemptRow) × (find (at_attempt id) attempts' ≡ some b)
      × (b.group_id ≡ a.group_id)
      × (b.item_id ≡ a.item_id)

pub IsLinked-Carries :
    (attempts attempts' : List AttemptRow)
    → Carries attempts attempts'
    → (l : LeaseRow) → IsLinked attempts l
    → IsLinked attempts' l
IsLinked-Carries attempts attempts' moved l (a, found, group, item) =
    let (b, found_b, same_group, same_item) = moved l.attempt_id a found in
    (b, found_b, same_group ∙ group, same_item ∙ item)

pub Carries-trans : (xs ys zs : List AttemptRow) → Carries xs ys → Carries ys zs → Carries xs zs
Carries-trans xs ys zs f g id a found =
    let (b, found_b, same_group, same_item) = f id a found in
    let (c, found_c, group, item) = g id b found_b in
    (c, found_c, group ∙ same_group, item ∙ same_item)

pub IsLatest-Carries :
    (attempts attempts' : List AttemptRow)
    → Carries attempts attempts'
    → (it : ItemRow) → IsLatest attempts it
    → IsLatest attempts' it
IsLatest-Carries attempts attempts' moved it l id e =
    let (a, found, group, item) = l id e in
    let (b, found_b, same_group, same_item) = moved id a found in
    (b, found_b, same_group ∙ group, same_item ∙ item)

pub Carries-append : (attempts more : List AttemptRow) → Carries attempts (attempts ++ more)
Carries-append attempts more id a found =
    (a, find-append_left (at_attempt id) attempts more found, refl, refl)

module _ (p : AttemptRow → Bool) (f : AttemptRow → AttemptRow) (keeps : KeepsAttempts f) where
  pub Carries-update_attempts :
      (attempts : List AttemptRow) → Carries attempts (update_where p f attempts)
  Carries-update_attempts attempts id a found = (
    if p a then f a else a,
    find-update_where p f (at_attempt id) attempts (λ x. ap (λ s. s == id) (keeps x).2) found,
    ground (arith, keeps a),
    ground (arith, keeps a),
  )

  pub IsLinked-update_attempts :
      (attempts : List AttemptRow) (l : LeaseRow)
      → IsLinked attempts l
      → IsLinked (update_where p f attempts) l
  IsLinked-update_attempts attempts = IsLinked-Carries attempts _ (Carries-update_attempts attempts)

-- Items whose keys and latest attempt stay, over attempts whose keys stay.
pub All-IsLatest-update_items :
    (attempts attempts' : List AttemptRow) (p : ItemRow → Bool) (f : ItemRow → ItemRow)
    (items : List ItemRow)
    → KeepsLatest f
    → Carries attempts attempts'
    → All (IsLatest attempts) items
    → All (IsLatest attempts') (update_where p f items)
All-IsLatest-update_items attempts attempts' p f items keeps moved h =
    All-update_where (IsLatest attempts) (IsLatest attempts') p f items still h
  where
    still : (it : ItemRow) → IsLatest attempts it → IsLatest attempts' (if p it then f it else it)
    still it l id e =
        let old : it.latest_attempt_id ≡ some id = ground (arith, e, keeps it) in
        let (a, found, group, item) = l id old in
        let (b, found_b, same_group, same_item) = moved id a found in
        (
          b,
          found_b,
          ground (arith, keeps it, group, same_group),
          ground (arith, keeps it, item, same_item),
        )

-- The items with the given keys get a latest attempt that belongs to them.
pub All-IsLatest-assign :
    (attempts attempts' : List AttemptRow) (g i id : String) (f : ItemRow → ItemRow)
    (items : List ItemRow) (a : AttemptRow)
    → ((it : ItemRow)
        → ((f it).group_id ≡ it.group_id)
          × ((f it).item_id ≡ it.item_id)
          × ((f it).latest_attempt_id ≡ some id))
    → Carries attempts attempts'
    → find (at_attempt id) attempts' ≡ some a
    → a.group_id ≡ g
    → a.item_id ≡ i
    → All (IsLatest attempts) items
    → All (IsLatest attempts') (update_where (at_item g i) f items)
All-IsLatest-assign attempts attempts' g i id f items a sets moved found group item h =
    All-update_where (IsLatest attempts) (IsLatest attempts') (at_item g i) f items set h
  where
    hit_latest : (it : ItemRow) → it.group_id ≡ g → it.item_id ≡ i → IsLatest attempts' (f it)
    hit_latest it same_group same_item k e =
        let same : id ≡ k = some-equal (sym (sets it).2 ∙ e) in
        (
          a,
          subst (λ x. find (at_attempt x) attempts' ≡ some a) same found,
          group ∙ sym same_group ∙ sym (sets it).0,
          item ∙ sym same_item ∙ sym (sets it).1,
        )

    set :
        (it : ItemRow)
        → IsLatest attempts it
        → IsLatest attempts' (if at_item g i it then f it else it)
    set it l = elim (Bool-cases (at_item g i it)) [
      | inl hit ↦ rw hit (
          hit_latest it (ground (arith, eq_iff it.group_id g))
            (ground (arith, eq_iff it.item_id i)))
      | inr miss ↦ rw miss (IsLatest-Carries attempts attempts' moved it l)
    ]

IsLinked-same :
    (attempts : List AttemptRow) (l k : LeaseRow)
    → l.attempt_id ≡ k.attempt_id
    → l.group_id ≡ k.group_id
    → l.item_id ≡ k.item_id
    → IsLinked attempts l
    → IsLinked attempts k
IsLinked-same attempts l k same_attempt same_group same_item (a, found, group, item) = (
  a,
  subst (λ id. find (at_attempt id) attempts ≡ some a) same_attempt found,
  group ∙ same_group,
  item ∙ same_item,
)

module _ (p : LeaseRow → Bool) (f : LeaseRow → LeaseRow) (keeps : KeepsLeases f) where
  pub All-IsLinked-update_leases :
      (attempts : List AttemptRow) (leases : List LeaseRow)
      → All (IsLinked attempts) leases
      → All (IsLinked attempts) (update_where p f leases)
  All-IsLinked-update_leases attempts leases h =
      All-update_where (IsLinked attempts) (IsLinked attempts) p f leases
        (λ l.
          IsLinked-same attempts l (if p l then f l else l) (ground (arith, keeps l))
            (ground (arith, keeps l)) (ground (arith, keeps l)))
        h

  pub lease_ids-update_leases :
      (leases : List LeaseRow)
      → Pairwise IsOtherLease leases
      → Pairwise IsOtherLease (update_where p f leases)
  lease_ids-update_leases leases h =
      Pairwise-update_where IsOtherLease p f leases (λ x y other. ground (arith, keeps x, keeps y))
        h

module _ (p : ItemRow → Bool) (f : ItemRow → ItemRow) (keeps : KeepsItems f) where
  pub item_keys-update_items :
      (items : List ItemRow)
      → Pairwise IsOtherItem items
      → Pairwise IsOtherItem (update_where p f items)
  item_keys-update_items items h =
      Pairwise-update_where IsOtherItem p f items (λ x y other. ground (arith, keeps x, keeps y)) h
