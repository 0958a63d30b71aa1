-- ===== src/Fleet/Resources/Invariant.antt =====
-- Every history of `acquire` and `release` calls keeps the lock manager in order.
use amr_warehouse_navigation.Common.{
  true, false, ◌≡◌, ◌≢◌, inl, inr, refl, sym, subst, ◌∙◌, Option, none, some, List, [], ◌∷◌, String,
  ◌==◌, string_key, ℕ, Outcome, returned, raised, arith, Option-cases, Bool-cases,
}
use text.Mathlib.TextEquality.{eq_iff}
use amr_warehouse_navigation.Common.Dict.{lookup}
use amr_warehouse_navigation.Fleet.Errors.{Error, resource_not_found}
use amr_warehouse_navigation.Fleet.Resources.{LockManager, ResourceRecord, acquire, release}
use amr_warehouse_navigation.Fleet.Resources.Ownership.{Stands, Leaves, acquire-Acquires}
use amr_warehouse_navigation.Fleet.Resources.Queues.{is_orderly, queue_after-is_orderly}
use amr_warehouse_navigation.Fleet.Resources.Releases.{
  heir, later, Releases, release-Releases, release_not_owner,
}

-- A resource with an orderly queue.
pub record InOrder (m : LockManager) (r : String) (owner : Option String) : Type 0 where
  pub queue : List String
  pub stands : Stands m r owner queue
  pub orderly : is_orderly owner queue ≡ true

-- Each resource has an orderly queue.
abbrev pub IsManager : LockManager → Type 0
IsManager m =
    (r : String) (resource : ResourceRecord)
    → lookup r m.resources ≡ some resource
    → InOrder m r resource.owner_robot_id

InOrder-Leaves :
    (m n : LockManager) (r s : String) (owner owner' : Option String) (queue : List String)
    → Leaves m n r owner queue
    → s ≢ r
    → InOrder m s owner'
    → InOrder n s owner'
InOrder-Leaves m n r s owner owner' queue leaves apart o = record {
  queue = o.queue;
  stands = record {
    resource = o.stands.resource;
    found = (leaves.others s apart).0 ∙ o.stands.found;
    own_id = o.stands.own_id;
    owned = o.stands.owned;
    queued = (leaves.others s apart).1 ∙ o.stands.queued;
  };
  orderly = o.orderly;
}

pub InOrder-here :
    (n : LockManager) (r : String) (owner : Option String) (queue : List String)
    (resource : ResourceRecord)
    → Stands n r owner queue
    → is_orderly owner queue ≡ true
    → lookup r n.resources ≡ some resource
    → InOrder n r resource.owner_robot_id
InOrder-here n r owner queue resource s orderly found =
    subst (InOrder n r) owner_of (record { queue = queue; stands = s; orderly = orderly })
  where
    owner_of : owner ≡ resource.owner_robot_id
    owner_of = ground (arith, s.found, s.owned)

Leaves-IsManager :
    (m n : LockManager) (r : String) (owner : Option String) (queue : List String)
    → IsManager m
    → Leaves m n r owner queue
    → is_orderly owner queue ≡ true
    → IsManager n
Leaves-IsManager m n r owner queue ok leaves orderly s resource found = elim (Bool-cases (s == r)) [
  | inl same ↦ here ((eq_iff s r).0 same) found
  | inr other ↦
      InOrder-Leaves m n r s owner resource.owner_robot_id queue leaves (apart other)
        (ok s resource (sym ((leaves.others s (apart other)).0) ∙ found))
]
  where
    apart : (s == r) ≡ false → s ≢ r
    apart other same = ground (arith, eq_iff s r)

    here : s ≡ r → lookup s n.resources ≡ some resource → InOrder n s resource.owner_robot_id
    here same found' =
        subst (λ j. lookup j n.resources ≡ some resource → InOrder n j resource.owner_robot_id)
          (sym same) (InOrder-here n r owner queue resource leaves.stands orderly) found'

heir-is_orderly :
    (robot : String) (queue : List String)
    → is_orderly (some robot) queue ≡ true
    → is_orderly (heir queue) (later queue) ≡ true
heir-is_orderly robot [] h = refl
heir-is_orderly robot (next ∷ rest) h = ground arith

acquire_missing :
    (m : LockManager) (r robot : String) (ts : Option ℕ)
    → lookup r m.resources ≡ none
    → acquire r robot ts m ≡ (raised resource_not_found, m)
unfolding acquire
acquire_missing m r robot ts absent = ground (arith, absent)

release_missing :
    (m : LockManager) (r robot : String) (ts : Option ℕ)
    → lookup r m.resources ≡ none
    → release r robot ts m ≡ (raised resource_not_found, m)
unfolding release
release_missing m r robot ts absent = ground (arith, absent)

acquire-IsManager :
    (m : LockManager) (r robot : String) (ts : Option ℕ)
    → IsManager m
    → IsManager (acquire r robot ts m).1
acquire-IsManager m r robot ts ok = elim (Option-cases (lookup r m.resources)) [
  | inl absent ↦ rw (acquire_missing m r robot ts absent) ok
  | inr (resource, found) ↦
      let o = ok r resource found in
      Leaves-IsManager m (acquire r robot ts m).1 r _ _ ok
        (acquire-Acquires m r robot ts resource.owner_robot_id o.queue o.stands).1
        (queue_after-is_orderly resource.owner_robot_id o.queue robot o.orderly)
]

Releases-IsManager :
    (m : LockManager) (r robot : String) (queue : List String)
    (result : Outcome Error ResourceRecord × LockManager)
    → IsManager m
    → is_orderly (some robot) queue ≡ true
    → Releases m r queue result
    → IsManager result.1
Releases-IsManager m r robot queue (raised x, n) ok orderly h = absurd h
Releases-IsManager m r robot queue (returned resource, n) ok orderly (_, _, leaves) =
    Leaves-IsManager m n r (heir queue) (later queue) ok leaves
      (heir-is_orderly robot queue orderly)

release_found :
    (m : LockManager) (r robot : String) (ts : Option ℕ) (owner : Option String)
    → IsManager m
    → InOrder m r owner
    → IsManager (release r robot ts m).1
release_found m r robot ts none ok o =
    rw (release_not_owner m r robot ts none o.queue o.stands (λ e. cc)) ok
release_found m r robot ts (some owner) ok o = elim (Bool-cases (owner == robot)) [
  | inl mine ↦ by_owner ((eq_iff owner robot).0 mine) o
  | inr other ↦ rw (release_not_owner m r robot ts (some owner) o.queue o.stands (apart other)) ok
]
  where
    by_owner : owner ≡ robot → InOrder m r (some owner) → IsManager (release r robot ts m).1
    by_owner same =
        subst (λ x. InOrder m r (some x) → IsManager (release r robot ts m).1) (sym same)
          λ p.
            Releases-IsManager m r robot p.queue (release r robot ts m) ok p.orderly
              (release-Releases m r robot ts p.queue p.stands)

    apart : (owner == robot) ≡ false → some owner ≢ some robot
    apart other same = ground (arith, eq_iff owner robot)

release-IsManager :
    (m : LockManager) (r robot : String) (ts : Option ℕ)
    → IsManager m
    → IsManager (release r robot ts m).1
release-IsManager m r robot ts ok = elim (Option-cases (lookup r m.resources)) [
  | inl absent ↦ rw (release_missing m r robot ts absent) ok
  | inr (resource, found) ↦
      release_found m r robot ts resource.owner_robot_id ok (ok r resource found)
]

pub data LockCall : Type 0 where
  acquires releases : String → String → Option ℕ → LockCall

unfoldable pub run_lock : LockCall → LockManager → LockManager
run_lock (LockCall.acquires r robot ts) m = (acquire r robot ts m).1
run_lock (LockCall.releases r robot ts) m = (release r robot ts m).1

unfoldable pub run_locks : List LockCall → LockManager → LockManager
run_locks [] m = m
run_locks (c ∷ cs) m = run_locks cs (run_lock c m)

-- If each resource has a queue, nobody waits for a free resource, no owner waits for its own one
-- and nobody waits twice, then this is still so after every history of `acquire` and `release`
-- calls, whether they return or raise.
pub run_locks-IsManager :
    (cs : List LockCall) (m : LockManager) → IsManager m → IsManager (run_locks cs m)
unfolding run_locks run_lock
run_locks-IsManager [] m ok = ok
run_locks-IsManager (LockCall.acquires r robot ts ∷ cs) m ok =
    run_locks-IsManager cs (acquire r robot ts m).1 (acquire-IsManager m r robot ts ok)
run_locks-IsManager (LockCall.releases r robot ts ∷ cs) m ok =
    run_locks-IsManager cs (release r robot ts m).1 (release-IsManager m r robot ts ok)
