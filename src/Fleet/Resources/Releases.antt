-- ===== src/Fleet/Resources/Releases.antt =====
-- `release` of a resource: who gets it next.
use amr_warehouse_navigation.Common.{
  ◌≡◌, ◌≢◌, refl, ◌∙◌, Option, none, some, List, [], ◌∷◌, ◌++◌, String, string_key, ℕ, or_default,
  Outcome, returned, raised, arith, same_refl,
}
use text.Mathlib.TextEquality.{eq_iff}
use amr_warehouse_navigation.Common.Dict.{lookup, insert}
use amr_warehouse_navigation.Fleet.Errors.{Error, resource_ownership}
use amr_warehouse_navigation.Fleet.Robots.{whole_second}
use amr_warehouse_navigation.Fleet.Resources.{
  LockManager, ResourceRecord, ResourceReason, ResourceAcquireResult, free_record, owned_record,
  acquire, hand_over, release,
}
use amr_warehouse_navigation.Fleet.Resources.Ownership.{
  Stands, Leaves, Leaves-put, Leaves-queue, Leaves-refl, take_free_runs,
}

-- The longest waiting robot, and the others.
abbrev pub heir : List String → Option String
heir [] = none
heir (next ∷ _) = some next

abbrev pub later : List String → List String
later [] = []
later (_ ∷ rest) = rest

Leaves-trans :
    (m n o : LockManager) (r : String) (owner owner' : Option String) (queue queue' : List String)
    → Leaves m n r owner queue
    → Leaves n o r owner' queue'
    → Leaves m o r owner' queue'
Leaves-trans m n o r owner owner' queue queue' p q = record {
  stands = q.stands;
  others = λ s apart.
      ((q.others s apart).0 ∙ (p.others s apart).0, (q.others s apart).1 ∙ (p.others s apart).1);
}

abbrev taken_off : LockManager → String → List String → LockManager
taken_off m r rest = record m { wait_queues = insert r rest m.wait_queues }

hand_over_first :
    (m n : LockManager) (r next : String) (rest : List String) (ts : ℕ)
    → acquire r next (some ts) (taken_off m r rest) ≡ (returned ResourceAcquireResult.acquired, n)
    → hand_over r (next ∷ rest) ts m ≡ (returned tt, n)
unfolding hand_over
hand_over_first m n r next rest ts run = ground (arith, run)

-- The loop of `release` on a free resource gives it to the longest waiting robot.
hand_over_runs :
    (m : LockManager) (r : String) (queue : List String) (ts : ℕ)
    → Stands m r none queue
    → (n : LockManager) × (hand_over r queue ts m ≡ (returned tt, n))
      × Leaves m n r (heir queue) (later queue)
unfolding hand_over
hand_over_runs m r [] ts s = (m, refl, Leaves-refl m r none [] s)
hand_over_runs m r (next ∷ rest) ts s =
    let waiting = Leaves-queue m r none (next ∷ rest) rest m.events s in
    let t = waiting.stands in
    let (events, run) =
      take_free_runs (taken_off m r rest) r next (some ts) t.resource t.found t.owned in
    (
      record (taken_off m r rest) {
        resources = insert r (owned_record r next ts) m.resources;
        events = events;
      },
      hand_over_first m _ r next rest ts run,
      Leaves-trans m (taken_off m r rest) _ r none (some next) rest rest waiting
          (Leaves-put (taken_off m r rest) r (owned_record r next ts) rest events refl t.queued),
    )

-- The state in which `release` looks for the next owner.
abbrev freed : LockManager → String → String → ℕ → LockManager
freed m r robot ts = record m {
  resources = insert r (free_record r ts) m.resources;
  events =
      m.events
      ++ record {
        timestamp = ts;
        event = "RESOURCE_RELEASED";
        resource_id = r;
        robot_id = some robot;
        reason = some ResourceReason.explicit_release;
      }
        ∷ [];
}

release_runs :
    (m n : LockManager) (r robot : String) (ts : Option ℕ) (queue : List String)
    (resource result : ResourceRecord)
    → lookup r m.resources ≡ some resource
    → resource.owner_robot_id ≡ some robot
    → lookup r m.wait_queues ≡ some queue
    → hand_over r queue
        (or_default ts (whole_second m.clock))
        (freed m r robot (or_default ts (whole_second m.clock)))
      ≡ (returned tt, n)
    → lookup r n.resources ≡ some result
    → release r robot ts m ≡ (returned result, n)
unfolding release
release_runs m n r robot ts queue resource result found owned queued run after =
    ground (arith, found, owned, queued, run, after, same_refl robot)

abbrev pub Releases :
    LockManager → String → List String → Outcome Error ResourceRecord × LockManager → Type 0
Releases m r queue (raised x, n) = ⊥
Releases m r queue (returned resource, n) =
    (resource.owner_robot_id ≡ heir queue)
    × (lookup r n.resources ≡ some resource)
    × Leaves m n r (heir queue) (later queue)

-- The owner's `release` returns: the resource goes to the longest waiting robot, the others keep
-- their order, and without a waiting robot it is free. No other resource is touched.
pub release-Releases :
    (m : LockManager) (r robot : String) (ts : Option ℕ) (queue : List String)
    → Stands m r (some robot) queue
    → Releases m r queue (release r robot ts m)
release-Releases m r robot ts queue s =
    let time = or_default ts (whole_second m.clock) in
    let free =
      Leaves-put m r (free_record r time) queue (freed m r robot time).events refl s.queued in
    let (n, run, leaves) = hand_over_runs (freed m r robot time) r queue time free.stands in
    let t = leaves.stands in
    rw
      (release_runs m n r robot ts queue s.resource t.resource s.found s.owned s.queued run t.found)
      (
        t.owned,
        t.found,
        Leaves-trans m (freed m r robot time) n r none (heir queue) queue (later queue) free leaves,
      )

-- A `release` by a robot that does not own the resource raises `ResourceOwnershipError` and changes
-- nothing.
pub release_not_owner :
    (m : LockManager) (r robot : String) (ts : Option ℕ) (owner : Option String)
    (queue : List String)
    → Stands m r owner queue
    → owner ≢ some robot
    → release r robot ts m ≡ (raised resource_ownership, m)
unfolding release
release_not_owner m r robot ts none queue s apart = ground (arith, s.found, s.owned)
release_not_owner m r robot ts (some owner) queue s apart =
    ground (arith, s.found, s.owned, eq_iff owner robot)
