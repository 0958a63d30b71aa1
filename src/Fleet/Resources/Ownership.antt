-- ===== src/Fleet/Resources/Ownership.antt =====
-- Who owns a resource and who waits for it, under `acquire` and `release`.
use amr_warehouse_navigation.Common.{
  true, false, ◌≡◌, ◌≢◌, refl, ap, ◌∙◌, inl, inr, Option, none, some, List, [], ◌∷◌, ◌++◌, String,
  ◌==◌, string_key, ℕ, contains, or_default, Outcome, returned, arith, Bool-cases, same_refl,
}
use text.Mathlib.TextEquality.{eq_iff}
use amr_warehouse_navigation.Common.Dict.{lookup, insert, lookup-insert}
use amr_warehouse_navigation.Fleet.Errors.{Error}
use amr_warehouse_navigation.Fleet.Robots.{whole_second}
use amr_warehouse_navigation.Fleet.Resources.{
  ResourceEvent, LockManager, ResourceRecord, ResourceAcquireResult, owned_record, wait_for,
  take_free, acquire,
}
use amr_warehouse_navigation.Fleet.Resources.Queues.{owner_after, queue_after, answer}

-- A resource with its owner and its queue.
pub record Stands (m : LockManager) (r : String) (owner : Option String) (queue : List String)
    : Type 0 where
  pub resource : ResourceRecord
  pub found : lookup r m.resources ≡ some resource
  pub own_id : resource.resource_id ≡ r
  pub owned : resource.owner_robot_id ≡ owner
  pub queued : lookup r m.wait_queues ≡ some queue

-- What a call on `r` leaves: its owner and its queue, and every other resource as it was.
pub record Leaves (before after : LockManager) (r : String) (owner : Option String)
    (queue : List String) : Type 0 where
  pub stands : Stands after r owner queue
  pub others :
      (s : String)
      → s ≢ r
      → (lookup s after.resources ≡ lookup s before.resources)
        × (lookup s after.wait_queues ≡ lookup s before.wait_queues)

-- The states that the writes of `acquire` and `release` build, whatever events they log.
pub Leaves-put :
    (m : LockManager) (r : String) (resource : ResourceRecord) (queue : List String)
    (events : List ResourceEvent)
    → resource.resource_id ≡ r
    → lookup r m.wait_queues ≡ some queue
    → Leaves m
        (record m { resources = insert r resource m.resources; events = events })
        r
        resource.owner_robot_id
        queue
Leaves-put m r resource queue events own queued = record {
  stands = record {
    resource = resource;
    found = rw (lookup-insert r r resource m.resources, same_refl r);
    own_id = own;
    owned = refl;
    queued = queued;
  };
  others = λ s apart. (ground (arith, lookup-insert r s resource m.resources, eq_iff r s), refl);
}

pub Leaves-queue :
    (m : LockManager) (r : String) (owner : Option String) (old queue : List String)
    (events : List ResourceEvent)
    → Stands m r owner old
    → Leaves m
        (record m { wait_queues = insert r queue m.wait_queues; events = events })
        r
        owner
        queue
Leaves-queue m r owner old queue events s = record {
  stands = record {
    resource = s.resource;
    found = s.found;
    own_id = s.own_id;
    owned = s.owned;
    queued = rw (lookup-insert r r queue m.wait_queues, same_refl r);
  };
  others = λ j apart. (refl, ground (arith, lookup-insert r j queue m.wait_queues, eq_iff r j));
}

pub take_free_runs :
    (m : LockManager) (r robot : String) (ts : Option ℕ) (resource : ResourceRecord)
    → lookup r m.resources ≡ some resource
    → resource.owner_robot_id ≡ none
    → (events : List ResourceEvent) × (acquire r robot ts m ≡ (
      returned ResourceAcquireResult.acquired,
      record m {
        resources =
            insert r (owned_record r robot (or_default ts (whole_second m.clock))) m.resources;
        events = events;
      },
    ))
unfolding acquire take_free wait_for
take_free_runs m r robot ts resource found free =
    ((acquire r robot ts m).1.events, ground (arith, found, free))

own_runs :
    (m : LockManager) (r robot : String) (ts : Option ℕ) (resource : ResourceRecord)
    → lookup r m.resources ≡ some resource
    → resource.owner_robot_id ≡ some robot
    → acquire r robot ts m ≡ (returned ResourceAcquireResult.already_owned, m)
unfolding acquire
own_runs m r robot ts resource found mine = ground (arith, found, mine, same_refl robot)

wait_again_runs :
    (m : LockManager) (r robot owner : String) (ts : Option ℕ) (resource : ResourceRecord)
    (queue : List String)
    → lookup r m.resources ≡ some resource
    → resource.owner_robot_id ≡ some owner
    → (owner == robot) ≡ false
    → lookup r m.wait_queues ≡ some queue
    → contains queue robot ≡ true
    → acquire r robot ts m ≡ (returned ResourceAcquireResult.waiting, m)
unfolding acquire wait_for
wait_again_runs m r robot owner ts resource queue found owned other queued waits =
    ground (arith, found, owned, queued)

wait_runs :
    (m : LockManager) (r robot owner : String) (ts : Option ℕ) (resource : ResourceRecord)
    (queue : List String)
    → lookup r m.resources ≡ some resource
    → resource.owner_robot_id ≡ some owner
    → (owner == robot) ≡ false
    → lookup r m.wait_queues ≡ some queue
    → contains queue robot ≡ false
    → (events : List ResourceEvent) × (acquire r robot ts m ≡ (
      returned ResourceAcquireResult.waiting,
      record m { wait_queues = insert r (queue ++ robot ∷ []) m.wait_queues; events = events },
    ))
unfolding acquire wait_for
wait_runs m r robot owner ts resource queue found owned other queued waits =
    ((acquire r robot ts m).1.events, ground (arith, found, owned, queued))

pub Leaves-refl :
    (m : LockManager) (r : String) (owner : Option String) (queue : List String)
    → Stands m r owner queue
    → Leaves m m r owner queue
Leaves-refl m r owner queue s = record { stands = s; others = λ j apart. (refl, refl) }

abbrev pub Acquires :
    LockManager
    → String
    → String
    → Option String
    → List String
    → Outcome Error ResourceAcquireResult × LockManager
    → Type 0
Acquires m r robot owner queue (result, after) =
    (result ≡ returned (answer owner robot))
    × Leaves m after r (owner_after owner robot) (queue_after owner queue robot)

-- `acquire` answers by the owner alone: a free resource goes to the robot, its owner keeps it, and
-- for any other robot it stays with its owner, and the robot stands in the queue, at the end if it
-- was not in it. No other resource is touched.
pub acquire-Acquires :
    (m : LockManager) (r robot : String) (ts : Option ℕ) (owner : Option String)
    (queue : List String)
    → Stands m r owner queue
    → Acquires m r robot owner queue (acquire r robot ts m)
acquire-Acquires m r robot ts none queue s =
    let (events, run) = take_free_runs m r robot ts s.resource s.found s.owned in
    rw run (
      refl,
      Leaves-put m r (owned_record r robot (or_default ts (whole_second m.clock))) queue events refl
          s.queued,
    )
acquire-Acquires m r robot ts (some owner) queue s = elim (Bool-cases (owner == robot)) [
  | inl mine ↦
      rw
        (
          own_runs m r robot ts s.resource s.found
              (s.owned ∙ ap some ((eq_iff owner robot).0 mine)),
          mine,
        )
        (refl, Leaves-refl m r (some owner) queue s)
  | inr other ↦ elim (Bool-cases (contains queue robot)) [
    | inl waits ↦
        rw
          (
            wait_again_runs m r robot owner ts s.resource queue s.found s.owned other s.queued
                waits,
            other,
            waits,
          )
          (refl, Leaves-refl m r (some owner) queue s)
    | inr new ↦
        let (events, run) =
          wait_runs m r robot owner ts s.resource queue s.found s.owned other s.queued new in
        rw (run, other, new)
          (refl, Leaves-queue m r (some owner) queue (queue ++ robot ∷ []) events s)
  ]
]
