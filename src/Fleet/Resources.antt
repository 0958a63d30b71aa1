-- ===== src/Fleet/Resources.antt =====
-- amr_warehouse_sim/fleet/resources.py, `ResourceLockManager`: logical resources that one robot
-- owns at a time, with a queue of waiting robots for each. The `resources` table is left out.
pub mod Queues
pub mod Ownership
pub mod Releases
pub mod Deadlock
pub mod Invariant
use amr_warehouse_navigation.Common.{
  Bool, true, false, not, Option, none, some, List, [], ◌∷◌, ◌++◌, String, ◌==◌, string_key, ℕ, ◌-◌,
  contains, if◌then◌else◌, is_some, leb, or_default, ⊤, Method, pure, reads, require, update, when,
  ◌>>=◌, ◌>>◌, raise_if,
}
use amr_warehouse_navigation.Common.Int.{ℤ, max_zero}
use amr_warehouse_navigation.Common.Dict.{Dict, keys, lookup, insert}
use amr_warehouse_navigation.Common.Order.{text_leb, sort}
use amr_warehouse_navigation.Fleet.Errors.{Error, key_error, resource_not_found, resource_ownership}
use amr_warehouse_navigation.Fleet.Robots.{whole_second}

pub data ResourceAcquireResult : Type 0 where
  acquired already_owned waiting : ResourceAcquireResult

pub record ResourceRecord : Type 0 where
  pub resource_id : String
  pub owner_robot_id : Option String
  pub acquired_at : Option ℕ
  pub updated_at : ℕ

pub data ResourceReason : Type 0 where
  was_free explicit_release : ResourceReason
  owned_by : Option String → ResourceReason
  ownership_exceeded : ℕ → ResourceReason

pub record ResourceEvent : Type 0 where
  pub timestamp : ℕ
  pub event : String
  pub resource_id : String
  pub robot_id : Option String
  pub reason : Option ResourceReason

-- The queue of each resource stands in a dictionary of its own, as in the program.
pub record LockManager : Type 0 where
  pub resources : Dict String ResourceRecord
  pub wait_queues : Dict String (List String)
  pub events : List ResourceEvent
  pub ownership_timeout : ℕ
  pub clock : ℕ

abbrev pub Lock : Type 0 → Type 0
Lock A = Method Error LockManager A

abbrev pub free_record : String → ℕ → ResourceRecord
free_record resource_id ts = record {
  resource_id = resource_id;
  owner_robot_id = none;
  acquired_at = none;
  updated_at = ts;
}

abbrev pub owned_record : String → String → ℕ → ResourceRecord
owned_record resource_id robot_id ts = record {
  resource_id = resource_id;
  owner_robot_id = some robot_id;
  acquired_at = some ts;
  updated_at = ts;
}

free_resources : List String → ℕ → Dict String ResourceRecord → Dict String ResourceRecord
free_resources [] ts d = d
free_resources (r ∷ rs) ts d = free_resources rs ts (insert r (free_record r ts) d)

empty_queues : List String → Dict String (List String) → Dict String (List String)
empty_queues [] d = d
empty_queues (r ∷ rs) d = empty_queues rs (insert r [] d)

-- `ResourceLockManager.__init__`
unfoldable pub new_manager : List String → ℤ → ℕ → LockManager
unfolding free_resources empty_queues
new_manager resource_ids timeout clock = record {
  resources = free_resources resource_ids (whole_second clock) [];
  wait_queues = empty_queues resource_ids [];
  events = [];
  ownership_timeout = max_zero timeout;
  clock = clock;
}

abbrev pub get_resource : String → Lock ResourceRecord
get_resource resource_id m = require resource_not_found (lookup resource_id m.resources) m

-- `self._wait_queues.get(resource_id)` with its check, and `self._wait_queues[resource_id]`
abbrev pub get_queue : String → Lock (List String)
get_queue resource_id m = require resource_not_found (lookup resource_id m.wait_queues) m

abbrev pub index_queue : String → Lock (List String)
index_queue resource_id m = require key_error (lookup resource_id m.wait_queues) m

abbrev pub put_resource : ResourceRecord → Lock ⊤
put_resource resource =
    update (λ m. record m { resources = insert resource.resource_id resource m.resources })

abbrev pub put_queue : String → List String → Lock ⊤
put_queue resource_id queue =
    update (λ m. record m { wait_queues = insert resource_id queue m.wait_queues })

abbrev pub emit : String → String → Option String → ResourceReason → ℕ → Lock ⊤
emit event resource_id robot_id reason ts = update (λ m. record m {
  events =
      m.events
      ++ record {
        timestamp = ts;
        event = event;
        resource_id = resource_id;
        robot_id = robot_id;
        reason = some reason;
      }
        ∷ [];
})

unfoldable pub is_waiting : String → String → Lock Bool
is_waiting resource_id robot_id = do queue ← get_queue resource_id; pure (contains queue robot_id)

unfoldable pub list_waiters : String → Lock (List String)
list_waiters resource_id = get_queue resource_id

-- `none` where the resource is not owned; an age below zero counts as zero.
unfoldable pub ownership_age : String → ℕ → Lock (Option ℕ)
ownership_age resource_id now = do
  resource ← get_resource resource_id
  pure (elim resource.acquired_at [ none ↦ none | some since ↦ some (now - since) ])

abbrev pub owns : ResourceRecord → String → Bool
owns resource robot_id = elim resource.owner_robot_id [
  | none ↦ false
  | some owner ↦ owner == robot_id
]

unfoldable pub wait_for : ResourceRecord → String → String → ℕ → Lock ResourceAcquireResult
wait_for resource resource_id robot_id ts = do
  queue ← index_queue resource_id
  when (not (contains queue robot_id)) (do
    put_queue resource_id (queue ++ robot_id ∷ [])
    emit "RESOURCE_WAITING" resource_id (some robot_id)
        (ResourceReason.owned_by resource.owner_robot_id) ts)
  pure ResourceAcquireResult.waiting

unfoldable pub take_free : String → String → ℕ → Lock ResourceAcquireResult
take_free resource_id robot_id ts = do
  put_resource (owned_record resource_id robot_id ts)
  emit "RESOURCE_ACQUIRED" resource_id (some robot_id) ResourceReason.was_free ts
  pure ResourceAcquireResult.acquired

unfoldable pub acquire : String → String → Option ℕ → Lock ResourceAcquireResult
acquire resource_id robot_id timestamp = do
  resource ← get_resource resource_id
  clock ← reads (λ m. m.clock)
  let ts = or_default timestamp (whole_second clock)
  if owns resource robot_id
      then pure ResourceAcquireResult.already_owned
      else if not (is_some resource.owner_robot_id)
      then take_free resource_id robot_id ts
      else wait_for resource resource_id robot_id ts

-- The resources in order, each once.
unfoldable pub distinct : List String → List String
distinct [] = []
distinct (x ∷ xs) = let rest = distinct xs in if contains rest x then rest else x ∷ rest

unfoldable pub acquire_all :
    String → List String → Option ℕ → Lock (List (String × ResourceAcquireResult))
acquire_all robot_id [] timestamp = pure []
acquire_all robot_id (r ∷ rs) timestamp = do
  result ← acquire r robot_id timestamp
  rest ← acquire_all robot_id rs timestamp
  pure ((r, result) ∷ rest)

unfoldable pub acquire_ordered :
    String → List String → Option ℕ → Lock (List (String × ResourceAcquireResult))
acquire_ordered robot_id resource_ids timestamp =
    acquire_all robot_id (sort text_leb (distinct resource_ids)) timestamp

-- The `while` loop of `release`, on the waiters in order. The first one either gets the resource or
-- goes back to the front; one that owns it already is dropped and the next is tried.
unfoldable pub hand_over : String → List String → ℕ → Lock ⊤
hand_over resource_id [] ts = pure tt
hand_over resource_id (next ∷ rest) ts = do
  put_queue resource_id rest
  result ← acquire resource_id next (some ts)
  elim result [
    | ResourceAcquireResult.acquired ↦ pure tt
    | ResourceAcquireResult.waiting ↦ (do
      queue ← index_queue resource_id
      put_queue resource_id (next ∷ queue))
    | ResourceAcquireResult.already_owned ↦ hand_over resource_id rest ts
  ]

unfoldable pub release : String → String → Option ℕ → Lock ResourceRecord
release resource_id robot_id timestamp = do
  resource ← get_resource resource_id
  raise_if (not (owns resource robot_id)) resource_ownership
  clock ← reads (λ m. m.clock)
  let ts = or_default timestamp (whole_second clock)
  put_resource (free_record resource_id ts)
  emit "RESOURCE_RELEASED" resource_id (some robot_id) ResourceReason.explicit_release ts
  queue ← index_queue resource_id
  hand_over resource_id queue ts
  get_resource resource_id

-- `[self._resources[resource_id] for resource_id in sorted(self._resources)]`
unfoldable pub select_resources : List String → Dict String ResourceRecord → List ResourceRecord
select_resources [] d = []
select_resources (r ∷ rs) d = elim (lookup r d) [
  | none ↦ select_resources rs d
  | some resource ↦ resource ∷ select_resources rs d
]

unfoldable pub list_resources : LockManager → List ResourceRecord
list_resources m = select_resources (sort text_leb (keys m.resources)) m.resources

-- `age is None or age <= limit`
abbrev within_limit : Option ℕ → ℕ → Bool
within_limit none limit = true
within_limit (some age) limit = leb age limit

-- One round of `sweep_timeouts` on a resource with an owner: whether it was released.
unfoldable pub sweep_owned : String → String → ℕ → ℕ → Lock Bool
sweep_owned resource_id owner now limit = do
  age ← ownership_age resource_id now
  if within_limit age limit then pure false else (do
    release resource_id owner (some (whole_second now))
    emit "RESOURCE_TIMEOUT" resource_id (some owner) (ResourceReason.ownership_exceeded limit)
        (whole_second now)
    pure true)

abbrev sweep_one : ResourceRecord → Option String → Option ℕ → ℕ → ℕ → Lock Bool
sweep_one resource (some owner) (some _) now limit =
    sweep_owned resource.resource_id owner now limit
sweep_one resource none _ now limit = pure false
sweep_one resource (some _) none now limit = pure false

unfoldable pub sweep_all : List ResourceRecord → ℕ → ℕ → Lock (List String)
sweep_all [] now limit = pure []
sweep_all (resource ∷ rest) now limit = do
  released ← sweep_one resource resource.owner_robot_id resource.acquired_at now limit
  more ← sweep_all rest now limit
  pure (if released then resource.resource_id ∷ more else more)

unfoldable pub sweep_timeouts : ℕ → Option ℤ → Lock (List String)
sweep_timeouts now timeout = do
  resources ← reads list_resources
  default ← reads (λ m. m.ownership_timeout)
  sweep_all resources now (elim timeout [ none ↦ default | some t ↦ max_zero t ])
