-- ===== src/Fleet/Haul/Legal.antt =====
-- Every method of `HaulTaskController` moves the statuses of its haul along their tables.
use amr_warehouse_navigation.Common.{
  Bool, true, false, ◌≡◌, refl, Option, none, some, string_key, ℕ, if◌then◌else◌, ⊤, Outcome,
  returned, raised, Method, pure, reads, require, raise_if, when, ◌>>=◌, ◌>>◌, ◌∙◌,
}
use amr_warehouse_navigation.Common.Int.{ℤ}
use amr_warehouse_navigation.Fleet.Errors.{Error}
use amr_warehouse_navigation.Fleet.Events.{Reason}
use amr_warehouse_navigation.Fleet.Registry.{Registry}
use amr_warehouse_navigation.Fleet.Dispatcher.{Dispatcher}
use amr_warehouse_navigation.Fleet.Stations.{Config}
use amr_warehouse_navigation.Fleet.Lifecycle.{HaulTaskSnapshot, wms_allowed, phase_allowed}
use amr_warehouse_navigation.Fleet.Haul.{
  Haul, Step, in_dispatcher, in_registry, fail, cancel, requeue,
}
use amr_warehouse_navigation.Fleet.Haul.Run.{
  Contexts, assign, start, complete_navigation_to_pickup, complete_pickup,
  complete_navigation_to_dropoff, complete_dropoff,
}

pub data HaulCall : Type 0 where
  assigns : ℕ → ℤ → HaulCall
  starts acknowledges_pickup acknowledges_dropoff : HaulCall
  reaches_pickup reaches_dropoff : Bool → HaulCall
  fails cancels requeues : Reason → HaulCall

module _ (config : Config) (contexts : Contexts) where
  unfoldable pub run_haul : HaulCall → Haul → Outcome Error HaulTaskSnapshot × Haul
  run_haul (HaulCall.assigns now timeout) = assign config now timeout
  run_haul HaulCall.starts = start
  run_haul HaulCall.acknowledges_pickup = complete_pickup
  run_haul HaulCall.acknowledges_dropoff = complete_dropoff
  run_haul (HaulCall.reaches_pickup failing) = complete_navigation_to_pickup contexts failing
  run_haul (HaulCall.reaches_dropoff failing) = complete_navigation_to_dropoff contexts failing
  run_haul (HaulCall.fails reason) = fail reason
  run_haul (HaulCall.cancels reason) = cancel reason
  run_haul (HaulCall.requeues reason) = requeue reason

-- One state after another along a table, in any number of moves.
pub data Moves {A : Type 0} (table : A → A → Bool) (start : A) : A → Type 0 where
  stay : Moves table start start
  move : {b c : A} → Moves table start b → table b c ≡ true → Moves table start c

Moves-trans :
    {A : Type 0} {table : A → A → Bool} {a b c : A}
    → Moves table a b
    → Moves table b c
    → Moves table a c
Moves-trans p stay = p
Moves-trans p (move q e) = move (Moves-trans p q) e

-- The task and its stations stay, and each status has moved along its table.
pub record Legal (before after : HaulTaskSnapshot) : Type 0 where
  pub same_task : after.task_id ≡ before.task_id
  pub same_pickup : after.pickup_station ≡ before.pickup_station
  pub same_dropoff : after.dropoff_station ≡ before.dropoff_station
  pub status_moves : Moves wms_allowed before.wms_status after.wms_status
  pub phase_moves : Moves phase_allowed before.execution_phase after.execution_phase

pub Legal-refl : (s : HaulTaskSnapshot) → Legal s s
Legal-refl s = record {
  same_task = refl;
  same_pickup = refl;
  same_dropoff = refl;
  status_moves = stay;
  phase_moves = stay;
}

pub Legal-trans : {a b c : HaulTaskSnapshot} → Legal a b → Legal b c → Legal a c
Legal-trans p q = record {
  same_task = q.same_task ∙ p.same_task;
  same_pickup = q.same_pickup ∙ p.same_pickup;
  same_dropoff = q.same_dropoff ∙ p.same_dropoff;
  status_moves = Moves-trans p.status_moves q.status_moves;
  phase_moves = Moves-trans p.phase_moves q.phase_moves;
}

-- A step that is legal from every haul, whether it returns or raises.
pub data LegalStep {A : Type 0} (m : Step A) : Type 0 where
  legal : ((h : Haul) → Legal h.snapshot (m h).1.snapshot) → LegalStep m

pub Legal-run :
    {A : Type 0} {m : Step A} → LegalStep m → (h : Haul) → Legal h.snapshot (m h).1.snapshot
Legal-run (legal p) = p

continue :
    {A B : Type 0} (f : A → Step B) (s : HaulTaskSnapshot) (r : Outcome Error A) (h : Haul)
    → Legal s h.snapshot
    → ((a : A) → LegalStep (f a))
    → Legal s
        (elim r as (λ _. Outcome Error B × Haul) [
          | returned a ↦ f a h
          | raised e ↦ (raised e, h)
        ]).1.snapshot
continue f s (returned a) h p q = Legal-trans p (Legal-run (q a) h)
continue f s (raised e) h p q = p

pub then_legal :
    {A B : Type 0} {m : Step A} {f : A → Step B}
    → LegalStep m
    → ((a : A) → LegalStep (f a))
    → LegalStep (m >>= f)
then_legal {m = m} {f = f} (legal p) q = legal λ h. continue f h.snapshot (m h).0 (m h).1 (p h) q

pub next_legal :
    {A B : Type 0} {m : Step A} {n : Step B} → LegalStep m → LegalStep n → LegalStep (m >> n)
next_legal p q = then_legal p (λ _. q)

pub reads_legal : {A : Type 0} (f : Haul → A) → LegalStep (reads f)
reads_legal f = legal λ h. Legal-refl h.snapshot

pub pure_legal : {A : Type 0} (a : A) → LegalStep {A = A} (pure a)
pure_legal a = legal λ h. Legal-refl h.snapshot

pub raise_if_legal : (b : Bool) (e : Error) → LegalStep (raise_if b e)
raise_if_legal true e = legal λ h. Legal-refl h.snapshot
raise_if_legal false e = legal λ h. Legal-refl h.snapshot

pub require_legal : {A : Type 0} (e : Error) (o : Option A) → LegalStep (require e o)
require_legal e none = legal λ h. Legal-refl h.snapshot
require_legal e (some a) = legal λ h. Legal-refl h.snapshot

pub in_dispatcher_legal : {A : Type 0} (m : Method Error Dispatcher A) → LegalStep (in_dispatcher m)
in_dispatcher_legal m = legal λ h. Legal-refl h.snapshot

pub in_registry_legal : {A : Type 0} (m : Method Error Registry A) → LegalStep (in_registry m)
in_registry_legal m = legal λ h. Legal-refl h.snapshot

pub when_legal : (b : Bool) {m : Step ⊤} → LegalStep m → LegalStep (when b m)
when_legal true p = p
when_legal false p = pure_legal tt

pub if_legal :
    {A : Type 0} (b : Bool) {m n : Step A}
    → LegalStep m
    → LegalStep n
    → LegalStep (if b then m else n)
if_legal true p q = p
if_legal false p q = q

pub snapshot_legal : LegalStep (reads (λ h. h.snapshot))
snapshot_legal = reads_legal (λ h. h.snapshot)
