-- ===== src/Fleet/Resources/Deadlock.antt =====
-- `acquire_ordered` takes the resources in order, and goes on past one that it must wait for.
use amr_warehouse_navigation.Common.{
  true, ◌≡◌, ◌≢◌, sym, ap, subst, ◌∙◌, Option, none, some, List, [], ◌∷◌, String, string_key, ℕ,
  returned, arith,
}
use text.Mathlib.TextEquality.{eq_iff}
use amr_warehouse_navigation.Common.Order.{text_leb, sort, place}
use amr_warehouse_navigation.Fleet.Resources.{
  LockManager, ResourceAcquireResult, acquire, acquire_all, acquire_ordered, distinct,
}
use amr_warehouse_navigation.Fleet.Resources.Ownership.{Stands, Leaves, acquire-Acquires}
use amr_warehouse_navigation.Fleet.Resources.Queues.{queue_after, answer}

Stands-Leaves :
    (m n : LockManager) (r s : String) (owner owner' : Option String) (queue queue' : List String)
    → Leaves m n r owner queue
    → s ≢ r
    → Stands m s owner' queue'
    → Stands n s owner' queue'
Stands-Leaves m n r s owner owner' queue queue' leaves apart o = record {
  resource = o.resource;
  found = (leaves.others s apart).0 ∙ o.found;
  own_id = o.own_id;
  owned = o.owned;
  queued = (leaves.others s apart).1 ∙ o.queued;
}

pair_runs :
    (m n o : LockManager) (robot r s : String) (ts : Option ℕ) {x y : ResourceAcquireResult}
    → acquire r robot ts m ≡ (returned x, n)
    → acquire s robot ts n ≡ (returned y, o)
    → acquire_all robot (r ∷ s ∷ []) ts m ≡ (returned ((r, x) ∷ (s, y) ∷ []), o)
unfolding acquire_all
pair_runs m n o robot r s ts run run' = ground (arith, run, run')

in_order :
    (robot r s : String) (ts : Option ℕ) (m : LockManager)
    → r ≢ s
    → text_leb r s ≡ true
    → acquire_ordered robot (r ∷ s ∷ []) ts m ≡ acquire_all robot (r ∷ s ∷ []) ts m
unfolding acquire_ordered distinct sort place
in_order robot r s ts m apart below = ground (arith, below, eq_iff r s, eq_iff s r)

answer_other :
    (owner robot : String)
    → owner ≢ robot
    → answer (some owner) robot ≡ ResourceAcquireResult.waiting
answer_other owner robot two = ground (arith, eq_iff owner robot)

queue_after_other :
    (owner robot : String) → owner ≢ robot → queue_after (some owner) [] robot ≡ robot ∷ []
queue_after_other owner robot two = ground (arith, eq_iff owner robot)

-- A robot that asks for the resource of another one becomes the first to wait for it.
waits :
    (m : LockManager) (r owner robot : String) (ts : Option ℕ)
    → owner ≢ robot
    → Stands m r (some owner) []
    → (n : LockManager) × (acquire r robot ts m ≡ (returned ResourceAcquireResult.waiting, n))
      × Leaves m n r (some owner) (robot ∷ [])
waits m r owner robot ts two s =
    let (result, leaves) = acquire-Acquires m r robot ts (some owner) [] s in
    (
      (acquire r robot ts m).1,
      ap (λ x. (x, (acquire r robot ts m).1)) (result ∙ ap returned (answer_other owner robot two)),
      subst (Leaves m (acquire r robot ts m).1 r (some owner)) (queue_after_other owner robot two)
          leaves,
    )

-- Two resources in order, the first one owned by one robot and nobody waiting for either, the
-- second one free. Another robot that asks for both through `acquire_ordered` is told to wait for
-- the first one and gets the second one all the same. When the first robot then goes on to the
-- second one, in the same order, it waits too: each robot owns what the other one waits for.
pub acquire_ordered_deadlocks :
    (m : LockManager) (r s holder robot : String) (ts ts' : Option ℕ)
    → r ≢ s
    → text_leb r s ≡ true
    → holder ≢ robot
    → Stands m r (some holder) []
    → Stands m s none []
    → (n : LockManager) × (o : LockManager) × (acquire_ordered robot (r ∷ s ∷ []) ts m ≡ (
      returned ((r, ResourceAcquireResult.waiting) ∷ (s, ResourceAcquireResult.acquired) ∷ []),
      n,
    ))
      × (acquire s holder ts' n ≡ (returned ResourceAcquireResult.waiting, o))
      × Stands o r (some holder) (robot ∷ [])
      × Stands o s (some robot) (holder ∷ [])
acquire_ordered_deadlocks m r s holder robot ts ts' apart below two held free =
    let (n, run, first) = waits m r holder robot ts two held in
    let (result, second) =
      acquire-Acquires n s robot ts none []
        (Stands-Leaves m n r s (some holder) none (robot ∷ []) [] first (flip apart) free) in
    let o = (acquire s robot ts n).1 in
    let (end, run', third) = waits o s robot holder ts' (flip two) second.stands in
    (
      o,
      end,
      in_order robot r s ts m apart below
          ∙ pair_runs m n o robot r s ts run (ap (λ x. (x, o)) result),
      run',
      Stands-Leaves o end s r (some robot) (some holder) (holder ∷ []) (robot ∷ []) third apart (
          Stands-Leaves n o s r (some robot) (some holder) [] (robot ∷ []) second apart
            first.stands),
      third.stands,
    )
  where
    flip : {a b : String} → a ≢ b → b ≢ a
    flip h e = h (sym e)
