-- ===== src/Fleet/Examples/Locks.antt =====
-- The theorems on resource locks, on two resources.
use amr_warehouse_navigation.Common.{
  true, ◌≡◌, ◌≢◌, refl, Option, none, some, List, [], ◌∷◌, String, string_key, returned, arith,
  ◌==◌, Bool-cases, inl, inr, subst,
}
use text.Mathlib.TextEquality.{eq_iff}
use amr_warehouse_navigation.Common.Dict.{lookup}
use amr_warehouse_navigation.Common.Order.{text_leb, lex_leb}
use amr_warehouse_navigation.Fleet.Resources.{
  LockManager, ResourceRecord, ResourceAcquireResult, free_record, owned_record, acquire, release,
  acquire_ordered,
}
use amr_warehouse_navigation.Fleet.Resources.Ownership.{Stands, Acquires, acquire-Acquires}
use amr_warehouse_navigation.Fleet.Resources.Releases.{Releases, release-Releases}
use amr_warehouse_navigation.Fleet.Resources.Invariant.{
  InOrder, InOrder-here, IsManager, LockCall, run_locks, run_locks-IsManager,
}
use amr_warehouse_navigation.Fleet.Resources.Deadlock.{acquire_ordered_deadlocks}

abbrev aisle : String
aisle = "aisle"

abbrev dock : String
dock = "dock"

abbrev far : String
far = "far"

abbrev near : String
near = "near"

abbrev manager : List String → LockManager
manager waiting = record {
  resources = (aisle, owned_record aisle far 3000000) ∷ (dock, free_record dock 3000000) ∷ [];
  wait_queues = (aisle, waiting) ∷ (dock, []) ∷ [];
  events = [];
  ownership_timeout = 60000000;
  clock = 5500000;
}

aisle-Stands : (waiting : List String) → Stands (manager waiting) aisle (some far) waiting
unfolding lookup
aisle-Stands waiting = record {
  resource = owned_record aisle far 3000000;
  found = refl;
  own_id = refl;
  owned = refl;
  queued = refl;
}

dock-Stands : (waiting : List String) → Stands (manager waiting) dock none []
unfolding lookup
dock-Stands waiting = record {
  resource = free_record dock 3000000;
  found = refl;
  own_id = refl;
  owned = refl;
  queued = refl;
}

acquire-Acquires_example :
    Acquires (manager []) aisle near (some far) [] (acquire aisle near none (manager []))
acquire-Acquires_example =
    acquire-Acquires (manager []) aisle near none (some far) [] (aisle-Stands [])

release-Releases_example :
    Releases
      (manager (near ∷ "loaded" ∷ []))
      aisle
      (near ∷ "loaded" ∷ [])
      (release aisle far none (manager (near ∷ "loaded" ∷ [])))
release-Releases_example =
    release-Releases (manager (near ∷ "loaded" ∷ [])) aisle far none (near ∷ "loaded" ∷ [])
      (aisle-Stands (near ∷ "loaded" ∷ []))

far_is_not_near : ◌≢◌ {A = Option String} (some far) (some near)
far_is_not_near e = cc

abbrev KnownAs : String → ResourceRecord → Type 0
KnownAs r resource =
    lookup r (manager []).resources ≡ some resource → InOrder (manager []) r resource.owner_robot_id

IsManager-manager : IsManager (manager [])
unfolding lookup
IsManager-manager r resource found = elim (Bool-cases (aisle == r)) [
  | inl same ↦
      moved aisle ((eq_iff aisle r).0 same)
        (InOrder-here (manager []) aisle (some far) [] resource (aisle-Stands []) refl) found
  | inr other ↦ elim (Bool-cases (dock == r)) [
    | inl same ↦
        moved dock ((eq_iff dock r).0 same)
          (InOrder-here (manager []) dock none [] resource (dock-Stands []) refl) found
    | inr another ↦ ground (arith, found)
  ]
]
  where
    moved : (j : String) → j ≡ r → KnownAs j resource → KnownAs r resource
    moved j same = subst (λ k. KnownAs k resource) same

abbrev calls : List LockCall
calls =
    LockCall.acquires aisle near none
    ∷ LockCall.releases aisle far none
    ∷ LockCall.releases aisle far none
    ∷ []

run_locks-IsManager_example : IsManager (run_locks calls (manager []))
run_locks-IsManager_example = run_locks-IsManager calls (manager []) IsManager-manager

aisle_is_not_dock : aisle ≢ dock
aisle_is_not_dock e = cc

aisle_first : text_leb aisle dock ≡ true
unfolding text_leb lex_leb
aisle_first = refl

far_is_another : far ≢ near
far_is_another e = cc

acquire_ordered_deadlocks_example :
    (n : LockManager) × (o : LockManager) × (acquire_ordered near
        (aisle ∷ dock ∷ [])
        none
        (manager [])
      ≡ (
        returned
            ((aisle, ResourceAcquireResult.waiting) ∷ (dock, ResourceAcquireResult.acquired) ∷ []),
        n,
      ))
    × (acquire dock far none n ≡ (returned ResourceAcquireResult.waiting, o))
    × Stands o aisle (some far) (near ∷ [])
    × Stands o dock (some near) (far ∷ [])
acquire_ordered_deadlocks_example =
    acquire_ordered_deadlocks (manager []) aisle dock far near none none aisle_is_not_dock
      aisle_first far_is_another (aisle-Stands []) (dock-Stands [])
