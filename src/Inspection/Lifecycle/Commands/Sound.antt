-- ===== src/Inspection/Lifecycle/Commands/Sound.antt =====
-- What the phases of an inspection run attest: the invariant of the controller.
use amr_warehouse_navigation.Common.{
  Bool, true, not, ◌&&◌, ◌≡◌, refl, sym, subst, ap, ◌∙◌, inl, inr, ⊤, Option, none, some, is_some,
  List, [], ◌∷◌, ◌++◌, String, ◌==◌, nat_key, string_key, ℕ, suc, ◌+◌, if◌then◌else◌, arith, length,
  if_cases, Bool-cases, Outcome, returned, raised,
}
use amr_warehouse_navigation.Common.Int.{ℤ, leb_ℤ}
use amr_warehouse_navigation.Inspection.Models.{
  InspectionError, InspectionTask, MockObservation, passed, is_finite, EvaluationResult,
  EvidenceReference,
}
use amr_warehouse_navigation.Inspection.Lifecycle.{
  Phase, phase_index, same_phase, is_retryable, PointAttempt, Controller, Step, fresh_controller,
  edit, guarded, with_observation,
}
use amr_warehouse_navigation.Inspection.Lifecycle.Commands.{
  provenance_matches, judge_observation, with_quality, is_contracted, store_evaluation,
  store_evidence, quality_passed, is_complete, finish_point, ended,
}

phase_at : ℕ → Phase
phase_at n =
    if n == 0
    then Phase.idle
    else if n == 1
    then Phase.navigating
    else if n == 2
    then Phase.arrived
    else if n == 3
    then Phase.stabilizing
    else if n == 4
    then Phase.acquiring
    else if n == 5
    then Phase.validating
    else if n == 6
    then Phase.evaluating
    else if n == 7
    then Phase.point_succeeded
    else if n == 8
    then Phase.succeeded
    else if n == 9
    then Phase.navigation_failed
    else if n == 10
    then Phase.sensor_failed
    else if n == 11
    then Phase.data_invalid
    else if n == 12
    then Phase.inspection_failed
    else Phase.canceled

phase_at-phase_index : (p : Phase) → phase_at (phase_index p) ≡ p
unfolding phase_at
phase_at-phase_index Phase.idle = refl
phase_at-phase_index Phase.navigating = refl
phase_at-phase_index Phase.arrived = refl
phase_at-phase_index Phase.stabilizing = refl
phase_at-phase_index Phase.acquiring = refl
phase_at-phase_index Phase.validating = refl
phase_at-phase_index Phase.evaluating = refl
phase_at-phase_index Phase.point_succeeded = refl
phase_at-phase_index Phase.succeeded = refl
phase_at-phase_index Phase.navigation_failed = refl
phase_at-phase_index Phase.sensor_failed = refl
phase_at-phase_index Phase.data_invalid = refl
phase_at-phase_index Phase.inspection_failed = refl
phase_at-phase_index Phase.canceled = refl

same_phase-eq : (p q : Phase) → same_phase p q ≡ true → p ≡ q
unfolding same_phase
same_phase-eq p q h =
    let same : phase_index p ≡ phase_index q = ground arith in
    sym (phase_at-phase_index p) ∙ ap phase_at same ∙ phase_at-phase_index q

abbrev Navigated : PointAttempt → Type 0
Navigated a = a.navigation_succeeded ≡ true

abbrev Arrived : PointAttempt → Type 0
Arrived a = Navigated a × (a.arrival_accepted ≡ true)

abbrev Stabilized : PointAttempt → Type 0
Stabilized a = Arrived a × (a.stabilization_succeeded ≡ true)

-- An observation of the task's item by the run's robot at the task's point, finite and complete,
-- received after it was captured.
abbrev is_faithful : String → InspectionTask → MockObservation → Bool
is_faithful robot_id task o =
    provenance_matches robot_id task o
    && is_finite o.value
    && o.complete
    && leb_ℤ o.captured_at_ms o.received_at_ms

module _ (run_id robot_id : String) (task : InspectionTask) where
  abbrev Validated : PointAttempt → Type 0
  Validated a =
      Stabilized a
      × (o : MockObservation) × (a.observation ≡ some o)
      × (is_faithful robot_id task o ≡ true)
      × (quality_passed a.quality_result ≡ true)

  abbrev Evidenced : PointAttempt → Type 0
  Evidenced a =
      Validated a × (is_some a.evaluation_result ≡ true) × (is_some a.evidence_reference ≡ true)

  -- What has happened in an attempt that has come to a phase.
  abbrev pub Attested : PointAttempt → Phase → Type 0
  Attested a Phase.arrived = Navigated a
  Attested a Phase.stabilizing = Arrived a
  Attested a Phase.acquiring = Stabilized a
  Attested a Phase.validating = Stabilized a
  Attested a Phase.evaluating = Validated a
  Attested a Phase.point_succeeded = Evidenced a
  Attested a Phase.succeeded = Evidenced a
  Attested a Phase.sensor_failed = Stabilized a
  Attested a Phase.data_invalid = Stabilized a
  Attested a Phase.inspection_failed = Navigated a
  Attested a _ = Unit

  -- A stored evaluation is one for the maximum of the item.
  abbrev Contracted : Option EvaluationResult → Type 0
  Contracted none = Unit
  Contracted (some r) = is_contracted task r ≡ true

  -- The attempt of a number.
  abbrev IsAttempt : ℕ → PointAttempt → Type 0
  IsAttempt n a =
      (a.attempt_number ≡ n)
      × (a.attempt_id ≡ record { run_id = run_id; point_id = task.point.point_id; number = n })
      × Contracted a.evaluation_result
      × Attested a a.phase

  -- Attempts in the order of their numbers, each of them failed in a way that allows another one.
  abbrev History : ℕ → List PointAttempt → Type 0
  History n [] = Unit
  History n (a ∷ rest) = IsAttempt n a × (is_retryable a.phase ≡ true) × History (suc n) rest

  pub History-snoc :
      (n : ℕ) (xs : List PointAttempt) (a : PointAttempt)
      → History n xs
      → IsAttempt (n + length xs) a
      → is_retryable a.phase ≡ true
      → History n (xs ++ a ∷ [])
  History-snoc n [] a h good failed = (subst (λ k. IsAttempt k a) (omega arith) good, failed, tt)
  History-snoc n (x ∷ xs) a (first, ready, h) good failed = (
    first,
    ready,
    History-snoc (suc n) xs a h (subst (λ k. IsAttempt k a) (omega arith) good) failed,
  )

-- The invariant of the controller.
abbrev pub Sound : Controller → Type 0
Sound c =
    History c.run_id c.robot_id c.task 1 c.completed_attempts
    × IsAttempt c.run_id c.robot_id c.task (1 + length c.completed_attempts) c.attempt

pub fresh-Sound :
    (run_id robot_id : String) (task : InspectionTask)
    → Sound (fresh_controller run_id robot_id task)
fresh-Sound run_id robot_id task = (tt, (refl, refl, tt, tt))

pub ended_keeps : {A : Type 0} (p : Outcome _ A × Controller) → Sound p.1 → Sound (ended p).1
ended_keeps (returned a, c) h = h
ended_keeps (raised e, c) h = h

pub guarded_keeps :
    {A : Type 0} (test : Phase → Bool) (m : Step A) (c : Controller)
    → Sound c
    → (test c.attempt.phase ≡ true → Sound (m c).1)
    → Sound (guarded test m c).1
guarded_keeps test m c sound h =
    if_cases (λ p. Sound p.1) (test c.attempt.phase) (m c) _ h (λ other. sound)

-- A step of a phase, given what has been attested when the controller is there.
pub in_phase_keeps :
    {A : Type 0} (expected : Phase) (m : Step A) (c : Controller)
    → Sound c
    → (c.attempt.phase ≡ expected
        → Attested c.run_id c.robot_id c.task c.attempt expected
        → Sound (m c).1)
    → Sound (guarded (λ p. same_phase p expected) m c).1
in_phase_keeps expected m c sound h =
    guarded_keeps (λ p. same_phase p expected) m c sound
      (λ test.
        let here = same_phase-eq c.attempt.phase expected test in
        h here (subst (Attested c.run_id c.robot_id c.task c.attempt) here sound.1.3))

pub observed_keeps :
    {A : Type 0} (f : MockObservation → Step A) (c : Controller) (seen : Option MockObservation)
    → c.attempt.observation ≡ seen
    → Sound c
    → ((o : MockObservation) → c.attempt.observation ≡ some o → Sound (f o c).1)
    → Sound (with_observation seen f c).1
observed_keeps f c none e sound h = sound
observed_keeps f c (some o) e sound h = h o e

edits_keeps :
    (f : PointAttempt → PointAttempt) (c : Controller)
    → Sound c
    → IsAttempt c.run_id c.robot_id c.task (1 + length c.completed_attempts) (f c.attempt)
    → Sound (edit f c)
edits_keeps f c sound good = (sound.0, good)

judged_faithful :
    (robot_id : String) (task : InspectionTask) (o : MockObservation) (now : ℤ)
    → passed (judge_observation robot_id task o now) ≡ true
    → is_faithful robot_id task o ≡ true
unfolding judge_observation
judged_faithful robot_id task o now h = elim (Bool-cases (provenance_matches robot_id task o)) [
  | inl own ↦ rw own (ground arith)
  | inr foreign ↦ ground arith
]

pub with_quality_keeps :
    (c : Controller) (o : MockObservation) (now : ℤ)
    → Sound c
    → Stabilized c.attempt
    → c.attempt.observation ≡ some o
    → Sound (edit (with_quality (judge_observation c.robot_id c.task o now)) c)
with_quality_keeps c o now sound ready seen =
    let q = judge_observation c.robot_id c.task o now in
    let (same, own, fits, past) = sound.1 in
    (
      sound.0,
      (
        same,
        own,
        fits,
        if_cases (λ p. Attested c.run_id c.robot_id c.task (with_quality q c.attempt) p) (passed q)
            _ _ (λ good. (ready, o, seen, judged_faithful c.robot_id c.task o now good, good))
            (λ bad. ready),
      ),
    )

pub store_evaluation_keeps :
    (c : Controller) (r : EvaluationResult)
    → Sound c
    → c.attempt.phase ≡ Phase.evaluating
    → Validated c.run_id c.robot_id c.task c.attempt
    → Sound (store_evaluation r c).1
store_evaluation_keeps c r sound here valid =
    let (same, own, fits, past) = sound.1 in
    let a : PointAttempt = record c.attempt { evaluation_result = some r } in
    if_cases (λ (p : Outcome InspectionError EvaluationResult × Controller). Sound p.1)
      (not (is_contracted c.task r)) _ _ (λ foreign. sound)
      (λ contracted. (
        sound.0,
        (same, own, ground arith, subst (Attested c.run_id c.robot_id c.task a) (sym here) valid),
      ))

Attested-with_evidence :
    (run_id robot_id : String) (task : InspectionTask) (a : PointAttempt) (e : EvidenceReference)
    (p : Phase)
    → Attested run_id robot_id task a p
    → Attested run_id robot_id task (record a { evidence_reference = some e }) p
Attested-with_evidence run_id robot_id task a e Phase.point_succeeded h = (h.0, h.1, refl)
Attested-with_evidence run_id robot_id task a e Phase.succeeded h = (h.0, h.1, refl)
Attested-with_evidence run_id robot_id task a e Phase.idle h = h
Attested-with_evidence run_id robot_id task a e Phase.navigating h = h
Attested-with_evidence run_id robot_id task a e Phase.arrived h = h
Attested-with_evidence run_id robot_id task a e Phase.stabilizing h = h
Attested-with_evidence run_id robot_id task a e Phase.acquiring h = h
Attested-with_evidence run_id robot_id task a e Phase.validating h = h
Attested-with_evidence run_id robot_id task a e Phase.evaluating h = h
Attested-with_evidence run_id robot_id task a e Phase.navigation_failed h = h
Attested-with_evidence run_id robot_id task a e Phase.sensor_failed h = h
Attested-with_evidence run_id robot_id task a e Phase.data_invalid h = h
Attested-with_evidence run_id robot_id task a e Phase.inspection_failed h = h
Attested-with_evidence run_id robot_id task a e Phase.canceled h = h

pub store_evidence_keeps :
    (c : Controller) (e : EvidenceReference) → Sound c → Sound (store_evidence e c).1
store_evidence_keeps c e sound =
    let (same, own, fits, past) = sound.1 in
    if_cases (λ (p : Outcome InspectionError ⊤ × Controller). Sound p.1)
      (is_some c.attempt.evidence_reference) _ _ (λ again. sound)
      (λ first. (
        sound.0,
        (
          same,
          own,
          fits,
          Attested-with_evidence c.run_id c.robot_id c.task c.attempt e c.attempt.phase past,
        ),
      ))

pub finish_point_keeps :
    (c : Controller)
    → Sound c
    → Validated c.run_id c.robot_id c.task c.attempt
    → Sound (finish_point c).1
finish_point_keeps c sound valid =
    let (same, own, fits, past) = sound.1 in
    if_cases (λ (p : Outcome InspectionError ⊤ × Controller). Sound p.1)
      (not (is_complete c.attempt)) _ _ (λ missing. sound)
      (λ whole. (sound.0, (same, own, fits, (valid, ground arith, ground arith))))
