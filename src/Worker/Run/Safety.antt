-- ===== src/Worker/Run/Safety.antt =====
-- What a worker may report.
use computecluster.Prelude.{
  ℕ, ◌-◌, String, Bool, true, false, List, [], ◌∷◌, ◌||◌, ltb, ◌≡◌, refl, sym, ap, ◌∙◌, All-if,
  arith, any, Bool-cases, Option-cases, inl, inr,
}
use computecluster.Models.Enums.{FailureKind}
use computecluster.Models.Parameters.{JobResult}
use computecluster.Worker.Keeper.{
  Beat, answered, refused, unreachable, KeeperState, started, beat, keep_lease,
}
use computecluster.Worker.Reports.{Report, publish_artifacts}
use computecluster.Worker.Run.{
  Surroundings, Execution, finished, batch_failure, other_error, JobOutcome, failed, publish_result,
  decide_outcome, discarded, told, run_job,
}

abbrev pub is_refused : Beat → Bool
is_refused (refused now) = true
is_refused _ = false

abbrev pub asks_cancellation : Beat → Bool
asks_cancellation (answered now c) = c
asks_cancellation _ = false

module _ (lease : ℕ) where
  lost_stays : (bs : List Beat) (k : KeeperState) → k.lost ≡ true → keep_lease lease bs k ≡ k
  unfolding keep_lease
  lost_stays [] k h = refl
  lost_stays (b ∷ bs) k h =
      All-if (λ z. z ≡ k) k.lost k (keep_lease lease bs (beat lease b k)) (λ l. refl)
        (λ n. absurd (ground arith))

  -- What the next heartbeat establishes for good holds at the end of the loop.
  after_beat :
      (P : KeeperState → Type 0) (b : Beat) (bs : List Beat) (k : KeeperState)
      → (k.lost ≡ true → P k)
      → P (keep_lease lease bs (beat lease b k))
      → P (keep_lease lease (b ∷ bs) k)
  unfolding keep_lease
  after_beat P b bs k h rest =
      All-if P k.lost k (keep_lease lease bs (beat lease b k)) h (λ n. rest)

  refused_loses :
      (bs : List Beat) (k : KeeperState)
      → any is_refused bs ≡ true
      → (keep_lease lease bs k).lost ≡ true
  unfolding any
  refused_loses [] k h = ground arith
  refused_loses (answered now c ∷ bs) k h =
      after_beat (λ z. z.lost ≡ true) (answered now c) bs k (λ l. l) (refused_loses bs _ h)
  refused_loses (unreachable now ∷ bs) k h =
      after_beat (λ z. z.lost ≡ true) (unreachable now) bs k (λ l. l) (refused_loses bs _ h)
  refused_loses (refused now ∷ bs) k h =
      after_beat (λ z. z.lost ≡ true) (refused now) bs k (λ l. l)
        (unfold beat in rw (lost_stays bs (beat lease (refused now) k) refl) refl)

  -- A lost lease is a cancelled run: what a worker keeps from beat to beat.
  abbrev IsSettled : KeeperState → Type 0
  IsSettled k = k.lost ≡ true → k.cancelled ≡ true

  beat-IsSettled : (b : Beat) (k : KeeperState) → IsSettled k → IsSettled (beat lease b k)
  unfolding beat
  beat-IsSettled (answered now c) k h = λ l. ground (arith, h l)
  beat-IsSettled (refused now) k h = λ l. refl
  beat-IsSettled (unreachable now) k h =
      All-if IsSettled (ltb lease (now - k.renewed_at)) _ k (λ y l. refl) (λ n. h)

  beat-cancelled :
      (b : Beat) (k : KeeperState) → k.cancelled ≡ true → (beat lease b k).cancelled ≡ true
  unfolding beat
  beat-cancelled (answered now c) k h = ground arith
  beat-cancelled (refused now) k h = refl
  beat-cancelled (unreachable now) k h =
      All-if (λ z. z.cancelled ≡ true) (ltb lease (now - k.renewed_at)) _ k (λ y. refl) (λ n. h)

  cancelled_stays :
      (bs : List Beat) (k : KeeperState)
      → k.cancelled ≡ true
      → (keep_lease lease bs k).cancelled ≡ true
  unfolding keep_lease
  cancelled_stays [] k h = h
  cancelled_stays (b ∷ bs) k h =
      after_beat (λ z. z.cancelled ≡ true) b bs k (λ l. h)
        (cancelled_stays bs (beat lease b k) (beat-cancelled b k h))

  asked_now :
      (b : Beat) (k : KeeperState) → asks_cancellation b ≡ true → (beat lease b k).cancelled ≡ true
  unfolding beat
  asked_now (answered now c) k e = ground arith
  asked_now (refused now) k e = ground arith
  asked_now (unreachable now) k e = ground arith

  asked_cancels :
      (bs : List Beat) (k : KeeperState)
      → IsSettled k
      → any asks_cancellation bs ≡ true
      → (keep_lease lease bs k).cancelled ≡ true
  unfolding any
  asked_cancels [] k s h = ground arith
  asked_cancels (b ∷ bs) k s h = elim (Bool-cases (asks_cancellation b)) [
    | inl now ↦
        after_beat (λ z. z.cancelled ≡ true) b bs k s
          (cancelled_stays bs (beat lease b k) (asked_now b k now))
    | inr later ↦
        after_beat (λ z. z.cancelled ≡ true) b bs k s
          (asked_cancels bs (beat lease b k) (beat-IsSettled b k s) (ground arith))
  ]

  module _ (s : Surroundings) where
    abbrev executed : KeeperState
    executed = keep_lease lease s.executing (started s.started_at)

    abbrev last : KeeperState
    last = keep_lease lease s.reporting (decide_outcome lease s executed s.execution).keeper

    published_loses :
        (result : JobResult) (k : KeeperState)
        → k.lost ≡ true
        → (publish_result lease s result k).keeper.lost ≡ true
    unfolding publish_result
    published_loses result k h =
        let kept = ap (λ z. z.lost) (lost_stays s.publishing k h) ∙ h in
        elim (Option-cases (publish_artifacts s.outputs)) [
          | inl failing ↦ rw (failing, publish_result) kept
          | inr (n, done) ↦ rw (done, publish_result) kept
        ]

    decided_loses :
        (e : Execution) (k : KeeperState)
        → k.lost ≡ true
        → (decide_outcome lease s k e).keeper.lost ≡ true
    unfolding decide_outcome
    decided_loses (finished result) k h =
        All-if (λ z. z.keeper.lost ≡ true) k.cancelled _ (publish_result lease s result k) (λ y. h)
          (λ n. published_loses result k h)
    decided_loses (batch_failure kind message) k h = h
    decided_loses (other_error message) k h = h

    lost_last : executed.lost ≡ true → last.lost ≡ true
    lost_last h =
        let kept = decided_loses s.execution executed h in
        ap (λ z. z.lost) (lost_stays s.reporting _ kept) ∙ kept

    -- A worker whose heartbeat was refused, during the execution or before the report, reports
    -- nothing and keeps no outputs.
    pub run_job-refused :
        any is_refused s.executing || any is_refused s.reporting ≡ true
        → run_job lease s ≡ (discarded, false)
    unfolding run_job
    run_job-refused h =
        let stopped : last.lost ≡ true = elim (Bool-cases (any is_refused s.executing)) [
          | inl early ↦ lost_last (refused_loses s.executing _ early)
          | inr late ↦ refused_loses s.reporting _ (rw late at h)
        ] in
        rw stopped refl

    cancelled_decides :
        (e : Execution) (k : KeeperState)
        → k.cancelled ≡ true
        → (message : String) × ((decide_outcome lease s k e).outcome
            ≡ failed FailureKind.cancelled_by_user message)
    unfolding decide_outcome
    cancelled_decides (finished result) k h =
        ("BatchExecutionFailure: job cancelled by user", rw h refl)
    cancelled_decides (batch_failure kind message) k h = (message, rw h refl)
    cancelled_decides (other_error message) k h = (message, rw h refl)

    told_decides :
        (outcome : JobOutcome) (report : Report)
        → (run_job lease s).0 ≡ told outcome report
        → (decide_outcome lease s executed s.execution).outcome ≡ outcome
    unfolding run_job
    told_decides outcome report e = elim (Bool-cases last.lost) [
      | inl gone ↦ let here = rw gone at e in ground arith
      | inr held ↦ let here = rw held at e in ground arith
    ]

    -- A worker that was asked to cancel during the execution reports, if anything, a failure by
    -- cancellation, however the execution ended.
    pub run_job-cancelled :
        (outcome : JobOutcome) (report : Report)
        → any asks_cancellation s.executing ≡ true
        → (run_job lease s).0 ≡ told outcome report
        → (message : String) × (outcome ≡ failed FailureKind.cancelled_by_user message)
    run_job-cancelled outcome report h e =
        let stopped : executed.cancelled ≡ true =
          asked_cancels s.executing (started s.started_at) (λ l. l) h in
        let (message, same) = cancelled_decides s.execution executed stopped in
        (message, sym (told_decides outcome report e) ∙ same)
