-- ===== src/Worker/Reports/Attempts.antt =====
-- How long a worker goes on reporting an outcome.
use mathlib.Core.Path.{subst}
use computecluster.Prelude.{
  ℕ, zero, suc, ◌+◌, ◌*◌, ◌≤◌, ◌<◌, true, false, ◌≡◌, ◌==◌, refl, ap, All-if, arith, Bool-cases,
  inl, inr,
}
use computecluster.Worker.Reports.{
  ReportAnswer, Report, is_transient, final_end, report_from, report_outcome, report_attempts,
}

-- The pauses before the n-th attempt: two seconds after the first one, four after the next.
abbrev pub pauses_before : ℕ → ℕ
pauses_before zero = 0
pauses_before (suc n) = pauses_before n + 2 * n

-- Answers and a report with its first and its last attempt allowed.
pub record IsReport (answers : ℕ → ReportAnswer) (first last : ℕ) (r : Report) : Type 0 where
  pub begins : first ≤ r.attempts
  pub ends : r.attempts ≤ last
  pub answer : r.end ≡ final_end (answers r.attempts)
  pub transient_before : (i : ℕ) → first ≤ i → i < r.attempts → is_transient (answers i) ≡ true
  pub settled : r.attempts < last → is_transient (answers r.attempts) ≡ false
  pub pauses : r.slept + pauses_before first ≡ pauses_before r.attempts

pauses_next : (n : ℕ) → pauses_before (n + 1) ≡ pauses_before n + 2 * n
pauses_next n = let next : n + 1 ≡ suc n = omega arith in ap pauses_before next

from_here :
    (P : ℕ → Type 0) {n last : ℕ}
    → P n
    → ((i : ℕ) → n + 1 ≤ i → i < last → P i)
    → (i : ℕ) → n ≤ i
    → i < last
    → P i
from_here P {n} {last} now later i h k = elim (Bool-cases (i == n)) [
  | inl e ↦ let same : n ≡ i = ground arith in subst P same now
  | inr e ↦ later i (ground arith) k
]

module _ (answers : ℕ → ReportAnswer) where
  report_from-IsReport :
      (attempt left : ℕ)
      → IsReport answers attempt (attempt + left) (report_from answers attempt left)
  unfolding report_from
  report_from-IsReport attempt zero = record {
    begins = omega arith;
    ends = omega arith;
    answer = refl;
    transient_before = λ i h k. ground arith;
    settled = λ h. ground arith;
    pauses = omega arith;
  }
  report_from-IsReport attempt (suc left) =
      let later = report_from-IsReport (attempt + 1) left in
      All-if (IsReport answers attempt (attempt + suc left)) (is_transient (answers attempt)) _ _
        (λ y. record {
          begins = ground (arith, later.begins);
          ends = ground (arith, later.ends);
          answer = later.answer;
          transient_before = λ i h k.
              from_here (λ i. is_transient (answers i) ≡ true) y later.transient_before i h k;
          settled = λ h. later.settled (ground (arith, h));
          pauses = ground (arith, later.pauses, pauses_next attempt);
        })
        (λ n. record {
          begins = omega arith;
          ends = omega arith;
          answer = refl;
          transient_before = λ i h k. ground arith;
          settled = λ h. n;
          pauses = omega arith;
        })

  -- However the service answers, a worker makes between one and five attempts; it goes on exactly
  -- after answers that may change, ends as its last answer tells it, and sleeps two seconds after
  -- the first attempt, four after the second, and so on.
  pub report_outcome-IsReport : IsReport answers 1 report_attempts (report_outcome answers)
  unfolding report_outcome
  report_outcome-IsReport = report_from-IsReport 1 4
