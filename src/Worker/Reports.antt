-- ===== src/Worker/Reports.antt =====
-- worker/main.py: publish_artifacts, report_outcome and the pauses between polls.
pub mod Attempts
use computecluster.Prelude.{
  ℕ, zero, suc, ◌+◌, ◌-◌, ◌*◌, String, Bool, true, false, Option, none, some, List, [], ◌∷◌, not,
  ltb, if◌then◌else◌,
}

-- An entry of the output directory, in the order of the names: whether its name begins with a dot,
-- whether open_output_file gives a handle, and whether the upload of each attempt succeeds.
pub record OutputFile : Type 0 where
  pub is_hidden : Bool
  pub opens : Bool
  pub uploads : ℕ → Bool

-- The attempts from `attempt` on, `left` of them behind it: whether one succeeds.
unfoldable pub upload_from : (ℕ → Bool) → ℕ → ℕ → Bool
upload_from uploads attempt zero = uploads attempt
upload_from uploads attempt (suc left) =
    let again = upload_from uploads (attempt + 1) left in if uploads attempt then true else again

abbrev pub upload_attempts : ℕ
upload_attempts = 3

-- The number of files published, or nothing where an upload raises after its last attempt.
unfoldable pub publish_artifacts : List OutputFile → Option ℕ
unfolding upload_from
publish_artifacts [] = some 0
publish_artifacts (f ∷ fs) =
    let rest = publish_artifacts fs in
    if f.is_hidden
    then rest
    else if not f.opens
    then rest
    else if upload_from f.uploads 1 (upload_attempts - 1)
    then elim rest [ none ↦ none | some n ↦ some (n + 1) ]
    else none

-- What one report of an outcome meets: HTTPStatusError by its status, or RequestError.
pub data ReportAnswer : Type 0 where
  accepted conflict client_error server_error no_answer : ReportAnswer

pub data ReportEnd : Type 0 where
  reported rejected gave_up : ReportEnd

-- The end, the attempts made and the seconds slept.
pub record Report : Type 0 where
  pub end : ReportEnd
  pub attempts : ℕ
  pub slept : ℕ

abbrev ended : ReportEnd → ℕ → Report
ended end attempt = record { end = end; attempts = attempt; slept = 0 }

abbrev pub is_transient : ReportAnswer → Bool
is_transient ReportAnswer.server_error = true
is_transient ReportAnswer.no_answer = true
is_transient _ = false

abbrev pub final_end : ReportAnswer → ReportEnd
final_end ReportAnswer.accepted = ReportEnd.reported
final_end ReportAnswer.conflict = ReportEnd.rejected
final_end _ = ReportEnd.gave_up

-- time.sleep(2 * attempt), then the next attempt
abbrev after_pause : ℕ → Report → Report
after_pause attempt r = record r { slept = r.slept + 2 * attempt }

unfoldable pub report_from : (ℕ → ReportAnswer) → ℕ → ℕ → Report
report_from answers attempt zero = ended (final_end (answers attempt)) attempt
report_from answers attempt (suc left) =
    let again = report_from answers (attempt + 1) left in
    if is_transient (answers attempt)
    then after_pause attempt again
    else ended (final_end (answers attempt)) attempt

abbrev pub report_attempts : ℕ
report_attempts = 5

unfoldable pub report_outcome : (ℕ → ReportAnswer) → Report
unfolding report_from
report_outcome answers = report_from answers 1 (report_attempts - 1)

abbrev lesser : ℕ → ℕ → ℕ
lesser a b = if ltb b a then b else a

abbrev greater : ℕ → ℕ → ℕ
greater a b = if ltb a b then b else a

-- Intervals in milliseconds.
abbrev pub max_idle_poll : ℕ
max_idle_poll = 30000

unfoldable pub next_idle_interval : ℕ → ℕ → ℕ
next_idle_interval current base = lesser (current * 2) (greater base max_idle_poll)
