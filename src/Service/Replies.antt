-- ===== src/Service/Replies.antt =====
-- The exceptions of app/service.py, and what a service method does: it returns or raises, and the
-- database is what its transactions have left.
use computecluster.Prelude.{ℕ, Option, none, some}
use computecluster.Repository.Submit.{SubmitError}

pub data ServiceError : Type 0 where
  job_transition job_not_found job_group_not_found idempotency_conflict scheduling_capacity :
      ServiceError
  worker_not_found : ℕ → ServiceError
  repository_fault : SubmitError → ServiceError

pub data Reply (A : Type 0) : Type 0 where
  ok : A → Reply A
  raised : ServiceError → Reply A

-- JobService.__init__
pub record ServiceConfig : Type 0 where
  pub lease_seconds : ℕ
  pub worker_stale_seconds : ℕ
  pub max_attempts : ℕ

abbrev pub default_config : ServiceConfig
default_config = record { lease_seconds = 15; worker_stale_seconds = 20; max_attempts = 3 }

-- `None` of the repository becomes an exception.
abbrev pub or_raise : {A : Type 0} → ServiceError → Option A → Reply A
or_raise e none = raised e
or_raise e (some a) = ok a
