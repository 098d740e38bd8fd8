-- ===== src/GenericBuild/Types.antt =====
-- The values of src/capy_outcome_runtime/generic_build.py: what the orchestrator passes on, what
-- the parties that it calls may answer, and the calls that it makes.
use capy_outcome_runtime_pub.Prelude.{ℕ, Bool, Option, String, List}

-- `MinimalGitGrant`: the repository is only compared. Its key file is the `Answers` below.
pub record Grant : Type 0 where
  pub repository : ℕ
  pub grant_id : ℕ

pub record Candidate : Type 0 where
  pub repository : ℕ
  pub commit : ℕ
  pub tree : ℕ
  pub archive_digest : ℕ

-- `AcceptanceDecision`; an empty receipt is `none`.
pub record Decision : Type 0 where
  pub accepted : Bool
  pub receipt : Option ℕ
  pub reason : Option String

-- An exception of a called party: whether it is a `BuilderTimeout` or `TimeoutError`, whether it is
-- an `AcceptanceOracleFailure`, its type's name and its text, `none` where that is empty.
pub record Fault : Type 0 where
  pub is_timeout : Bool
  pub is_oracle : Bool
  pub name : String
  pub text : Option String

pub data Call (A : Type 0) : Type 0 where
  returns : A → Call A
  raises : Fault → Call A

-- What the acceptor returns: a decision, or another object.
pub data Verdict : Type 0 where
  decision : Decision → Verdict
  foreign : Verdict

-- The answers of the parties in one run. Every call is made at most once, but for `cancelled`,
-- which is given the number of the check, and `exists` of the key file, asked before (`key_left`) and
-- after (`key_still_left`).
pub record Answers : Type 0 where
  pub cancelled : ℕ → Call Bool
  pub create : Call Grant
  pub build : Call (Unit {0})
  pub collect : Call (Option Candidate)
  pub revoke : Call (Unit {0})
  pub denied : Call Bool
  pub remove_key : Call (Unit {0})
  pub key_left : Call Bool
  pub unlink : Call (Unit {0})
  pub key_still_left : Call Bool
  pub accept : Call Verdict
  pub publish : Call ℕ
  pub retry : Call ℕ

pub data Event : Type 0 where
  checked created built collected revoked confirmed key_removed looked unlinked accepted published
        retried :
      Event

pub data Classification : Type 0 where
  orchestration_failed builder_timeout builder_failed no_push candidate_identity_invalid
        oracle_failed candidate_rejected publication_failed retry_failed completed cancelled_run
        cleanup_failed :
      Classification

-- The entries of `failures` in `_cleanup`.
pub data Failure : Type 0 where
  revoke_failed denial_failed key_failed : String → Failure
  denial_unconfirmed key_present : Failure

-- `detail`: a text, or the joined failures of a cleanup.
pub data Detail : Type 0 where
  text : String → Detail
  failures : List Failure → Detail

-- The local variables of `run`, with the calls made so far, latest first, and the name of the
-- exception that leaves `run` in place of an outcome.
pub record Run : Type 0 where
  pub grant : Option Grant
  pub candidate : Option Candidate
  pub publication : Option ℕ
  pub cleanup_complete : Bool
  pub cleanup_attempted : Bool
  pub classification : Classification
  pub detail : Option Detail
  pub retry_result : Option ℕ
  pub escaped : Option String
  pub checks : ℕ
  pub trace : List Event

-- `_Terminal`, `_Cancelled`, `_CleanupFailure`, and any other exception.
pub data Exit (A : Type 0) : Type 0 where
  done : A → Exit A
  terminal : Exit A
  cancelled_exit : Exit A
  cleanup_failure : List Failure → Exit A
  fault : String → Exit A
