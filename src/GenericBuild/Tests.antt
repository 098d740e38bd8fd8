-- ===== src/GenericBuild/Tests.antt =====
-- Runs of the generic build: one that goes through, and some whose cleanup fails.
use capy_outcome_runtime_pub.Prelude.{ℕ, ◌≡◌, ◌≢◌, refl, true, false, none, some}
use capy_outcome_runtime_pub.GenericBuild.{
  Answers, Grant, Candidate, Decision, Verdict, decision, returns, Classification, run, obtain,
  remove_authority, deliver, ◌>>=◌, call, cleanup, Fault, raises,
}
use capy_outcome_runtime_pub.GenericBuild.Stages.{cleanups, deliveries, IsOrdered}
use capy_outcome_runtime_pub.GenericBuild.Review.{HasSucceeded}
use capy_outcome_runtime_pub.GenericBuild.Delivery.{IsApproved}
use capy_outcome_runtime_pub.GenericBuild.Order.{
  authority_removed_first, granted_cleaned, completed_earned,
}

abbrev grant : Grant
grant = record { repository = 5; grant_id = 50 }

abbrev candidate : Candidate
candidate = record { repository = 5; commit = 61; tree = 62; archive_digest = 63 }

abbrev approval : Decision
approval = record { accepted = true; receipt = some 71; reason = none }

abbrev answers : Answers
answers = record {
  cancelled = λ n. returns false;
  create = returns grant;
  build = returns tt;
  collect = returns (some candidate);
  revoke = returns tt;
  denied = returns true;
  remove_key = returns tt;
  key_left = returns true;
  unlink = returns tt;
  key_still_left = returns false;
  accept = returns (decision approval);
  publish = returns 80;
  retry = returns 90;
}

abbrev undenied : Answers
undenied = record answers { denied = returns false }

completes : (run answers).classification ≡ Classification.completed
unfolding run obtain deliver remove_authority cleanup ◌>>=◌ call
completes = refl

reviewed : deliveries (run answers).trace ≡ 3
unfolding run obtain deliver remove_authority cleanup ◌>>=◌ call
reviewed = refl

fails : (run undenied).classification ≡ Classification.cleanup_failed
unfolding run obtain deliver remove_authority cleanup ◌>>=◌ call
fails = refl

granted : (run undenied).grant ≡ some grant
unfolding run obtain deliver remove_authority cleanup ◌>>=◌ call
granted = refl

-- A run whose key file cannot be looked at before the review, and one where it cannot be looked at in
-- the `finally` clause.
abbrev unreadable : Fault
unreadable = record { is_timeout = false; is_oracle = false; name = "PermissionError"; text = none }

abbrev blind : Answers
blind = record answers { key_left = raises unreadable }

blind_fails : (run blind).classification ≡ Classification.orchestration_failed
unfolding run obtain deliver remove_authority cleanup ◌>>=◌ call
blind_fails = refl

abbrev blind_late : Answers
blind_late = record blind { collect = returns none }

blind_escapes :
    ((run blind_late).escaped ≡ some "PermissionError")
    × ((run blind_late).classification ≡ Classification.no_push)
unfolding run obtain deliver remove_authority cleanup ◌>>=◌ call
blind_escapes = (refl, refl)

authority_removed_first_example :
    IsOrdered (run answers).trace
    × (deliveries (run answers).trace ≢ 0 → (run answers).cleanup_complete ≡ true)
authority_removed_first_example = authority_removed_first answers

granted_cleaned_example :
    (cleanups (run undenied).trace ≡ (1, 1, 1))
    × ((run undenied).cleanup_complete ≡ true → HasSucceeded undenied)
    × (HasSucceeded undenied → (run undenied).cleanup_complete ≡ true)
granted_cleaned_example = granted_cleaned undenied grant granted

completed_earned_example :
    HasSucceeded answers
    × ((c : Candidate) × (g : Grant) × ((run answers).candidate ≡ some c)
        × ((run answers).grant ≡ some g)
        × (c.repository ≡ g.repository))
    × ((v : Verdict) × (n : ℕ) × (answers.accept ≡ returns v) × IsApproved v n)
    × ((p : ℕ) × (answers.publish ≡ returns p) × ((run answers).publication ≡ some p))
completed_earned_example = completed_earned answers completes
