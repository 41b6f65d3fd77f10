-- ===== src/Transfer/Download/Outcomes.antt =====
-- What a download reports: an exception in a job does not reach the caller.
use s3client.Transfer.Session.{Error, Outcome, ok, thrown, Session}

-- Done, or stopped by the exception of a request.
abbrev Caught : {W : Type 0} → Outcome (Unit {0}) × Session W → Type 0
Caught (ok a, s) = Unit
Caught (thrown Error.request_failed, s) = Unit
Caught (thrown e, s) = ⊥
