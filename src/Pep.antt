-- ===== src/Pep.antt =====
-- pep/pep.py: the enforcement point, the one place where a read changes the session's levels.
use trustmem.Prelude.{Bool, Option, none, some, if◌then◌else◌}
use trustmem.Labels.{Clearance, Trust}
use trustmem.Session.{Session, full, absorb}
use trustmem.Verdict.{Decision, can_read_content}

abbrev pending : Session → Decision → Option (Clearance × Trust) → Session
pending sess d none = sess
pending sess d (some (c, t)) = absorb sess d.object c t full

-- A decision other than ALLOW, and one with nothing to absorb, changes nothing.
unfoldable pub commit : Session → Decision → Bool → Session
unfolding can_read_content
commit sess d absorbs =
    if can_read_content d.verdict
    then (if absorbs then pending sess d d.pending_absorb else sess)
    else sess
