-- ===== src/Pdp.antt =====
-- core/pdp.py: the policy decision point. A decision is a function of the labels, the session and
-- the scope; the one call that changes the session, `sess.consult`, is in the returned state. The
-- current time is an argument.
pub mod Hard
pub mod Read
pub mod Write
pub mod Invoke
pub mod Confidentiality
pub mod Interval
pub mod WriteBack
pub mod Authorization
