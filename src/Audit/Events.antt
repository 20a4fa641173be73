-- ===== src/Audit/Events.antt =====
-- core/merkle.py: `_decision_to_event_type` and `MerkleAuditStore.log`.
use trustmem.Prelude.{ℕ, String, Option, some, ◌≡◌, ◌↔◌, ◌⊎◌, if◌then◌else◌, str_eq, arith}
use trustmem.Result.{Result, ok, raise, value_error, ◌>>=◌}
use trustmem.Verdict.{
  Verdict, allow, hide, confirm, deny, Denial, ingest_mode_consult, Action, read, write, invoke,
  Decision,
}
use trustmem.Merkle.{Bytes}
use trustmem.Audit.{
  EventType, write_allow, write_deny, read_allow, read_hide, read_deny, tool_invoke, tool_deny,
  consult, of_decision, AuditEvent, MerkleStore,
}
use trustmem.Audit

hidden_type : Option Denial → EventType
hidden_type (some ingest_mode_consult) = consult
hidden_type d = read_hide

event_type_of : Action → Verdict → Option Denial → Result EventType
event_type_of (invoke tool) allow d = ok tool_invoke
event_type_of (invoke tool) v d = ok tool_deny
event_type_of read allow d = ok read_allow
event_type_of write allow d = ok write_allow
event_type_of read hide d = ok (hidden_type d)
event_type_of write hide d = ok (hidden_type d)
event_type_of read deny d = ok read_deny
event_type_of write deny d = ok write_deny
event_type_of read confirm d = raise value_error
event_type_of write confirm d = raise value_error

unfoldable pub decision_to_event_type : Decision → Result EventType
unfolding event_type_of hidden_type
decision_to_event_type d = event_type_of d.action d.verdict d.denied_by

-- What an audit store draws at a call: the event's id, the block's, and the time.
pub record Drawn : Type 0 where
  pub event_id : String
  pub block_id : String
  pub at : ℕ

module _ (sha256 : Bytes → Bytes) (serialize : AuditEvent → Bytes) where
  -- `MerkleAuditStore.log`
  unfoldable pub log_decision : MerkleStore → Decision → Drawn → Result (MerkleStore × AuditEvent)
  log_decision st d x = do
    t ← decision_to_event_type d
    let e : AuditEvent = record {
      event_id = x.event_id;
      event_type = t;
      subject = d.subject;
      object = d.object;
      session_id = if str_eq d.session_id "" then "unknown" else d.session_id;
      payload = of_decision d;
      at = x.at;
    }
    ok (Audit.log sha256 serialize st e x.block_id, e)

-- The type of the event tells the verdicts apart: an event of admission is written for ALLOW alone,
-- a lookup and a hidden read for HIDE alone and apart from each other, and only a read or write
-- that waits for a confirmation has no type.
pub decision_to_event_type_faithful :
    (d : Decision)
    → (((decision_to_event_type d ≡ ok read_allow)
          ⊎ ((decision_to_event_type d ≡ ok write_allow)
              ⊎ (decision_to_event_type d ≡ ok tool_invoke)))
        ↔ (d.verdict ≡ allow))
      × ((decision_to_event_type d ≡ ok consult) ↔ (
          (d.verdict ≡ hide)
          × (d.denied_by ≡ some ingest_mode_consult)
          × ((d.action ≡ read) ⊎ (d.action ≡ write))))
      × ((decision_to_event_type d ≡ raise value_error)
          ↔ ((d.verdict ≡ confirm) × ((d.action ≡ read) ⊎ (d.action ≡ write))))
unfolding decision_to_event_type
decision_to_event_type_faithful d = ground arith
