-- ===== src/Tests/Pipelines.antt =====
-- The pipelines on a store of two memories.
use trustmem.Prelude.{
  ◌+◌, ◌≡◌, ◌++◌, refl, String, true, false, Option, none, some, List, [], ◌∷◌, if◌then◌else◌,
  contains, intersects, str_eq, arith, lookup, insert, length,
}
use trustmem.Result.{Result, ok, raise, value_error, type_error}
use trustmem.Labels.{agent_in_ttl, memory_in_ttl, MemoryLabel, semantic, t1_low, t2_medium}
use trustmem.Labels.Lattice.{trust_level, clearance_level, max_clearance, min_trust}
use trustmem.Session.{Session, start, absorb}
use trustmem.Verdict.{Decision, allow, hide, allowed, can_read_content}
use trustmem.Pep.{commit}
use trustmem.Pdp.Read.{can_read_scoped, consults, would_c, would_t}
use trustmem.Pdp.Hard.{hard_checks, layer_readable, layer_rule, ok_need_to_know}
use trustmem.Pdp.Write.{can_write}
use trustmem.Decay.{DecayResult}
use trustmem.Pdp.Interval.{InScope}
use trustmem.Vars.{VarHandle, no_vars, get, resolve}
use trustmem.Crypto.{new_client, decrypt, record_allow, is_allowed}
use trustmem.Pipeline.Read.{
  Services, ReadWorld, ReadRequest, ReadResult, read_found, act, read_content, fetch_ciphertext,
  with_ciphertext, release, signature_ok, dropped, scope_mismatch, decide, read, read_all,
  read_many,
}
use trustmem.Pipeline.Release.{IsReleased, tries_of, read_all_count, read-IsReleased}
use trustmem.Pipeline.Reads.{
  expected_log, read_log, read_many-InScope, ResultHides, IsHandleOf, read_hidden,
}
use trustmem.MemoryProxy.Cleared.{Reading, one, batch, run, IsCleared, run-IsCleared}
use trustmem.Pipeline.Write.{
  WriteServices, WriteRequest, WriteWorld, WriteResult, new_label, call_of, scope_checked, write,
  write_all,
}
use trustmem.Pipeline.Storage.{IsConsistent, allowances}
use trustmem.Pipeline.Storage.Calls.{gains, entries, write_all-IsConsistent}
use trustmem.Tests.Graph.{graph}
use trustmem.Tests.Fixtures.{agent, note, session, pdp, scope, strict, matcher, call}

abbrev memories : String → Option MemoryLabel
memories id = if str_eq id "m1" then some note else none

abbrev services : Services
services = record {
  Ciphertext = String;
  Plaintext = String;
  get = memories;
  get_ciphertext = some (λ id. some "sealed");
  verify = none;
  decrypt_memory = λ a ct. ok (some "found", "ok");
}

abbrev world : ReadWorld
world = record { session = session; audit = []; vars = no_vars; client = new_client }

abbrev request : ReadRequest
request = record {
  agent = agent;
  chunk_id = "m1";
  now = 5;
  epoch_current = none;
  scope = some scope;
  anchor = none;
  absorbs = true;
  decision_id = "d1";
  var_id = "v1";
}

-- The same chunk under the strict scope, which hides it.
abbrev guarded_request : ReadRequest
guarded_request = record request { scope = some strict }

in_scope : InScope scope session
unfolding start clearance_level trust_level
in_scope = (omega arith, omega arith)

note_allowed : (can_read_scoped graph pdp agent note session scope 5 none).0.verdict ≡ allow
unfolding can_read_scoped hard_checks layer_readable layer_rule ok_need_to_know agent_in_ttl
    memory_in_ttl consults would_c would_t start clearance_level trust_level contains intersects
    max_clearance min_trust
note_allowed = refl

read_many-InScope_example :
    InScope scope
      (read_many services graph pdp agent scope 5
        (("m1", "d1", "v1") ∷ ("m2", "d2", "v2") ∷ [])
        world).0.session
read_many-InScope_example =
    read_many-InScope services graph pdp refl agent scope 5
      (("m1", "d1", "v1") ∷ ("m2", "d2", "v2") ∷ []) world in_scope

-- One read in a scope that is given, and a batch in the scope that is derived.
abbrev readings : List Reading
readings =
    one services "m1" (some strict) true 5 ("d1", "v1")
    ∷ batch services (("m1", "d2", "v2") ∷ ("m2", "d3", "v3") ∷ []) none 6
    ∷ []

run-IsCleared_example :
    IsCleared agent ((run (λ p. "digest") agent graph pdp readings world).session)
run-IsCleared_example = run-IsCleared (λ p. "digest") agent graph pdp refl readings world in_scope.0

-- A store whose ciphertexts the engine cannot read.
abbrev broken : Services
broken = record services { decrypt_memory = λ a ct. raise value_error }

-- The first is counted, and ends with the exception; the second is hidden.
read_all_count_example :
    (read_all broken graph pdp (request ∷ guarded_request ∷ []) world).0.client.decrypt_count
    ≡ 0
      + tries_of broken
          (request ∷ guarded_request ∷ [])
          (read_all broken graph pdp (request ∷ guarded_request ∷ []) world).1
read_all_count_example = read_all_count broken graph pdp (request ∷ guarded_request ∷ []) world

read_log_example :
    (read services graph pdp guarded_request world).0.audit
    ≡ []
      ++ expected_log services graph pdp guarded_request
          (read services graph pdp guarded_request world).1
read_log_example = read_log services graph pdp guarded_request world

open_scope : scope_mismatch (some strict) none ≡ false
unfolding scope_mismatch
open_scope = refl

note_hidden : (decide services graph pdp guarded_request note session).0.verdict ≡ hide
unfolding decide can_read_scoped hard_checks layer_readable layer_rule ok_need_to_know agent_in_ttl
    memory_in_ttl consults would_c would_t start clearance_level trust_level contains intersects
    max_clearance min_trust
note_hidden = refl

read_hidden_example :
    (h : VarHandle) × (ResultHides services graph pdp guarded_request note h
        (read services graph pdp guarded_request world).1
      × IsHandleOf services graph pdp guarded_request note h
      × (get (read services graph pdp guarded_request world).0.vars "v1" ≡ some h)
      × (resolve (read services graph pdp guarded_request world).0.vars "m1" ≡ some h)
      × ((read services graph pdp guarded_request world).0.client ≡ world.client)
      × ((read services graph pdp guarded_request world).0.session ≡ record session {
        consulted = (read services graph pdp guarded_request world).0.session.consulted;
      }))
read_hidden_example =
    read_hidden services graph pdp guarded_request world note refl open_scope refl note_hidden

abbrev released : ReadResult services
released = record {
  allowed = true;
  decision = (can_read_scoped graph pdp agent note session scope 5 none).0;
  memory = some note;
  plaintext = some "found";
  denied_by = none;
  var_handle = none;
  t_eff_dropped = some (t2_medium, t1_low);
}

request_is_let_through : (read services graph pdp request world).1 ≡ ok released
unfolding read scope_mismatch read_found act decide can_read_scoped hard_checks layer_readable
    layer_rule ok_need_to_know agent_in_ttl memory_in_ttl consults would_c would_t start
    clearance_level trust_level contains intersects max_clearance min_trust read_content
    fetch_ciphertext with_ciphertext release signature_ok decrypt record_allow is_allowed commit
    can_read_content absorb dropped insert lookup
request_is_let_through = refl

read-IsReleased_example : IsReleased services graph pdp request world released
read-IsReleased_example =
    read-IsReleased services graph pdp request world released request_is_let_through refl

-- A signer that signs the text, and a store of the old kind, which takes the label alone.
abbrev write_services : WriteServices
write_services = record {
  Ciphertext = String;
  Signature = String;
  encrypt_memory = λ s m. ok s;
  sign = some (λ m s. ok s);
  put_error = λ m ct. elim ct [ none ↦ none | some s ↦ some type_error ];
}

abbrev write_world : WriteWorld write_services
write_world = record { memories = []; signatures = []; links = []; audit = [] }

abbrev write_request : WriteRequest
write_request = record {
  content = "found";
  call = record call { input_mems = [] };
  memory_type = semantic;
  task_binding = none;
  collab_group = none;
  ttl_end = none;
  scope = scope;
  anchor = none;
  chunk_id = "m2";
}

abbrev writes : List (WriteRequest × Session)
writes = (write_request, session) ∷ (record write_request { scope = strict }, session) ∷ []

empty-IsConsistent : IsConsistent write_services write_world
unfolding allowances
empty-IsConsistent = record { backed = tt; linked = tt; logged = refl }

write_all-IsConsistent_example :
    IsConsistent write_services (write_all write_services graph matcher pdp writes write_world).0
    × (length (write_all write_services graph matcher pdp writes write_world).0.memories
        ≡ 0
          + gains write_services (write_all write_services graph matcher pdp writes write_world).1)
    × (length (write_all write_services graph matcher pdp writes write_world).0.audit
        ≡ 0
          + entries write_services
              (write_all write_services graph matcher pdp writes write_world).1)
write_all-IsConsistent_example =
    write_all-IsConsistent write_services graph matcher pdp writes write_world empty-IsConsistent

abbrev made : WriteWorld write_services × Result (WriteResult write_services)
made = write write_services graph matcher pdp write_request session write_world

abbrev decided : Decision × DecayResult
decided = can_write graph matcher pdp (call_of write_request) session

abbrev written : WriteResult write_services
written = record {
  allowed = true;
  decision = scope_checked write_request decided.0 decided.1;
  decay = some decided.1;
  memory = some (new_label write_request session decided.1.trust_out);
  denied_by = none;
}
