-- ===== src/Tests/Keys.antt =====
-- Policies, keys and encryption on concrete labels. The cipher of the tests leaves a text as it is,
-- and a draw is a run of one byte.
use Prim.Native.Char.{Char, code}
use Prim.Native.String.{String}
use mathlib.Core.Logic.{◌≢◌}
use trustmem.Prelude.{
  ℕ, zero, suc, Bool, false, ◌&&◌, none, some, List, [], ◌∷◌, ◌≡◌, refl, ap, length, contains, add,
  ◌==◌, if◌then◌else◌,
}
use trustmem.Labels.Lattice.{clearance_leb}
use trustmem.Pdp.Hard.{layer_readable}
use trustmem.Abe.Tokens.{tokenize, sort_of, is_blank}
use trustmem.Abe.Grammar.{eval_or, parse_or, enough, out_of_fuel}
use trustmem.Abe.Agreement.{unlocks}
use trustmem.Abe.Fuel.{descents_end}
use trustmem.Abe.Access.{policy_satisfied, minimal_sets, policy_satisfied-unlocks}
use trustmem.Abe.Kem.{
  Bytes, Suite, AbeMasterKey, AbePublicKey, abe_issue_key, abe_encrypt, abe_decrypt,
}
use trustmem.Abe.Release.{abe_decrypt-abe_encrypt}
use trustmem.Abe.Spelling.{all_wordly}
use trustmem.Policy.Clauses.{policy_from_label}
use trustmem.Policy.Texts.{IsNamed}
use trustmem.Policy.Values.{issued, grouped}
use trustmem.Policy.Enforcement.{policy_satisfied_exactly}
use trustmem.Engine.{
  CryptoEngine, decrypted, unsatisfied, new_engine, register_agent, encrypt_memory, decrypt_memory,
}
use trustmem.Engine.Decryption.{register-decrypt_memory}
use trustmem.Tests.Graph.{graph}
use trustmem.Tests.Fixtures.{agent, note, pdp}

abbrev ascii : Char → Bool
ascii c = false

abbrev codes : String → Bytes
codes String.[] = []
codes (String.◌∷◌ c s) = code c ∷ codes s

abbrev copies : ℕ → ℕ → Bytes
copies k zero = []
copies k (suc n) = k ∷ copies k n

length-copies : (k n : ℕ) → length (copies k n) ≡ n
length-copies k zero = refl
length-copies k (suc n) = ap suc (length-copies k n)

abbrev suite : Suite
suite = record {
  hmac_sha256 = λ master label. label;
  encode = codes;
  urandom = copies;
  encrypt = λ key nonce text aad. text;
  decrypt = λ key nonce text aad. some text;
  length-urandom = length-copies;
  decrypt-encrypt = λ key nonce text aad. refl;
}

abbrev policy : String
policy = "(role_Analyst and task_t1) or role_Auditor"

policy_satisfied-unlocks_example :
    policy_satisfied ascii policy ("role_Auditor" ∷ [])
    ≡ unlocks ("role_Auditor" ∷ []) (minimal_sets ascii policy)
policy_satisfied-unlocks_example = policy_satisfied-unlocks ascii ("role_Auditor" ∷ []) policy

sets : minimal_sets ascii policy ≡ ("role_Analyst" ∷ "task_t1" ∷ []) ∷ ("role_Auditor" ∷ []) ∷ []
unfolding minimal_sets sort_of is_blank tokenize parse_or enough add contains
sets = refl

abbrev tokens : List String
tokens = "(" ∷ "a" ∷ "and" ∷ "b" ∷ []

descents_end_example :
    (parse_or (enough tokens) tokens ≢ out_of_fuel)
    × (eval_or (enough tokens) ("a" ∷ []) tokens ≢ out_of_fuel)
descents_end_example = descents_end ("a" ∷ []) tokens

abbrev mk : AbeMasterKey
mk = record { key_bytes = copies 7 32; version = 1 }

abbrev pk : AbePublicKey
pk = record { key_bytes = copies 7 32; version = 1 }

abe_decrypt-abe_encrypt_example :
    abe_decrypt suite
      (abe_issue_key suite mk "r" ("role_Auditor" ∷ []) 1)
      (abe_encrypt suite ascii 3 pk "found" policy)
    ≡ (if policy_satisfied ascii policy ("role_Auditor" ∷ []) then some (codes "found") else none)
abe_decrypt-abe_encrypt_example =
    abe_decrypt-abe_encrypt suite ascii mk pk "r" ("role_Auditor" ∷ []) 1 3 "found" policy refl

named : IsNamed ascii note
unfolding all_wordly sort_of
named = record { owner = refl; task = refl; groups = refl }

policy_satisfied_exactly_example :
    policy_satisfied ascii (policy_from_label note) (issued graph agent pdp.topo) ≡ (
      clearance_leb note.sensitivity agent.clearance
      && (contains note.task_binding agent.task_domain
          && (grouped graph agent pdp.topo note.layer note
              && (layer_readable graph pdp.topo agent note && agent.epoch == note.epoch))))
policy_satisfied_exactly_example = policy_satisfied_exactly graph agent pdp.topo ascii note named

abbrev engine : CryptoEngine graph
unfolding new_engine
engine = new_engine graph suite 0 pdp.topo

register-decrypt_memory_example :
    (decrypt_memory graph suite ascii
      ((register_agent graph suite engine agent).1)
      agent
      (some (encrypt_memory graph suite ascii engine 1 "found" note))).0
    ≡ (if clearance_leb note.sensitivity agent.clearance
          && (contains note.task_binding agent.task_domain
              && (grouped graph agent pdp.topo note.layer note
                  && (layer_readable graph pdp.topo agent note && agent.epoch == note.epoch)))
        then (some (codes "found"), decrypted)
        else (none, unsatisfied))
unfolding engine
register-decrypt_memory_example =
    register-decrypt_memory graph suite ascii engine agent note 1 "found" refl named
