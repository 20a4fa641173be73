-- ===== src/Lib.antt =====
-- TrustMem: the access control of the memories that a group of agents shares.
--
-- Agents read, write and act on memories that carry two labels, a confidentiality and a trust. A
-- session records what its agent has seen. The decision point (core/pdp.py) judges each read, write
-- and tool call by the labels, the session and the scope of the task, and answers ALLOW, HIDE,
-- CONFIRM or DENY. The pipelines (core/pipeline.py) ask it, enforce the answer, and log it in a
-- Merkle tree. A hidden memory is reached only by a handle, whose answers are charged in bits.
--
-- The files, and the code that each models, by the function names of the code:
--   Labels, Labels/Lattice     core/labels.py: the labels, the two orders, the tables of the tools
--   Scope                      core/labels.py: TaskScope, derive_taskscope
--     Scope/Narrowing, Scope/Derivation: proofs on both
--   Topology                   core/topology.py, over networkx
--   Session, Session/LowWater  core/session.py: Session and its low-water marks
--   Sessions                   core/session.py: SessionStore, delegation and the control budget
--   Decay, Decay/Laws          core/decay.py: verify_op, compute_trust
--   Verdict, Capability        core/verdict.py, the records of core/pdp.py, manifest/capability.py
--   Pdp/Hard, Read, Write, Invoke   core/pdp.py: the checks and the four decisions
--     Pdp/Confidentiality, Interval, WriteBack, Authorization: proofs on the decisions
--   Pep                        pep/pep.py: the commit of a decision to the session
--   Merkle                     core/merkle.py: trees and proofs
--     Merkle/Paths, Merkle/Soundness: proofs on the proofs of membership
--   Audit, Audit/Events        core/merkle.py: blocks, the store, MerkleAuditStore
--     Audit/Replay             replay_session, tamper_event
--   Audit/ScopeCommit          core/task_scope.py
--   Vars                       core/varstore.py: handles, capacities, expansion
--   HumanGate                  core/human_gate.py, with the threads' calls as steps
--   IsolatedLlm                core/isolated_llm.py: ControlFlowBudget
--     IsolatedLlm/Queries      StubIsolatedLLM; Bounds: proofs on its answers
--     IsolatedLlm/Adapter      core/llm/constrained.py: ConstrainedQueryAdapter
--   Crypto                     ifc/crypto_client.py: the ledger of decisions
--   Pipeline/Read, Pipeline/Write   core/pipeline.py
--     Pipeline/Release, Reads, Writes, Storage: proofs on what the two release, log and store
--   MemoryProxy                core/agent/memory_proxy.py; Cleared: proofs on its reads
--   ToolRegistry               core/agent/tools.py; Stubs: proofs on what is executed
--   DemoCache                  core/llm/cache.py, with the sections under its lock as steps
--   Upgrader, Upgrader/Sources core/upgrader.py: evidence, publishers, new versions, the session's gate
--     Upgrader/Endorser        core/endorser.py; Warrant: proofs on both
--   Policy/Words, Digits, Clauses, Attributes   core/policy.py: the attributes of an agent and the
--     policy of a memory, as texts
--     Policy/Decimals, Formulas, Texts, Values, Enforcement: from the texts to the labels they spell
--   Abe/Tokens, Grammar, Access   core/crypto/abe.py: the words of a policy, its evaluation, its
--     minimal sets; Fuel, Formula, Spelling, Agreement: proofs on the two parsers
--   Abe/Kem                    core/crypto/abe.py: keys, encryption, decryption; Release: proofs
--   Engine, Engine/Decryption  core/crypto/engine.py: CryptoEngine
--   WriterSign                 ifc/writer_sign.py: the payload that is signed, MemorySigner
--   HitlGate                   pep/hitl.py: HITLGate.request
--   AnchorQueue                chain/anchor.py: AnchorQueue, a round of its thread as a step
--   Manifest                   manifest/schema.py, manifest/capability_infer.py
--   Prelude, Result            shared helpers; errors as values
--   Tests                      the theorems at concrete inputs
--
-- The decision point and the policy that guards a ciphertext are two answers to one question.
-- core/policy.py writes the labels of a memory as a text, and core/crypto/abe.py reads the text with
-- two parsers; Policy/Enforcement and Engine/Decryption follow a label through both.
--
-- Code outside the repository is a parameter: networkx, SHA-256, HMAC, AES-GCM, ECDSA, the random
-- draws, JSON, regular expressions and the letters beyond ASCII, the digest of a scope, the
-- similarity of texts, the replies of a language model, the backends of the anchors, and the random
-- identifiers, which come with the call that draws them. What is asked of one is a field of its
-- record or a hypothesis of the theorem. Exceptions are values of `Result`; a function that changes
-- state and may raise returns the state with the result. The engine, the signer, the verifier and the
-- memory store may raise at every call; the provenance store and the log of the pipelines do not.
--
-- Bounds: times, costs and ranges are natural numbers, so a control cost is a whole number of bits.
-- The levels of a tree are built on fuel, the number of leaves, and the exponent of a capacity is
-- searched on fuel, the number of answers; the tree halves and powers of two outgrow their
-- exponents, so both are enough. A rounded-up logarithm is the least exponent, in whole numbers. The
-- descents on a policy have fuel for three calls for each word and three more, since of three calls
-- in a row one takes a word. A decimal has fuel for as many digits as the number is large.
--
-- Not modelled: the texts of checks and side effects, time stamps, statistics and listings; the
-- language models themselves, the graphs of agents, the database, the web
-- interface, the encrypted search, the files of keys, the serialised ciphertexts, the clients of the
-- chains and the demonstrations.
mod Prelude
pub mod Labels
pub mod Result
pub mod Scope
pub mod Topology
pub mod Session
pub mod Sessions
pub mod Decay
pub mod Verdict
pub mod Capability
pub mod Pdp
pub mod Pep
pub mod Merkle
pub mod Audit
pub mod Vars
pub mod Crypto
pub mod Pipeline
pub mod HumanGate
pub mod IsolatedLlm
pub mod Abe
pub mod Policy
pub mod Engine
pub mod Upgrader
pub mod WriterSign
pub mod HitlGate
pub mod AnchorQueue
pub mod Manifest
mod Tests
pub mod MemoryProxy
pub mod DemoCache
pub mod ToolRegistry
