-- ===== src/Policy.antt =====
-- core/policy.py: the attributes that an agent is issued and the policy that a memory is encrypted
-- with, both as texts.
pub mod Digits
pub mod Words
pub mod Decimals
pub mod Clauses
pub mod Formulas
pub mod Texts
pub mod Attributes
pub mod Values
pub mod Enforcement
