-- ===== src/Capability.antt =====
-- manifest/capability.py: the four levels of a tool's capability.
use trustmem.Prelude.{String, List, [], ◌∷◌, if◌then◌else◌, contains}

pub data CapabilityLevel : Type 0 where
  read_level write_level dangerous_level system_level : CapabilityLevel

abbrev pub dangerous_capabilities : List String
dangerous_capabilities =
    "firewall_block" ∷ "host_isolate" ∷ "exec_command" ∷ "risk_level_publish" ∷ []

abbrev pub system_capabilities : List String
system_capabilities = "key_export" ∷ "anchor_publish" ∷ "keyring_rotate" ∷ []

abbrev pub write_capabilities : List String
write_capabilities = "file_write" ∷ "memory.write" ∷ []

unfoldable pub capability_level : String → CapabilityLevel
capability_level tool =
    if contains tool system_capabilities
    then system_level
    else if contains tool dangerous_capabilities
    then dangerous_level
    else if contains tool write_capabilities
    then write_level
    else read_level
