-- ===== src/HumanGate/FailClosed.antt =====
-- Waiting is closed on failure: only a human's answer lets a request through.
use trustmem.Prelude.{String, Bool, false, ◌&&◌, str_eq}
use trustmem.HumanGate.{HumanGate, Step, resolves}

-- The step is a human's answer `d` to the request.
abbrev pub answers : String → String → Step → Bool
answers id d (resolves k o) = str_eq k id && str_eq o.decision d
answers id d s = false
