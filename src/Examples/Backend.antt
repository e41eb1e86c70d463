-- ===== src/Examples/Backend.antt =====
-- A store with one object (internal/backend/memory).
use reinstate.Base.{String, arith, string_eq, ==_iff}
use reinstate.Backend.{Bytes, HasConditionalPut}
use reinstate.Backend.Memory.{memory}
use reinstate.Backend.Memory.Conditional.{memory-HasConditionalPut, IsValidStore}

abbrev pub one_tag : Bytes → String
one_tag b = "e1"

memory-HasConditionalPut_example : HasConditionalPut (memory one_tag) (IsValidStore one_tag)
memory-HasConditionalPut_example =
    memory-HasConditionalPut one_tag (λ b h. ground (arith, ==_iff {A = String} "e1" ""))
