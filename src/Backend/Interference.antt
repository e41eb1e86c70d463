-- ===== src/Backend/Interference.antt =====
-- Other devices that write to remote storage between the read and the write of a client.
use reinstate.Base.{ℕ, suc}

-- `t` is reached from `s` by what the other devices do during at most the first attempts of `n`.
pub data Interfered {State : Type 0} (others : ℕ → State → State) : ℕ → State → State → Type 0 where
  still : (n : ℕ) (s : State) → Interfered others n s s
  attempt :
      (n : ℕ) (s t : State) → Interfered others n (others n s) t → Interfered others (suc n) s t
