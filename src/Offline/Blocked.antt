-- ===== src/Offline/Blocked.antt =====
-- Operations that keep failing stand in the way of all others.
use claw_net.Base.{ℕ, ◌≡◌, String, false, some, List, [], ◌∷◌, ◌≢◌}
use claw_net.Offline.{PendingOp, Queue, pending, text_lt, Senders, replay_op, process_pending_ops}

-- The operation is pending and not older than the cutoff.
abbrev pub IsWaiting : String → String × PendingOp → Type 0
IsWaiting cutoff (id, op) = (op.status ≡ pending) × (text_lt op.created_at cutoff ≡ false)

-- Sending it again fails.
abbrev pub Fails : Senders → String × PendingOp → Type 0
Fails s (id, op) = (message : String) × (replay_op s op ≡ some message)

abbrev pub IsOther : String → String × PendingOp → Type 0
IsOther id (j, op) = j ≢ id

module _ (s : Senders) where
  -- The ticks of the loop, each with its cutoff, while the context lives.
  abbrev pub ticks : ℕ → List String → Queue → Queue
  ticks peers [] q = q
  ticks peers (cutoff ∷ cs) q = ticks peers cs (process_pending_ops s peers (λ i. false) cutoff q)
