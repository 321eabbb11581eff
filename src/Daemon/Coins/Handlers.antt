-- ===== src/Daemon/Coins/Handlers.antt =====
-- The HTTP handlers of the topology game, of clawnet-cli/internal/daemon/topo_coins.go, as calls at a time, in
-- the order in which the daemon takes them.
use claw_net.Base.{ℕ, ◌≤◌, ◌<◌, String, List, [], ◌∷◌, if◌then◌else◌}
use claw_net.Float.{Float64, Floats}
use claw_net.Daemon.Node.{Env}
use claw_net.Daemon.Coins.{
  CoinNode, Dice, Metrics, coin_try_spawn, coin_grab, coin_redeem, coin_visual_state,
}

pub data CoinCall : Type 0 where
  state_call : Dice → Metrics → ℕ → CoinCall
  grab_call : ℕ → CoinCall
  redeem_call : Env → ℕ → CoinCall

abbrev pub time_of : CoinCall → ℕ
time_of (state_call _ _ now) = now
time_of (grab_call now) = now
time_of (redeem_call _ now) = now

-- What is drawn for a new coin is below 3, as rand.Intn(3) is.
abbrev pub IsFair : CoinCall → Type 0
IsFair (state_call d _ _) = d.extra < 3
IsFair _ = Unit {0}

-- The handlers: a spawn check before the state is shown, a grab after which it is shown, a redemption.
module _ (f : Floats) (fmax fmin : Float64 → Float64 → Float64) (txn_id : String → ℕ → String) where
  unfoldable pub coin_step : CoinCall → CoinNode → CoinNode
  coin_step (state_call d m now) s = record s {
    coins = (coin_visual_state now (coin_try_spawn f fmax fmin d m now s.coins)).0;
  }
  coin_step (grab_call now) s =
      let (c, grabbed) = coin_grab s.coins in
      if grabbed then record s { coins = (coin_visual_state now c).0 } else s
  coin_step (redeem_call env now) s = (coin_redeem env txn_id now s).0

  unfoldable pub coin_run : List CoinCall → CoinNode → CoinNode
  coin_run [] s = s
  coin_run (c ∷ cs) s = coin_run cs (coin_step c s)

-- The calls come in the order of their times, none before `start`.
abbrev pub InOrder : ℕ → List CoinCall → Type 0
InOrder start [] = Unit {0}
InOrder start (c ∷ cs) = (start ≤ time_of c) × IsFair c × InOrder (time_of c) cs

-- The time of the last call.
abbrev pub last_time : ℕ → List CoinCall → ℕ
last_time start [] = start
last_time start (c ∷ cs) = last_time (time_of c) cs
