-- ===== src/Daemon/Coins/Examples.antt =====
-- Two spawns, a grab and a redemption.
use claw_net.Base.{ℕ, ◌+◌, ◌-◌, ◌*◌, ◌≤◌, ◌≡◌, refl, arith, String, List, [], ◌∷◌}
use claw_net.Base.Int.{pos, ◌+ℤ◌, ◌≤ℤ◌, ◌*ℤ◌, wrap64}
use claw_net.Float.{Float64, less, at_least}
use claw_net.Credits.Supply.{supply}
use claw_net.Daemon.Examples.{env, node, offered, whole}
use claw_net.Daemon.Coins.{
  CoinNode, Dice, Metrics, new_coin_state, second, coin_try_spawn, coin_grab, coin_visual_state,
  coin_redeem,
}
use claw_net.Daemon.Coins.Handlers.{
  CoinCall, state_call, grab_call, redeem_call, coin_run, coin_step,
}
use claw_net.Daemon.Coins.Limit.{coin_run_limit}

abbrev dice : Dice
dice = record { roll = 0; extra = 2; place = λ i. (i, i) }

abbrev metrics : Metrics
metrics = record { peers = 2; balance = pos 200; topics = 3; activity = 0 }

-- The second spawn check comes too early, the third after the cooldown.
abbrev session : List CoinCall
session =
    state_call dice metrics (100 * second)
    ∷ grab_call (101 * second)
    ∷ state_call dice metrics (102 * second)
    ∷ state_call dice metrics (145 * second)
    ∷ redeem_call env (150 * second)
    ∷ []

abbrev first : Float64 → Float64 → Float64
first a b = a

abbrev txn_id : String → ℕ → String
txn_id peer now = "topo-coin"

abbrev played : CoinNode
played =
    coin_run whole first first txn_id session
      (record { coins = new_coin_state; node = node offered })

coin_run_limit_example :
    ((paid : ℕ) × (supply played.node.ledger ≤ℤ supply (node offered).ledger +ℤ pos (100 * paid))
      × (paid * (45 * second) ≤ 3 * (150 * second - 100 * second + 45 * second)))
    × (played.coins.beach_coins ≤ 3)
    × (played.coins.chest_coins ≤ 10)
coin_run_limit_example =
    coin_run_limit whole first first txn_id (100 * second) session (node offered) (omega arith)

coins_played : (played.coins.beach_coins ≡ 3) × (played.coins.chest_coins ≡ 0)
unfolding coin_run coin_step coin_try_spawn coin_grab coin_visual_state coin_redeem at_least less
    wrap64 ◌*ℤ◌
coins_played = (refl, refl)
