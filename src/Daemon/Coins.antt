-- ===== src/Daemon/Coins.antt =====
-- The coins of the topology game: clawnet-cli/internal/daemon/topo_coins.go. Times are nanoseconds since the
-- zero time; what math/rand gives is `Dice`; math.Max and math.Min are parameters. The message is kept as the
-- amount that it names.
use claw_net.Base.{
  ℕ, zero, suc, ◌+◌, ◌-◌, ◌*◌, String, Bool, true, false, not, ◌&&◌, Option, none, some, List, [],
  ◌∷◌, length, ltb, leb, ◌==ℕ◌, if◌then◌else◌,
}
use claw_net.Base.Int.{ℤ, pos, ◌*ℤ◌, wrap64}
use claw_net.Float.{Float64, Floats, less, at_least}
use claw_net.Credits.{Ledger, ensure_credit_account, add_credits}
use claw_net.Daemon.Node.{Node, Env, publish_credit_audit, record_event}
pub mod Handlers
pub mod Purse
pub mod Rate
pub mod Limit
mod Examples

abbrev pub second : ℕ
second = 1000000000

pub record CoinState : Type 0 where
  pub last_spawn_at : ℕ
  pub spawn_cooldown : ℕ
  pub beach_expiry : ℕ
  pub beach_coins : ℕ
  pub beach_spawned_at : ℕ
  pub chest_coins : ℕ
  pub coin_positions : List (ℕ × ℕ)
  pub last_message : Option ℤ
  pub message_expires_at : ℕ

abbrev pub new_coin_state : CoinState
new_coin_state = record {
  last_spawn_at = 0;
  spawn_cooldown = 45 * second;
  beach_expiry = 120 * second;
  beach_coins = 0;
  beach_spawned_at = 0;
  chest_coins = 0;
  coin_positions = [];
  last_message = none;
  message_expires_at = 0;
}

-- rand.Float64(), rand.Intn(3), and rand.Intn(4) with rand.Intn(30) for each coin.
pub record Dice : Type 0 where
  pub roll : Float64
  pub extra : ℕ
  pub place : ℕ → ℕ × ℕ

-- The numbers of peers, topics and echoes, and the energy of this node.
pub record Metrics : Type 0 where
  pub peers : ℕ
  pub balance : ℤ
  pub topics : ℕ
  pub activity : ℕ

abbrev pub coin_spots : (ℕ → ℕ × ℕ) → ℕ → ℕ → List (ℕ × ℕ)
coin_spots place i zero = []
coin_spots place i (suc left) = (2 + (place i).0, 5 + (place i).1) ∷ coin_spots place (i + 1) left

-- Spawn 1-3 coins.
abbrev pub spawned : Dice → ℕ → CoinState → CoinState
spawned d now c = record c {
  beach_coins = 1 + d.extra;
  beach_spawned_at = now;
  last_spawn_at = now;
  coin_positions = coin_spots d.place 0 (1 + d.extra);
}

module _ (f : Floats) (fmax fmin : Float64 → Float64 → Float64) where
  abbrev number : ℕ → Float64
  number n = f.decimal (pos n) 0

  abbrev pub coin_base : Float64 → Float64
  coin_base peers =
      if less peers (number 3)
      then f.decimal (pos 90) 2
      else if less peers (number 10)
      then f.decimal (pos 75) 2
      else f.decimal (pos 50) 2

  abbrev pub coin_probability : Metrics → Float64
  coin_probability m =
      let one = number 1 in
      let peers = number m.peers in
      let bounded = λ (low x : Float64). fmax low (fmin one x) in
      let p_f = bounded (f.decimal (pos 3) 1) (f.sub one (f.div peers (number 200))) in
      let b_f =
        bounded (f.decimal (pos 2) 1) (f.sub one (f.div (f.decimal m.balance 0) (number 50000))) in
      let t_f = bounded (f.decimal (pos 5) 1) (f.sub one (f.div (number m.topics) (number 30))) in
      let a_b = fmin (f.decimal (pos 5) 1) (f.div (number m.activity) (number 20)) in
      f.mul (f.mul (f.mul (f.mul (coin_base peers) p_f) b_f) t_f) (f.add one a_b)

  -- `coinTrySpawn`
  unfoldable pub coin_try_spawn : Dice → Metrics → ℕ → CoinState → CoinState
  coin_try_spawn d m now c =
      if ltb 0 c.beach_coins
      then c
      else if ltb (now - c.last_spawn_at) c.spawn_cooldown
      then c
      else if ltb 0 c.beach_coins && ltb c.beach_expiry (now - c.beach_spawned_at)
      then record c { beach_coins = 0; coin_positions = [] }
      else if at_least d.roll (coin_probability m)
      then c
      else spawned d now c

-- `coinGrab`, with whether coins were grabbed.
unfoldable pub coin_grab : CoinState → CoinState × Bool
coin_grab c =
    if c.beach_coins ==ℕ 0
    then (c, false)
    else if ltb 10 (c.chest_coins + c.beach_coins)
    then (c, false)
    else (
      record c {
        chest_coins = c.chest_coins + c.beach_coins;
        beach_coins = 0;
        coin_positions = [];
      },
      true,
    )

pub record CoinVisualState : Type 0 where
  pub beach_coins : ℕ
  pub chest_coins : ℕ
  pub coin_positions : List (ℕ × ℕ)
  pub message : Option ℤ

abbrev pub expire_beach : ℕ → CoinState → CoinState
expire_beach now c =
    if ltb 0 c.beach_coins && ltb c.beach_expiry (now - c.beach_spawned_at)
    then record c { beach_coins = 0; coin_positions = [] }
    else c

abbrev pub expire_message : ℕ → CoinState → CoinState
expire_message now c = if ltb c.message_expires_at now then record c { last_message = none } else c

-- `coinVisualState`
unfoldable pub coin_visual_state : ℕ → CoinState → CoinState × CoinVisualState
coin_visual_state now c =
    let c' = expire_message now (expire_beach now c) in
    (
      c',
      record {
        beach_coins = c'.beach_coins;
        chest_coins = c'.chest_coins;
        coin_positions = c'.coin_positions;
        message = c'.last_message;
      },
    )

pub record CoinNode : Type 0 where
  pub coins : CoinState
  pub node : Node

-- int64(count) * 100
abbrev pub coin_amount : ℕ → ℤ
coin_amount count = wrap64 (pos count *ℤ pos 100)

-- `coinRedeem`: the id of the transaction is made by fmt.Sprintf from the peer id and the time.
unfoldable pub coin_redeem : Env → (String → ℕ → String) → ℕ → CoinNode → CoinNode × ℤ × ℕ
coin_redeem env txn_id now s =
    let count = s.coins.chest_coins in
    let amount = coin_amount count in
    let txn = txn_id env.self now in
    let ledger =
      (add_credits txn env.self amount "topo_coin_redeem"
        (ensure_credit_account env.self (pos 0) s.node.ledger)).0 in
    let node = record_event "coin_redeemed" env.self txn (
      publish_credit_audit env txn "" "system" env.self amount "topo_coin_redeem"
        (record s.node { ledger = ledger })) in
    if count ==ℕ 0 then (s, pos 0, 0) else (
      record {
        coins = record s.coins {
          chest_coins = 0;
          last_message = some amount;
          message_expires_at = now + 6 * second;
        };
        node = node;
      },
      amount,
      count,
    )
