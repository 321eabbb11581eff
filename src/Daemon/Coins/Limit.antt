-- ===== src/Daemon/Coins/Limit.antt =====
-- How much Shell the coins can make.
use claw_net.Base.{
  ℕ, ◌+◌, ◌-◌, ◌*◌, ◌≤◌, ◌<◌, ◌≡◌, ◌∙◌, refl, ap, arith, String, true, false, List, [], ◌∷◌,
  Bool-cases, inl, inr, ◌==ℕ◌,
}
use claw_net.Base.Int.{ℤ, pos, ◌+ℤ◌, ◌≤ℤ◌, wrap64, wrap64_pos, *ℤ_pos, int_laws}
use claw_net.Float.{Float64, Floats}
use claw_net.Credits.{Ledger, add_credits, ensure_credit_account}
use claw_net.Credits.Supply.{supply, add_credits-supply, ensure_credit_account-supply}
use claw_net.Daemon.Node.{Node, Env, record_event}
use claw_net.Daemon.Kept.{publish_credit_audit-ledger}
use claw_net.Daemon.Coins.{
  CoinState, CoinNode, Dice, Metrics, coin_try_spawn, coin_grab, coin_visual_state, coin_redeem,
  second, new_coin_state, coin_amount,
}
use claw_net.Daemon.Coins.Handlers.{
  CoinCall, state_call, grab_call, redeem_call, coin_step, coin_run, InOrder, IsFair, time_of,
  last_time,
}
use claw_net.Daemon.Coins.Purse.{
  IsPurse, coins, coin_try_spawn_cases, coin_try_spawn-IsPurse, coin_visual_state-IsPurse,
  coin_visual_state_keeps, coin_grab-IsPurse, coin_grab_keeps,
}
use claw_net.Daemon.Coins.Rate.{
  Within, fewer-Within, later-Within, Within-limit, paid-Within, spawned-Within,
}

abbrev paid_ledger : Env → (String → ℕ → String) → ℕ → ℤ → Ledger → Ledger
paid_ledger env txn_id now amount l =
    (add_credits (txn_id env.self now) env.self amount "topo_coin_redeem"
      (ensure_credit_account env.self (pos 0) l)).0

redeem-ledger :
    (env : Env) (txn_id : String → ℕ → String) (now : ℕ) (s : CoinNode)
    → (s.coins.chest_coins ==ℕ 0) ≡ false
    → (coin_redeem env txn_id now s).0.node.ledger
      ≡ paid_ledger env txn_id now (coin_amount s.coins.chest_coins) s.node.ledger
unfolding coin_redeem record_event
redeem-ledger env txn_id now s e = rw e (publish_credit_audit-ledger env _ _ _ _ _ _ _)

paid_ledger-supply :
    (env : Env) (txn_id : String → ℕ → String) (now n : ℕ) (l : Ledger)
    → supply (paid_ledger env txn_id now (pos n) l) ≤ℤ supply l +ℤ pos n
paid_ledger-supply env txn_id now n l =
    let l' : Ledger = ensure_credit_account env.self (pos 0) l in
    let a = add_credits-supply (txn_id env.self now) env.self (pos n) "topo_coin_redeem" l' in
    let b = ensure_credit_account-supply env.self (pos 0) l in grind (int_laws, a, b)

redeem-none :
    (env : Env) (txn_id : String → ℕ → String) (now : ℕ) (s : CoinNode)
    → (s.coins.chest_coins ==ℕ 0) ≡ true
    → (coin_redeem env txn_id now s).0 ≡ s
unfolding coin_redeem
redeem-none env txn_id now s e = rw e refl

redeem-coins :
    (env : Env) (txn_id : String → ℕ → String) (now : ℕ) (s : CoinNode)
    → let c = (coin_redeem env txn_id now s).0.coins in
      (IsPurse s.coins → IsPurse c)
      × (s.coins.chest_coins + coins c ≡ coins s.coins)
      × (c.last_spawn_at ≡ s.coins.last_spawn_at)
unfolding coin_redeem
redeem-coins env txn_id now s = elim (Bool-cases (s.coins.chest_coins ==ℕ 0)) [
  | inl e ↦ rw e ((λ p. p), ground arith, refl)
  | inr e ↦ rw e (
    (λ p. record {
      few_on_beach = p.few_on_beach;
      few_in_chest = omega arith;
      placed = p.placed;
      cooldown = p.cooldown;
    }),
    omega arith,
    refl,
  )
]

redeem-supply :
    (env : Env) (txn_id : String → ℕ → String) (now : ℕ) (s : CoinNode)
    → IsPurse s.coins
    → supply (coin_redeem env txn_id now s).0.node.ledger
      ≤ℤ supply s.node.ledger +ℤ pos (100 * s.coins.chest_coins)
redeem-supply env txn_id now s p = elim (Bool-cases (s.coins.chest_coins ==ℕ 0)) [
  | inl e ↦ rw (redeem-none env txn_id now s e) (omega int_laws)
  | inr e ↦
      let amount : coin_amount s.coins.chest_coins ≡ pos (100 * s.coins.chest_coins) =
        ap wrap64 (*ℤ_pos s.coins.chest_coins 100)
        ∙ wrap64_pos (s.coins.chest_coins * 100) (omega (arith, p.few_in_chest))
        ∙ ap pos (omega arith) in
      rw (redeem-ledger env txn_id now s e, amount)
        (paid_ledger-supply env txn_id now (100 * s.coins.chest_coins) s.node.ledger)
]

added_up :
    (paid n : ℕ) (l a b : ℤ)
    → a ≤ℤ l +ℤ pos (100 * paid)
    → b ≤ℤ a +ℤ pos (100 * n)
    → b ≤ℤ l +ℤ pos (100 * (paid + n))
added_up paid n l a b h k = omega int_laws

new-IsPurse : IsPurse new_coin_state
new-IsPurse = record {
  few_on_beach = omega arith;
  few_in_chest = omega arith;
  placed = refl;
  cooldown = refl;
}

-- The invariant of a run that began at `start` with the supply `l`.
abbrev Limited : ℕ → ℕ → ℤ → CoinNode → Type 0
Limited start now l s =
    (paid : ℕ) × IsPurse s.coins
    × Within start now paid s.coins
    × (supply s.node.ledger ≤ℤ l +ℤ pos (100 * paid))

module _ (f : Floats) (fmax fmin : Float64 → Float64 → Float64) (txn_id : String → ℕ → String)
    (start : ℕ) (l : ℤ) where
  coin_try_spawn-Within :
      (d : Dice) (m : Metrics) (now t paid : ℕ) (c : CoinState)
      → start ≤ now
      → now ≤ t
      → d.extra < 3
      → IsPurse c
      → Within start now paid c
      → Within start t paid (coin_try_spawn f fmax fmin d m t c)
  coin_try_spawn-Within d m now t paid c from on fair p w =
      let w' : Within start t paid c = later-Within start now t paid c on w in
      elim (coin_try_spawn_cases f fmax fmin d m t c) [
        | inl e ↦ rw e w'
        | inr (empty, late, e) ↦
            rw e (spawned-Within start t paid d c (omega arith) fair p empty late w')
      ]

  coin_step-Limited :
      (c : CoinCall) (now : ℕ) (s : CoinNode)
      → start ≤ now
      → now ≤ time_of c
      → IsFair c
      → Limited start now l s
      → Limited start (time_of c) l (coin_step f fmax fmin txn_id c s)
  unfolding coin_step
  coin_step-Limited (state_call d m t) now s from on fair (paid, p, w, b) =
      let c : CoinState = coin_try_spawn f fmax fmin d m t s.coins in
      let (fewer, same) = coin_visual_state_keeps t c in
      (
        paid,
        coin_visual_state-IsPurse t c (coin_try_spawn-IsPurse f fmax fmin d m t s.coins fair p),
        fewer-Within start t paid c (coin_visual_state t c).0 fewer same
            (coin_try_spawn-Within d m now t paid s.coins from on fair p w),
        b,
      )
  coin_step-Limited (grab_call t) now s from on fair (paid, p, w, b) =
      let c : CoinState = (coin_grab s.coins).0 in
      let (fewer, same) = coin_visual_state_keeps t c in
      let (kept, last) = coin_grab_keeps s.coins in
      elim (Bool-cases (coin_grab s.coins).1) [
        | inl e ↦ rw e (
          paid,
          coin_visual_state-IsPurse t c (coin_grab-IsPurse s.coins p),
          fewer-Within start t paid s.coins (coin_visual_state t c).0 (omega (arith, fewer, kept))
              (same ∙ last) (later-Within start now t paid s.coins on w),
          b,
        )
        | inr e ↦ rw e (paid, p, later-Within start now t paid s.coins on w, b)
      ]
  coin_step-Limited (redeem_call env t) now s from on fair (paid, p, w, b) =
      let (purse, sum_is, last) = redeem-coins env txn_id t s in
      let more = redeem-supply env txn_id t s p in
      (
        paid + s.coins.chest_coins,
        purse p,
        paid-Within start t paid (paid + s.coins.chest_coins) s.coins
            (coin_redeem env txn_id t s).0.coins (omega (arith, sum_is)) last
            (later-Within start now t paid s.coins on w),
        added_up paid s.coins.chest_coins l (supply s.node.ledger)
            (supply (coin_redeem env txn_id t s).0.node.ledger) b more,
      )

  coin_run-Limited :
      (cs : List CoinCall) (now : ℕ) (s : CoinNode)
      → start ≤ now
      → InOrder now cs
      → Limited start now l s
      → Limited start (last_time now cs) l (coin_run f fmax fmin txn_id cs s)
  unfolding coin_run
  coin_run-Limited [] now s from o h = h
  coin_run-Limited (c ∷ cs) now s from (on, fair, o) h =
      coin_run-Limited cs (time_of c) (coin_step f fmax fmin txn_id c s) (omega arith) o
        (coin_step-Limited c now s from on fair h)

-- From a new coin state on, however the handlers are called, in the order of time, from `start` to some last call: the
-- supply of Shell grows by at most 100 for each coin of a number of coins that is at most 3 for each
-- 45 seconds of that time, and 3 more; and in the end there are at most 3 coins on the beach and 10 in the chest.
pub coin_run_limit :
    (f : Floats) (fmax fmin : Float64 → Float64 → Float64) (txn_id : String → ℕ → String)
    (start : ℕ) (cs : List CoinCall) (node : Node)
    → InOrder start cs
    → let s = coin_run f fmax fmin txn_id cs (record { coins = new_coin_state; node = node }) in
      ((paid : ℕ) × (supply s.node.ledger ≤ℤ supply node.ledger +ℤ pos (100 * paid))
        × (paid * (45 * second) ≤ 3 * (last_time start cs - start + 45 * second)))
      × (s.coins.beach_coins ≤ 3)
      × (s.coins.chest_coins ≤ 10)
coin_run_limit f fmax fmin txn_id start cs node o =
    let fresh : CoinNode = record { coins = new_coin_state; node = node } in
    let (paid, p, w, b) =
      coin_run-Limited f fmax fmin txn_id start (supply node.ledger) cs start fresh (omega arith) o
        (0, new-IsPurse, (omega arith, inl refl), omega int_laws) in
    (
      (
        paid,
        b,
        Within-limit start (last_time start cs) paid (coin_run f fmax fmin txn_id cs fresh).coins w,
      ),
      p.few_on_beach,
      p.few_in_chest,
    )
