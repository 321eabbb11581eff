-- ===== src/Daemon/Coins/Purse.antt =====
-- How many coins there are after each call.
use claw_net.Base.{
  ℕ, zero, suc, ◌+◌, ◌-◌, ◌*◌, ◌≤◌, ◌<◌, ◌≡◌, refl, arith, length, ltb, Bool-cases, inl, inr, ◌⊎◌,
}
use claw_net.Float.{Float64, Floats, at_least}
use claw_net.Daemon.Coins.{
  CoinState, Dice, Metrics, coin_try_spawn, coin_grab, coin_visual_state, coin_spots, second,
  coin_probability, spawned,
}

-- At most 3 coins on the beach, each with its place, and 10 in the chest; the cooldown is 45 seconds.
pub record IsPurse (c : CoinState) : Type 0 where
  pub few_on_beach : c.beach_coins ≤ 3
  pub few_in_chest : c.chest_coins ≤ 10
  pub placed : length c.coin_positions ≡ c.beach_coins
  pub cooldown : c.spawn_cooldown ≡ 45 * second

length-coin_spots : (place : ℕ → ℕ × ℕ) (i n : ℕ) → length (coin_spots place i n) ≡ n
length-coin_spots place i zero = refl
length-coin_spots place i (suc n) = omega (arith, length-coin_spots place (i + 1) n)

-- The coins on the beach and in the chest.
abbrev pub coins : CoinState → ℕ
coins c = c.beach_coins + c.chest_coins

spawned-IsPurse :
    (d : Dice) (now : ℕ) (c : CoinState) → d.extra < 3 → IsPurse c → IsPurse (spawned d now c)
spawned-IsPurse d now c h p = record {
  few_on_beach = omega arith;
  few_in_chest = p.few_in_chest;
  placed = length-coin_spots d.place 0 (1 + d.extra);
  cooldown = p.cooldown;
}

-- A spawn check spawns coins on an empty beach after the cooldown, or changes nothing.
pub coin_try_spawn_cases :
    (f : Floats) (fmax fmin : Float64 → Float64 → Float64) (d : Dice) (m : Metrics) (now : ℕ)
    (c : CoinState)
    → (coin_try_spawn f fmax fmin d m now c ≡ c)
      ⊎ ((c.beach_coins ≡ 0)
          × (c.spawn_cooldown ≤ now - c.last_spawn_at)
          × (coin_try_spawn f fmax fmin d m now c ≡ spawned d now c))
unfolding coin_try_spawn
coin_try_spawn_cases f fmax fmin d m now c = elim (Bool-cases (ltb 0 c.beach_coins)) [
  | inl e ↦ inl (rw e refl)
  | inr e ↦ elim (Bool-cases (ltb (now - c.last_spawn_at) c.spawn_cooldown)) [
    | inl w ↦ inl (rw (e, w) refl)
    | inr w ↦ elim (Bool-cases (at_least d.roll (coin_probability f fmax fmin m))) [
      | inl r ↦ inl (rw (e, w, r) refl)
      | inr r ↦ inr (ground arith, ground arith, rw (e, w, r) refl)
    ]
  ]
]

pub coin_try_spawn-IsPurse :
    (f : Floats) (fmax fmin : Float64 → Float64 → Float64) (d : Dice) (m : Metrics) (now : ℕ)
    (c : CoinState)
    → d.extra < 3
    → IsPurse c
    → IsPurse (coin_try_spawn f fmax fmin d m now c)
coin_try_spawn-IsPurse f fmax fmin d m now c h p =
    elim (coin_try_spawn_cases f fmax fmin d m now c) [
      | inl e ↦ rw e p
      | inr (_, _, e) ↦ rw e (spawned-IsPurse d now c h p)
    ]

pub coin_visual_state-IsPurse :
    (now : ℕ) (c : CoinState) → IsPurse c → IsPurse (coin_visual_state now c).0
unfolding coin_visual_state
coin_visual_state-IsPurse now c p = ground arith

-- Showing the state takes coins from the beach at most, and spawns none.
pub coin_visual_state_keeps :
    (now : ℕ) (c : CoinState)
    → (coins (coin_visual_state now c).0 ≤ coins c)
      × ((coin_visual_state now c).0.last_spawn_at ≡ c.last_spawn_at)
unfolding coin_visual_state
coin_visual_state_keeps now c = ground arith

pub coin_grab-IsPurse : (c : CoinState) → IsPurse c → IsPurse (coin_grab c).0
unfolding coin_grab
coin_grab-IsPurse c p = ground arith

pub coin_grab_keeps :
    (c : CoinState)
    → (coins (coin_grab c).0 ≡ coins c) × ((coin_grab c).0.last_spawn_at ≡ c.last_spawn_at)
unfolding coin_grab
coin_grab_keeps c = ground arith
