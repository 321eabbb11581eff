-- ===== src/Daemon/Coins/Rate.antt =====
-- How many coins the spawn checks make, by the cooldown.
use claw_net.Base.{ℕ, ◌+◌, ◌-◌, ◌*◌, ◌≤◌, ◌<◌, ◌≡◌, arith, inl, inr, ◌⊎◌}
use claw_net.Daemon.Coins.{CoinState, Dice, second, spawned}
use claw_net.Daemon.Coins.Purse.{IsPurse, coins}

abbrev pub cooldown : ℕ
cooldown = 45 * second

-- Of the coins that were spawned since `start`, `paid` are redeemed and the others are on the beach, in the chest or
-- gone; the last were spawned before `now`.
abbrev pub Within : ℕ → ℕ → ℕ → CoinState → Type 0
Within start now paid c =
    (c.last_spawn_at ≤ now)
    × ((paid + coins c ≡ 0)
        ⊎ ((start ≤ c.last_spawn_at)
            × ((paid + coins c) * cooldown ≤ 3 * (c.last_spawn_at - start + cooldown))))

pub fewer-Within :
    (start now paid : ℕ) (c c' : CoinState)
    → coins c' ≤ coins c
    → c'.last_spawn_at ≡ c.last_spawn_at
    → Within start now paid c
    → Within start now paid c'
fewer-Within start now paid c c' h e (w, inl z) = (rw e w, inl (omega arith))
fewer-Within start now paid c c' h e (w, inr (s, b)) = (rw e w, inr (rw e s, rw e (omega arith)))

pub later-Within :
    (start now now' paid : ℕ) (c : CoinState)
    → now ≤ now'
    → Within start now paid c
    → Within start now' paid c
later-Within start now now' paid c h (w, r) = (omega (arith, w), r)

-- Redeeming coins makes them paid ones.
pub paid-Within :
    (start now paid paid' : ℕ) (c c' : CoinState)
    → paid' + coins c' ≡ paid + coins c
    → c'.last_spawn_at ≡ c.last_spawn_at
    → Within start now paid c
    → Within start now paid' c'
paid-Within start now paid paid' c c' h e (w, inl z) = (rw e w, inl (omega arith))
paid-Within start now paid paid' c c' h e (w, inr (s, b)) =
    (rw e w, inr (rw e s, rw e (omega arith)))

pub Within-limit :
    (start now paid : ℕ) (c : CoinState)
    → Within start now paid c
    → paid * cooldown ≤ 3 * (now - start + cooldown)
Within-limit start now paid c (w, inl z) = omega arith
Within-limit start now paid c (w, inr (s, b)) = omega (arith, w, s, b)

pub spawned-Within :
    (start now paid : ℕ) (d : Dice) (c : CoinState)
    → start ≤ now
    → d.extra < 3
    → IsPurse c
    → c.beach_coins ≡ 0
    → c.spawn_cooldown ≤ now - c.last_spawn_at
    → Within start now paid c
    → Within start now paid (spawned d now c)
spawned-Within start now paid d c h fair p none_left late (w, inl z) =
    (omega arith, inr (h, omega arith))
spawned-Within start now paid d c h fair p none_left late (w, inr (s, b)) =
    (omega arith, inr (h, omega (arith, p.cooldown, b, s)))
