-- ===== src/Credits/Tiers.antt =====
-- The lobster tiers of clawnet-cli/internal/store/credits.go: the table `LobsterTiers` and `GetTier`.
use claw_net.Base.{
  subst, sym, ℕ, String, ◌≤◌, ◌≡◌, true, false, List, [], ◌∷◌, inl, inr, arith, All, Bool-cases,
  if◌then◌else◌,
}
use claw_net.Base.Int.{ℤ, pos, ◌≤ℤ◌, leb_ℤ}

-- `LobsterTier`
pub record Tier : Type 0 where
  pub level : ℕ
  pub name : String
  pub name_zh : String
  pub emoji : String
  pub min_energy : ℤ

abbrev tier : ℕ → String → String → String → ℕ → Tier
tier level name name_zh emoji min = record {
  level = level;
  name = name;
  name_zh = name_zh;
  emoji = emoji;
  min_energy = pos min;
}

abbrev pub first_tier : Tier
first_tier = tier 1 "Red Swamp Crayfish" "克氏原螯虾" "🦐" 0

abbrev pub lobster_tiers : List Tier
lobster_tiers =
    first_tier
    ∷ tier 2 "Marbled Crayfish" "大理石纹螯虾" "🦐" 100
    ∷ tier 3 "Signal Crayfish" "信号小龙虾" "🦐" 500
    ∷ tier 4 "Red Claw Crayfish" "红螯螯虾" "🦐" 1500
    ∷ tier 5 "American Lobster" "波士顿龙虾" "🦞" 3000
    ∷ tier 6 "European Lobster" "欧洲龙虾" "🦞" 5000
    ∷ tier 7 "California Spiny Lobster" "加州刺龙虾" "🦞" 8000
    ∷ tier 8 "Japanese Spiny Lobster" "日本伊势龙虾" "🦞" 15000
    ∷ tier 9 "Ornate Spiny Lobster" "锦绣龙虾" "🦞" 30000
    ∷ tier 10 "Southern Rock Lobster" "澳洲岩龙虾" "🦞" 50000
    ∷ tier 11 "Mediterranean Slipper Lobster" "拖鞋龙虾" "🦞" 80000
    ∷ tier 12 "Gippsland Spiny Crayfish" "吉普斯兰刺螯虾" "🦞" 150000
    ∷ tier 13 "Murray Crayfish" "默里河螯虾" "🦞" 250000
    ∷ tier 14 "Juan Fernández Rock Lobster" "胡安费尔南德斯岩龙虾" "🦞" 500000
    ∷ tier 15 "Tasmanian Giant Crayfish" "塔斯马尼亚巨螯虾" "🦞" 1000000
    ∷ tier 16 "Banded Spiny Lobster" "毛伊龙虾" "🦞" 2000000
    ∷ tier 17 "Blue Lobster" "蓝龙虾" "💎" 5000000
    ∷ tier 18 "Split-Colored Lobster" "双色龙虾" "🌗" 10000000
    ∷ tier 19 "Albino Lobster" "白化龙虾" "🤍" 30000000
    ∷ tier 20 "Ghost Lobster" "幽灵龙虾" "👻" 100000000
    ∷ []

-- The loop of `GetTier`: the last tier that the energy reaches.
climb : ℤ → Tier → List Tier → Tier
climb energy reached [] = reached
climb energy reached (t ∷ rest) =
    climb energy (if leb_ℤ t.min_energy energy then t else reached) rest

unfoldable pub get_tier : ℤ → Tier
unfolding climb
get_tier energy = climb energy first_tier lobster_tiers

-- Thresholds and levels only go up from `t` on.
abbrev IsBelow : Tier → Tier → Type 0
IsBelow t u = (t.min_energy ≤ℤ u.min_energy) × (t.level ≤ u.level)

abbrev IsAscending : List Tier → Type 0
IsAscending [] = Unit
IsAscending (t ∷ rest) = All (IsBelow t) rest × IsAscending rest

climb_reached :
    (energy : ℤ) (t : Tier) (rest : List Tier)
    → t.min_energy ≤ℤ energy
    → (climb energy t rest).min_energy ≤ℤ energy
unfolding climb
climb_reached energy t [] h = h
climb_reached energy t (u ∷ rest) h = elim (Bool-cases (leb_ℤ u.min_energy energy)) [
  | inl up ↦ rw (up, climb) (climb_reached energy u rest (ground arith))
  | inr stay ↦ rw (stay, climb) (climb_reached energy t rest h)
]

level-climb :
    (energy : ℤ) (t : Tier) (rest : List Tier)
    → All (IsBelow t) rest
    → IsAscending rest
    → t.level ≤ (climb energy t rest).level
unfolding climb
level-climb energy t [] b a = omega arith
level-climb energy t (u ∷ rest) b a = elim (Bool-cases (leb_ℤ u.min_energy energy)) [
  | inl up ↦ rw (up, climb) (omega (arith, level-climb energy u rest a.0 a.1))
  | inr stay ↦ rw (stay, climb) (level-climb energy t rest b.1 a.1)
]

climb_up :
    (energy : ℤ) (t u : Tier) (rest : List Tier)
    → leb_ℤ u.min_energy energy ≡ true
    → climb energy t (u ∷ rest) ≡ climb energy u rest
unfolding climb
climb_up energy t u rest up = rw (up, climb)

climb_stay :
    (energy : ℤ) (t u : Tier) (rest : List Tier)
    → leb_ℤ u.min_energy energy ≡ false
    → climb energy t (u ∷ rest) ≡ climb energy t rest
unfolding climb
climb_stay energy t u rest stay = rw (stay, climb)

-- No tier of a list that the energy reaches is above `top`.
abbrev pub Tops : ℤ → List Tier → Tier → Type 0
Tops energy tiers top = All (λ u. u.min_energy ≤ℤ energy → u.level ≤ top.level) tiers

climb_highest :
    (energy : ℤ) (t : Tier) (rest : List Tier)
    → All (IsBelow t) rest
    → IsAscending rest
    → Tops energy rest (climb energy t rest)
climb_highest energy t [] b a = tt
climb_highest energy t (u ∷ rest) b a = elim (Bool-cases (leb_ℤ u.min_energy energy)) [
  | inl up ↦
      subst (Tops energy (u ∷ rest)) (sym (climb_up energy t u rest up))
        ((λ h. level-climb energy u rest a.0 a.1), climb_highest energy u rest a.0 a.1)
  | inr stay ↦
      subst (Tops energy (u ∷ rest)) (sym (climb_stay energy t u rest stay))
        ((λ h. absurd (ground arith)), climb_highest energy t rest b.1 a.1)
]

climb_mono :
    (e f : ℤ) (t u : Tier) (rest : List Tier)
    → e ≤ℤ f
    → t.level ≤ u.level
    → All (IsBelow t) rest
    → IsAscending rest
    → (climb e t rest).level ≤ (climb f u rest).level
unfolding climb
climb_mono e f t u [] h k b a = k
climb_mono e f t u (v ∷ rest) h k b a = elim (Bool-cases (leb_ℤ v.min_energy e)) [
  | inl up ↦
      let also : leb_ℤ v.min_energy f ≡ true = ground arith in
      rw (up, also, climb) (climb_mono e f v v rest h (omega arith) a.0 a.1)
  | inr stay ↦ elim (Bool-cases (leb_ℤ v.min_energy f)) [
    | inl up ↦ rw (stay, up, climb) (climb_mono e f t v rest h b.0.1 b.1 a.1)
    | inr low ↦ rw (stay, low, climb) (climb_mono e f t u rest h k b.1 a.1)
  ]
]

lobster_tiers-IsAscending : IsAscending lobster_tiers
lobster_tiers-IsAscending = omega arith

first_tier-IsBelow : All (IsBelow first_tier) lobster_tiers
first_tier-IsBelow = omega arith

-- `GetTier` gives the highest tier that an energy of 0 or more reaches: its threshold is met, and
-- every tier of the table whose threshold is met has its level or a lower one.
pub get_tier_highest :
    (energy : ℤ)
    → pos 0 ≤ℤ energy
    → ((get_tier energy).min_energy ≤ℤ energy) × Tops energy lobster_tiers (get_tier energy)
unfolding get_tier
get_tier_highest energy h = (
  climb_reached energy first_tier lobster_tiers h,
  climb_highest energy first_tier lobster_tiers first_tier-IsBelow lobster_tiers-IsAscending,
)

-- More energy never means a lower tier.
pub get_tier_mono : (e f : ℤ) → e ≤ℤ f → (get_tier e).level ≤ (get_tier f).level
unfolding get_tier
get_tier_mono e f h =
    climb_mono e f first_tier first_tier lobster_tiers h (omega arith) first_tier-IsBelow
      lobster_tiers-IsAscending
