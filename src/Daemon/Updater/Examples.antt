-- ===== src/Daemon/Updater/Examples.antt =====
-- Versions of releases.
use claw_net.Base.{ℕ, ◌≡◌, refl, true, false, List, [], ◌∷◌, ◌++◌}
use claw_net.Base.Int.{◌+ℤ◌, ◌*ℤ◌, wrap64}
use claw_net.Daemon.Updater.{is_newer, parse_semver}
use claw_net.Daemon.Updater.Versions.{is_newer_order, is_newer_ignores_suffix}

-- v1.2.10
abbrev newest : List ℕ
newest = 118 ∷ 49 ∷ 46 ∷ 50 ∷ 46 ∷ 49 ∷ 48 ∷ []

-- 1.2.9
abbrev middle : List ℕ
middle = 49 ∷ 46 ∷ 50 ∷ 46 ∷ 57 ∷ []

-- 1.1.99
abbrev oldest : List ℕ
oldest = 49 ∷ 46 ∷ 49 ∷ 46 ∷ 57 ∷ 57 ∷ []

newest_over_middle : is_newer newest middle ≡ true
unfolding is_newer parse_semver wrap64 ◌+ℤ◌ ◌*ℤ◌
newest_over_middle = refl

middle_over_oldest : is_newer middle oldest ≡ true
unfolding is_newer parse_semver wrap64 ◌+ℤ◌ ◌*ℤ◌
middle_over_oldest = refl

is_newer_order_test : (is_newer middle newest ≡ false) × (is_newer newest oldest ≡ true)
is_newer_order_test = is_newer_order newest middle oldest newest_over_middle middle_over_oldest

-- .0.0
abbrev release : List ℕ
release = 46 ∷ 48 ∷ 46 ∷ 48 ∷ []

-- beta.9
abbrev beta_9 : List ℕ
beta_9 = 98 ∷ 101 ∷ 116 ∷ 97 ∷ 46 ∷ 57 ∷ []

-- beta.10
abbrev beta_10 : List ℕ
beta_10 = 98 ∷ 101 ∷ 116 ∷ 97 ∷ 46 ∷ 49 ∷ 48 ∷ []

-- 1.0.0-beta.9 is not older than 1.0.0, nor 1.0.0-beta.10 newer than 1.0.0-beta.9.
is_newer_ignores_suffix_example :
    (is_newer (49 ∷ release) (49 ∷ release ++ 45 ∷ beta_10)
      ≡ is_newer (49 ∷ release) (49 ∷ release))
    × (is_newer (49 ∷ release ++ 45 ∷ beta_10) (49 ∷ release)
        ≡ is_newer (49 ∷ release) (49 ∷ release))
    × (is_newer (49 ∷ release ++ 45 ∷ beta_10) (49 ∷ release ++ 45 ∷ beta_9) ≡ false)
is_newer_ignores_suffix_example =
    is_newer_ignores_suffix 49 release beta_10 beta_9 (49 ∷ release) 45 45 (refl, refl) (refl, refl)
