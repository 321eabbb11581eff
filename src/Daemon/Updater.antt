-- ===== src/Daemon/Updater.antt =====
-- Which release a node takes for a newer one: `isNewer` and `parseSemver` of
-- clawnet-cli/internal/daemon/updater.go. A version is the list of its characters' codes; the numbers in it
-- are int, 64 bits wide.
use claw_net.Base.{ℕ, ◌+◌, ◌-◌, Bool, true, false, ◌&&◌, List, [], ◌∷◌, leb, ◌==ℕ◌, if◌then◌else◌}
use claw_net.Base.Int.{ℤ, pos, ◌+ℤ◌, ◌*ℤ◌, ltb_ℤ, wrap64}
pub mod Versions
mod Examples

-- [3]int
pub record Semver : Type 0 where
  pub major : ℤ
  pub minor : ℤ
  pub patch : ℤ

-- The variables of the loop of `parseSemver`; `stopped` is true after a break.
pub record Parser : Type 0 where
  pub parts : Semver
  pub n : ℕ
  pub stopped : Bool

abbrev pub new_parser : Parser
new_parser = record {
  parts = record { major = pos 0; minor = pos 0; patch = pos 0 };
  n = 0;
  stopped = false;
}

-- '0' is 48, '9' is 57.
abbrev pub is_digit : ℕ → Bool
is_digit ch = leb 48 ch && leb ch 57

abbrev pub times_ten_plus : ℤ → ℕ → ℤ
times_ten_plus part ch = wrap64 (wrap64 (part *ℤ pos 10) +ℤ pos (ch - 48))

abbrev pub add_digit : ℕ → ℕ → Semver → Semver
add_digit n ch v =
    if n ==ℕ 0
    then record v { major = times_ten_plus v.major ch }
    else if n ==ℕ 1
    then record v { minor = times_ten_plus v.minor ch }
    else record v { patch = times_ten_plus v.patch ch }

-- One round of the loop; '.' is 46.
abbrev pub parse_char : ℕ → Parser → Parser
parse_char ch s =
    if s.stopped
    then s
    else if is_digit ch
    then record s { parts = add_digit s.n ch s.parts }
    else if ch ==ℕ 46
    then record s { n = s.n + 1; stopped = leb 3 (s.n + 1) }
    else record s { stopped = true }

abbrev pub parse_chars : List ℕ → Parser → Parser
parse_chars [] s = s
parse_chars (ch ∷ rest) s = parse_chars rest (parse_char ch s)

-- strings.TrimPrefix(v, "v"); 'v' is 118.
abbrev pub trim_v : List ℕ → List ℕ
trim_v [] = []
trim_v (ch ∷ rest) = if ch ==ℕ 118 then rest else ch ∷ rest

unfoldable pub parse_semver : List ℕ → Semver
parse_semver v = (parse_chars (trim_v v) new_parser).parts

abbrev pub is_later : Semver → Semver → Bool
is_later l c =
    if ltb_ℤ c.major l.major
    then true
    else if ltb_ℤ l.major c.major
    then false
    else if ltb_ℤ c.minor l.minor
    then true
    else if ltb_ℤ l.minor c.minor
    then false
    else if ltb_ℤ c.patch l.patch
    then true
    else false

unfoldable pub is_newer : List ℕ → List ℕ → Bool
is_newer latest current = is_later (parse_semver latest) (parse_semver current)
