-- ===== src/Daemon/Echo.antt =====
-- Echoes, the short messages of the watch stream: clawnet-cli/internal/daemon/echo.go. An index out of range,
-- which panics, is `none`; times are whole seconds.
use Prim.Native.String.{◌++◌ as join}
use mathlib.Core.Option.{map as option_map}
use claw_net.Base.{
  ℕ, zero, suc, ◌+◌, ◌-◌, ◌%◌, String, Bool, true, false, Option, none, some, List, [], ◌∷◌,
  get_elem?, ◌++◌, length, drop, ltb, leb, if◌then◌else◌, ◌==◌,
}
use claw_net.Base.Int.{ℤ, pos, ◌-ℤ◌, ltb_ℤ, wrap64}
pub mod Ring
pub mod Recent
mod Examples

pub record EchoMsg : Type 0 where
  pub kind : String
  pub actor : String
  pub actor_name : String
  pub subject : String
  pub timestamp : ℤ
  pub message : String

pub record EchoBuf : Type 0 where
  pub ring : List EchoMsg
  pub cap : ℕ
  pub idx : ℕ

abbrev pub new_echo_buf : ℕ → EchoBuf
new_echo_buf cap = record { ring = []; cap = cap; idx = 0 }

-- A write out of range, which `push` never makes, changes nothing here.
abbrev pub set : List EchoMsg → ℕ → EchoMsg → List EchoMsg
set [] i v = []
set (x ∷ xs) zero v = v ∷ xs
set (x ∷ xs) (suc i) v = x ∷ set xs i v

unfoldable pub push : EchoMsg → EchoBuf → EchoBuf
push m b = record b {
  ring = if ltb (length b.ring) b.cap then b.ring ++ m ∷ [] else set b.ring b.idx m;
  idx = (b.idx + 1) % b.cap;
}

-- The loop from i on, with `left` rounds left; n is at most the capacity, so that idx + cap - n is idx - n + cap.
unfoldable pub read_from : EchoBuf → ℕ → ℕ → ℕ → Option (List EchoMsg)
read_from b n i zero = some []
read_from b n i (suc left) = elim (get_elem? b.ring ((b.idx + b.cap - n + i) % b.cap)) [
  | none ↦ none
  | some m ↦ option_map (λ ms. m ∷ ms) (read_from b n (i + 1) left)
]

-- `Recent` of a number that is not negative; queryInt turns a negative limit into 50.
unfoldable pub recent : ℕ → EchoBuf → Option (List EchoMsg)
recent n b =
    let total = length b.ring in
    let n' = if ltb total n then total else n in
    if ltb total b.cap then some (drop (total - n') b.ring) else read_from b n' 0 n'

-- The events that go into the watch stream, the latest first, beside the buffer.
pub record EchoState : Type 0 where
  pub buf : EchoBuf
  pub events : List EchoMsg

-- A message of the topic: whether this node sent it, and what its JSON is.
unfoldable pub handle_echo_sub : ℤ → Bool → Option EchoMsg → EchoState → EchoState
unfolding push
handle_echo_sub now own none s = s
handle_echo_sub now own (some echo) s =
    if own then s else if ltb_ℤ (pos 86400) (wrap64 (now -ℤ echo.timestamp)) then s else record {
      buf = push echo s.buf;
      events = record echo { kind = join "echo_" echo.kind } ∷ s.events;
    }

-- The messages of the topic, in order.
abbrev pub handle_all : ℤ → List (Bool × Option EchoMsg) → EchoState → EchoState
handle_all now [] s = s
handle_all now ((own, m) ∷ ms) s = handle_all now ms (handle_echo_sub now own m s)
