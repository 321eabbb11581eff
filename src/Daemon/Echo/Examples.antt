-- ===== src/Daemon/Echo/Examples.antt =====
-- A buffer of three echoes.
use claw_net.Base.{◌≡◌, refl, arith, some, List, [], ◌∷◌, String}
use claw_net.Base.Int.{pos}
use claw_net.Daemon.Echo.{EchoMsg, push, recent, read_from, new_echo_buf}
use claw_net.Daemon.Echo.Ring.{push_all}
use claw_net.Daemon.Echo.Recent.{recent-push_all}

abbrev echo : String → EchoMsg
echo target = record {
  kind = "task_claimed";
  actor = "12D3KooWAlice";
  actor_name = "alice";
  subject = target;
  timestamp = pos 1700000000;
  message = "claimed a task";
}

abbrev echoes : List EchoMsg
echoes = echo "t1" ∷ echo "t2" ∷ echo "t3" ∷ echo "t4" ∷ echo "t5" ∷ []

recent-push_all_example :
    recent 2 (push_all echoes (new_echo_buf 3)) ≡ some (echo "t4" ∷ echo "t5" ∷ [])
recent-push_all_example = recent-push_all 3 2 echoes (omega arith)

recent_of_five :
    recent 9 (push_all echoes (new_echo_buf 3)) ≡ some (echo "t3" ∷ echo "t4" ∷ echo "t5" ∷ [])
unfolding recent read_from push
recent_of_five = refl

recent_while_filling :
    recent 2 (push_all echoes (new_echo_buf 9)) ≡ some (echo "t4" ∷ echo "t5" ∷ [])
unfolding recent read_from push
recent_while_filling = refl
