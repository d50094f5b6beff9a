-- ===== src/Parser/Tests/Serving.antt =====
-- One connection from its handshake to its end, with a client that asks for one method.
use actorgo.Common.{
  ℕ, ◌≡◌, refl, ◌↔◌, ◌⊎◌, true, false, Option, none, some, [], ◌∷◌, ◌++◌, arith, Bytes, codes,
  ℕ_discrete,
}
use actorgo.Common.Dict.{lookup, insert}
use actorgo.Facade.Result.{InvokeResult, raw, ok_result}
use actorgo.Proto.Packet.{Packet, request, codec_protobuf}
use actorgo.Proto.Limits.{IsPositive}
use actorgo.Proto.Validate.{ok}
use actorgo.Parser.Options.{Options, IsUsable, default_options, set_options, set_options-IsUsable}
use actorgo.Parser.Connection.State.{
  Connection, Env, Phase, Task, Outbound, new_connection, close, enqueue,
}
use actorgo.Parser.Connection.Process.{
  process, process_seen, request_context, reserve, set_idle_deadline,
}
use actorgo.Parser.Connection.Serving.{receive, test_state, act_on, finish_request, touch}
use actorgo.Parser.Connection.Invariant.{IsSound, new-IsSound}
use actorgo.Parser.Connection.Steps.{
  Reach, start, next, received, looked, acted, finished, shut, Reach-IsSound,
}
use actorgo.Parser.Connection.Handshake.{
  IsHandshake, Answers, process-iff-IsHandshake, finish_request-Answers,
}

-- Codecs that take a body as it is.
abbrev test_env : Env ℕ
test_env = record {
  read_handshake = λ b. some b;
  handshake_response = λ heartbeat size id. some id;
  read_heartbeat = λ b. none;
  heartbeat_response = λ t. some [];
  read_cancel = λ b. none;
  kick_notify = λ reason text again. some [];
  go_away_notify = λ reason retry. some [];
  default_codec = codec_protobuf;
  encode_body = λ codec n. some (n ∷ []);
}

abbrev options : Options
options = default_options

options-IsUsable : IsUsable options
unfolding set_options
options-IsUsable = set_options-IsUsable []

abbrev fresh : Connection
fresh = new_connection (codes "c1") (codes "ip") options

abbrev call_packet : ℕ → ℕ → Bytes → Packet
call_packet id method body = record {
  kind = some (
      request
        (some (record { request_id = id; method_id = method; timeout_ms = 500; body = body })));
  metadata = [];
  codec = codec_protobuf;
}

abbrev hello : Packet
hello = call_packet 1 1 (1 ∷ [])

-- A whole round of Run: the packet is read, the state tested, and the packet processed.
abbrev round_of : Connection → Packet → Connection
round_of c p = let d = test_state (receive c (some (ok p))) p in act_on test_env d p d.state

abbrev greeted : Connection
greeted = round_of fresh hello

abbrev call_2 : Packet
call_2 = call_packet 2 40 (5 ∷ [])

abbrev serving : Connection
serving = round_of greeted call_2

abbrev call : Task
call = record {
  call = record { request_id = 2; method_id = 40; timeout_ms = 500; body = 5 ∷ [] };
  packet_codec = codec_protobuf;
  context = request_context greeted (call_packet 2 40 (5 ∷ [])) 2 500;
}

abbrev result : Option (InvokeResult ℕ)
result = some (ok_result (raw (6 ∷ [])))

abbrev answered : Connection
answered = finish_request test_env serving call [] result

abbrev ended : Connection
ended = close answered

serving_runs : serving.running ≡ [] ++ call ∷ []
unfolding receive test_state act_on process_seen touch enqueue set_idle_deadline new_connection
    reserve default_options insert lookup ℕ_discrete request_context
serving_runs = refl

-- The first packet is done with, and Run has seen Ready for the second.
abbrev seen : Connection
seen = test_state (receive greeted (some (ok call_2))) call_2

seen_run : Reach test_env fresh seen
unfolding receive test_state act_on process_seen touch enqueue set_idle_deadline new_connection
    default_options
seen_run =
    next
      (next
        (next
          (next (next start (received fresh (some (ok hello)) refl))
            (looked (receive fresh (some (ok hello))) hello refl))
          (acted (test_state (receive fresh (some (ok hello))) hello) hello Phase.handshaking refl))
        (received greeted (some (ok call_2)) refl))
      (looked (receive greeted (some (ok call_2))) call_2 refl)

rounds : Reach test_env fresh serving
unfolding receive test_state act_on process_seen touch enqueue set_idle_deadline new_connection
    default_options
rounds = next seen_run (acted seen call_2 Phase.ready refl)

run : Reach test_env fresh ended
run =
    next (next rounds (finished serving answered [] call [] result serving_runs refl))
      (shut answered)

fresh-IsSound : IsSound fresh
fresh-IsSound = new-IsSound (codes "c1") (codes "ip") options options-IsUsable

Reach-IsSound_example : IsSound ended
Reach-IsSound_example = Reach-IsSound test_env run fresh-IsSound

serving_open : serving.is_done ≡ false
unfolding receive test_state act_on process_seen touch enqueue set_idle_deadline new_connection
    reserve default_options insert lookup ℕ_discrete
serving_open = refl

-- Run has seen Ready when the connection is closed, and takes the request still.
abbrev late : Connection
late = close seen

late_serves : (act_on test_env late call_2 Phase.ready).running ≡ call ∷ []
unfolding close receive test_state act_on process_seen touch enqueue set_idle_deadline
    new_connection reserve default_options insert lookup ℕ_discrete request_context
late_serves = refl

fresh_handshaking : fresh.state ≡ Phase.handshaking
unfolding new_connection
fresh_handshaking = refl

process-iff-IsHandshake_example :
    ((process test_env fresh hello).1 ≡ true) ↔ IsHandshake test_env fresh hello
process-iff-IsHandshake_example = process-iff-IsHandshake test_env fresh hello fresh_handshaking

hello_accepted : (process test_env fresh hello).1 ≡ true
unfolding process process_seen enqueue set_idle_deadline new_connection default_options
hello_accepted = refl

hello-IsHandshake : IsHandshake test_env fresh hello
hello-IsHandshake =
    (process-iff-IsHandshake test_env fresh hello fresh_handshaking).0 hello_accepted

finish_request-Answers_example :
    ((o : Outbound) × (answered.write_queue ≡ serving.write_queue ++ (o ∷ []))
      × Answers 2 o.packet
      × (o.packet.codec ≡ codec_protobuf))
    ⊎ (answered.is_done ≡ true)
finish_request-Answers_example = finish_request-Answers test_env serving call [] result

options_timeout : IsPositive options.max_request_timeout
unfolding default_options
options_timeout = omega arith
