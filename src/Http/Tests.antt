-- ===== src/Http/Tests.antt =====
-- Requests to an application with one method.
use actorgo.Common.{
  ℕ, ◌≡◌, ◌≢◌, refl, ◌↔◌, ◌<◌, ◌^◌, ◌++◌, All, none, some, [], ◌∷◌, Text, Text_discrete, codes,
  arith,
}
use actorgo.Common.Int.{pos}
use actorgo.Common.Dict.{lookup, insert}
use actorgo.Facade.Path.{to_actor_path, is_child}
use actorgo.Facade.Result.{ok_result, raw}
use actorgo.Proto.Packet.{system_method_kick}
use actorgo.Method.Table.{
  Table, RegisteredMethod, msg_type_request, register, new_table, find, Targets, unregister_target,
}
use actorgo.Method.Table.Catalog.{IsCatalog, register-IsCatalog, new-IsCatalog}
use actorgo.Common.Decimal.{parse_uint, read_digits, within}
use actorgo.Http.Options.{HttpOptions, default_http_options, new_http_options, with_timeout}
use actorgo.Http.Route.{
  method_id_from_path, method_id_from_path_iff, route_prefix, number, IsDigit, trim_prefix,
  has_slash,
}
use actorgo.Http.Handler.{HttpRequest, Services, Dispatched, serve_http}
use actorgo.Http.Handler.Access.{IsAdmitted, serve_http_calls_iff, call_of}
use actorgo.Http.Handler.Outcomes.{Succeeds, serve_http-Succeeds_iff}
use actorgo.Http.Handler.Table.{over_table, serve_http-unregister_target}

map_path : method_id_from_path (codes "/actor/40") ≡ some 40
unfolding method_id_from_path trim_prefix has_slash parse_uint read_digits within Text_discrete
map_path = refl

method_id_from_path_iff_example : (method_id_from_path (codes "/actor/40") ≡ some 40) ↔ (
    (value : Text) × (codes "/actor/40" ≡ route_prefix ++ value)
    × (value ≢ [])
    × All IsDigit value
    × (number 0 value ≡ 40)
    × (system_method_kick < 40)
    × (40 < 2 ^ 32))
method_id_from_path_iff_example = method_id_from_path_iff (codes "/actor/40") 40

abbrev tuned : HttpOptions HttpRequest
tuned = new_http_options (some (with_timeout (pos 10) (pos 0)) ∷ []) default_http_options

abbrev services : Services ℕ
services = record {
  msg_type = λ id. none;
  dispatch = λ ctx id body msg_type. none;
  marshal = λ codec v. none;
  marshal_error = λ codec e. some (e.message);
  parse_media_type = λ t. some t;
  format_id = λ n. [];
}

abbrev targets : Targets ℕ
targets = record {
  default_codec = pos 1;
  invoke_target = λ ctx target id body. some (ok_result (raw body));
  notify_target = λ ctx target id body. none;
}

abbrev table : Table
table = (register new_table 40 (codes "game.map") msg_type_request).0

abbrev online : Services ℕ
online = over_table targets table services

abbrev request : HttpRequest
request = record {
  method = codes "POST";
  path = codes "/actor/40";
  header = λ name. codes "application/json";
  body = some (7 ∷ []);
}

abbrev request_call : Dispatched
request_call = call_of default_http_options request 9 40 msg_type_request (pos 1) none (7 ∷ [])

serve_http_calls_iff_example :
    ((serve_http online default_http_options 9 request).call ≡ some request_call)
    ↔ IsAdmitted online default_http_options 9 request request_call
serve_http_calls_iff_example =
    serve_http_calls_iff online default_http_options 9 request request_call

serve_http-Succeeds_iff_example :
    ((serve_http online default_http_options 9 request).response.status < 400) ↔ (
      (c : Dispatched) × ((serve_http online default_http_options 9 request).call ≡ some c)
      × Succeeds online c)
serve_http-Succeeds_iff_example = serve_http-Succeeds_iff online default_http_options 9 request

abbrev map_entry : RegisteredMethod
map_entry = record { msg_type = msg_type_request; target = codes "game.map" }

map_found : find table 40 ≡ some map_entry
unfolding find register new_table lookup insert to_actor_path is_child Text_discrete
map_found = ground arith

table-IsCatalog : IsCatalog table
table-IsCatalog = register-IsCatalog new_table 40 (codes "game.map") msg_type_request new-IsCatalog

serve_http-unregister_target_example :
    let s =
      serve_http
        (over_table targets (unregister_target table (codes "game.map")) services)
        default_http_options
        9
        request in
    (s.response.status ≡ 404) × (s.call ≡ none)
serve_http-unregister_target_example =
    serve_http-unregister_target targets table services default_http_options 9 request 40 map_entry
      table-IsCatalog (λ e. cc) map_found map_path refl
