-- ===== src/Method/Tests.antt =====
-- The catalog with one method and a handler of two returns.
use actorgo.Common.{
  ℕ, ◌≡◌, ◌≢◌, refl, ◌⊎◌, ◌↔◌, true, false, Text, Text_discrete, ℕ_discrete, Option, none, some, [],
  ◌∷◌, codes,
}
use actorgo.Common.Int.{ℤ, pos}
use actorgo.Common.Dict.{lookup, insert}
use actorgo.Facade.Path.{to_actor_path, is_child}
use actorgo.Facade.Result.{raw, ok_result, error_result, status_not_found, is_ok}
use actorgo.Method.Table.{
  Table, RegisteredMethod, Targets, CallContext, msg_type_request, new_table, register,
  unregister_target, find, dispatch,
}
use actorgo.Method.Table.Catalog.{
  IsCatalog, IsRoutable, register_iff, new-IsCatalog, register-IsCatalog,
}
use actorgo.Method.Table.Routing.{dispatch-unregister_target}
use actorgo.Method.Invoker.{GoType, Known, HandlerValue, function, Adapted, Returned, invoke}
use actorgo.Method.Invoker.Laws.{Succeeds, invoke-is_ok}

abbrev game_map : Text
game_map = codes "game.map"

abbrev echo_targets : Targets ℕ
echo_targets = record {
  default_codec = pos 1;
  invoke_target = λ ctx target method body. some (ok_result (raw body));
  notify_target = λ ctx target method body. none;
}

abbrev live : CallContext
live = record { codec = pos 2; failure = none }

abbrev one_method : Table
one_method = (register new_table 40 game_map msg_type_request).0

register_iff_example : ((register new_table 40 game_map msg_type_request).1 ≡ none) ↔ (
    IsRoutable 40 (record { msg_type = msg_type_request; target = game_map })
    × (find new_table 40 ≡ none))
register_iff_example = register_iff new_table 40 game_map msg_type_request

one_method-IsCatalog : IsCatalog one_method
one_method-IsCatalog = register-IsCatalog new_table 40 game_map msg_type_request new-IsCatalog

registered : (register new_table 40 game_map msg_type_request).1 ≡ none
unfolding register to_actor_path is_child new_table lookup Text_discrete ℕ_discrete
registered = refl

abbrev entry : RegisteredMethod
entry = record { msg_type = msg_type_request; target = game_map }

entry_there : find one_method 40 ≡ some entry
unfolding register to_actor_path is_child new_table lookup insert find Text_discrete ℕ_discrete
entry_there = refl

dispatch-unregister_target_example :
    ((entry.target ≡ game_map)
      × (dispatch echo_targets
            (unregister_target one_method game_map)
            (some live)
            40
            []
            msg_type_request
          ≡ some (error_result status_not_found (codes "method not found"))))
    ⊎ ((entry.target ≢ game_map)
        × (dispatch echo_targets
              (unregister_target one_method game_map)
              (some live)
              40
              []
              msg_type_request
            ≡ dispatch echo_targets one_method (some live) 40 [] msg_type_request))
dispatch-unregister_target_example =
    dispatch-unregister_target echo_targets one_method game_map 40 entry (some live) []
      msg_type_request one_method-IsCatalog (λ e. cc) entry_there

abbrev context_type : GoType
context_type = record { ident = 0; is_pointer = true; is_message = false }

abbrev go_error : GoType
go_error = record { ident = 1; is_pointer = false; is_message = false }

abbrev request_type : GoType
request_type = record { ident = 2; is_pointer = true; is_message = true }

abbrev response_type : GoType
response_type = record { ident = 3; is_pointer = true; is_message = true }

abbrev known : Known
known = record { request_context_type = context_type; error_type = go_error }

abbrev handler : HandlerValue
handler = function false (context_type ∷ request_type ∷ []) (response_type ∷ go_error ∷ [])

abbrev unary_handler : Adapted
unary_handler = record {
  msg_type = msg_type_request;
  request_type = request_type;
  protobuf = true;
  unary = true;
}

-- A handler that fails with the number it is given as an InvokeError of that code.
abbrev failing : ℕ → Returned ℕ ℕ
failing n = record { response = none; error = some n }

abbrev as_code : ℕ → Option (ℤ × Text)
as_code n = some (pos n, [])

invoke-is_ok_example :
    (is_ok (
        some (
          invoke as_code unary_handler failing
            (some (record { type_of = request_type; content = 0 }))))
      ≡ true)
    ↔ Succeeds as_code true (failing 0)
invoke-is_ok_example =
    invoke-is_ok as_code unary_handler failing (record { type_of = request_type; content = 0 }) refl
