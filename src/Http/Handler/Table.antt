-- ===== src/Http/Handler/Table.antt =====
-- The handler over the method table of net/method.
use actorgo.Common.{ℕ, ◌≡◌, ◌≢◌, none, some, [], codes, arith}
use actorgo.Method.Table.{
  Table, RegisteredMethod, Targets, dispatch, msg_type_of, find, unregister_target,
}
use actorgo.Method.Table.Catalog.{IsCatalog, find-unregister_target}
use actorgo.Http.Options.{HttpOptions}
use actorgo.Http.Route.{method_id_from_path}
use actorgo.Http.Handler.{
  HttpRequest, Services, serve_http, serve_route, serve_method, refuse, write_error, plain_error,
}

-- The services of an application with this table and this actor system, for contexts that do not end
-- before the call.
unfoldable pub over_table : {V : Type 0} → Targets V → Table → Services V → Services V
unfolding dispatch msg_type_of
over_table system t sv = record sv {
  msg_type = msg_type_of t;
  dispatch = λ ctx id body msg_type.
      dispatch system t (some (record { codec = ctx.codec; failure = none })) id body msg_type;
}

-- Of a catalog, once the methods of a target that is not empty are unregistered, a POST to any of
-- them is answered with 404, and calls nothing.
pub serve_http-unregister_target :
    {V : Type 0} (system : Targets V) (t : Table) (sv : Services V) (o : HttpOptions HttpRequest)
    (request_id : ℕ) (request : HttpRequest) (id : ℕ) (e : RegisteredMethod)
    → IsCatalog t
    → e.target ≢ []
    → find t id ≡ some e
    → method_id_from_path request.path ≡ some id
    → request.method ≡ codes "POST"
    → let s =
        serve_http (over_table system (unregister_target t e.target) sv) o request_id request in
      (s.response.status ≡ 404) × (s.call ≡ none)
unfolding serve_http serve_route serve_method refuse write_error plain_error over_table msg_type_of
serve_http-unregister_target system t sv o request_id request id e v ne there route post =
    let gone : find (unregister_target t e.target) id ≡ none =
      ground (arith, find-unregister_target t e.target id v ne, there) in
    (ground (arith, gone, route, post), ground (arith, gone, route, post))
