-- ===== src/Method/Table.antt =====
-- Table of net/method/table.go: which actor serves which method. A method keeps its entry in an
-- association list, and the lock makes each operation one step. The table and its application are
-- there: what a nil table answers is not modelled. `MsgType` is the open enum of
-- net/proto/cluster_message.proto, a number. The actor system that a dispatch calls is a parameter.
pub mod Catalog
pub mod Routing
use actorgo.Common.{
  ℕ, ◌&&◌, ◌||◌, not, Bool, Option, none, some, List, [], ◌∷◌, Text, Text_discrete, Bytes, holds,
  leb, if◌then◌else◌, codes, ℕ_discrete,
}
use actorgo.Common.Int.{ℤ, pos, eq_ℤ}
use actorgo.Common.Dict.{lookup, insert}
use actorgo.Facade.Path.{ActorPath, is_child, to_actor_path}
use actorgo.Facade.Result.{
  InvokeResult, error_result, status_not_found, status_failed_precondition,
  status_deadline_exceeded, status_cancelled,
}
use actorgo.Proto.Packet.{system_method_kick}

abbrev pub msg_type_request : ℤ
msg_type_request = pos 0

abbrev pub msg_type_notify : ℤ
msg_type_notify = pos 2

pub record RegisteredMethod : Type 0 where
  pub msg_type : ℤ
  pub target : Text

abbrev pub Table : Type 0
Table = List (ℕ × RegisteredMethod)

pub data RegisterError : Type 0 where
  reserved_method bad_target bad_type already_registered : RegisterError

unfoldable pub new_table : Table
new_table = []

abbrev pub same_text : Text → Text → Bool
same_text a b = holds (Text_discrete a b)

register_new : Table → ℕ → Text → ℤ → Option RegisteredMethod → Table × Option RegisterError
register_new t method target msg_type (some current) = (t, some already_registered)
register_new t method target msg_type none =
    (insert ℕ_discrete method (record { msg_type = msg_type; target = target }) t, none)

register_at : Table → ℕ → Text → ℤ → Option ActorPath → Table × Option RegisterError
unfolding register_new
register_at t method target msg_type none = (t, some bad_target)
register_at t method target msg_type (some path) =
    if is_child path
    then (t, some bad_target)
    else (if not (eq_ℤ msg_type msg_type_request) && not (eq_ℤ msg_type msg_type_notify)
        then (t, some bad_type)
        else register_new t method target msg_type (lookup ℕ_discrete method t))

unfoldable pub register : Table → ℕ → Text → ℤ → Table × Option RegisterError
unfolding register_at
register t method target msg_type =
    if leb method system_method_kick
    then (t, some reserved_method)
    else register_at t method target msg_type (to_actor_path target)

-- The range over the map that deletes the entries of one target.
unfoldable pub without_target : Text → Table → Table
without_target target [] = []
without_target target ((method, entry) ∷ t) =
    if same_text entry.target target
    then without_target target t
    else (method, entry) ∷ without_target target t

unfoldable pub unregister_target : Table → Text → Table
unfolding without_target
unregister_target t target = if same_text target [] then t else without_target target t

unfoldable pub find : Table → ℕ → Option RegisteredMethod
find t method = lookup ℕ_discrete method t

unfoldable pub msg_type_of : Table → ℕ → Option ℤ
unfolding find
msg_type_of t method = elim (find t method) [ none ↦ none | some e ↦ some e.msg_type ]

unfoldable pub target_of : Table → ℕ → Option Text
unfolding find
target_of t method = elim (find t method) [ none ↦ none | some e ↦ some e.target ]

-- What Dispatch reads of a context: its codec and the error of its Go context, if it has one.
pub data ContextError : Type 0 where
  deadline_exceeded cancelled : ContextError

pub record CallContext : Type 0 where
  pub codec : ℤ
  pub failure : Option ContextError

-- cfacade.NewRequestContext(context.Background())
abbrev pub background : CallContext
background = record { codec = pos 0; failure = none }

abbrev pub or_background : Option CallContext → CallContext
or_background none = background
or_background (some ctx) = ctx

pub record Targets (V : Type 0) : Type 0 where
  pub default_codec : ℤ
  pub invoke_target : CallContext → Text → ℕ → Bytes → Option (InvokeResult V)
  pub notify_target : CallContext → Text → ℕ → Bytes → Option (InvokeResult V)

abbrev pub with_codec : {V : Type 0} → Targets V → CallContext → CallContext
with_codec system ctx =
    if eq_ℤ ctx.codec (pos 0) then record ctx { codec = system.default_codec } else ctx

module _ {V : Type 0} (system : Targets V) where
  call_target : Text → CallContext → ℕ → Bytes → ℤ → Option ContextError → Option (InvokeResult V)
  call_target target ctx method body msg_type (some deadline_exceeded) =
      some (error_result status_deadline_exceeded (codes "request deadline exceeded"))
  call_target target ctx method body msg_type (some cancelled) =
      some (error_result status_cancelled (codes "request cancelled"))
  call_target target ctx method body msg_type none =
      if eq_ℤ msg_type msg_type_notify
      then system.notify_target ctx target method body
      else system.invoke_target ctx target method body

  dispatch_entry :
      Option CallContext → ℕ → Bytes → ℤ → Option RegisteredMethod → Option (InvokeResult V)
  unfolding call_target
  dispatch_entry ctx method body msg_type none =
      some (error_result status_not_found (codes "method not found"))
  dispatch_entry ctx method body msg_type (some entry) =
      if not (eq_ℤ entry.msg_type msg_type)
      then some (
          error_result status_failed_precondition
            (codes "method message type does not match request message type"))
      else (let c = with_codec system (or_background ctx) in
          call_target entry.target c method body msg_type c.failure)

  unfoldable pub dispatch : Table → Option CallContext → ℕ → Bytes → ℤ → Option (InvokeResult V)
  unfolding dispatch_entry find
  dispatch t ctx method body msg_type = dispatch_entry ctx method body msg_type (find t method)
