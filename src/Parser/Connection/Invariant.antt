-- ===== src/Parser/Connection/Invariant.antt =====
-- What holds of a connection after any sequence of steps: handlers and slots in flight correspond,
-- within the limit, and no request is served before the handshake.
use mathlib.Core.List.{map-append}
use actorgo.Common.{
  ℕ, ◌+◌, ◌<◌, ◌≡◌, ◌≢◌, ◌∙◌, ap, subst, ◌≤◌, sym, true, false, none, List, [], ◌∷◌, ◌++◌, map,
  Text, length, All, All-append, arith, ℕ_discrete, Option-cases, Bool-cases, inl, inr, ◌⊎◌,
  length-append,
}
use actorgo.Common.Int.{pos, ◌≤ℤ◌, leb_ℤ}
use actorgo.Common.Dict.{lookup, insert, Distinct, insert_new, insert-Distinct, length-insert_new}
use actorgo.Proto.Packet.{system_method_kick}
use actorgo.Parser.Options.{Options, IsUsable}
use actorgo.Parser.Connection.State.{
  Phase, handshaking, ready, draining, closed, Round, reading, decoded, tested, leaving, ended,
  Context, Task, Outbound, Connection, new_connection, enqueue, close,
}
use actorgo.Parser.Connection.Process.{reserve}

abbrev pub slots : List Task → List (ℕ × Context)
slots = map λ t. (t.call.request_id, t.context)

abbrev pub IsBusiness : ℕ → Type 0
IsBusiness method = system_method_kick < method

-- A round that has seen Ready takes its packet after the handshake.
abbrev pub IsAfterHandshake : Round → Phase → Type 0
IsAfterHandshake (tested p ready) s = s ≢ handshaking
IsAfterHandshake (tested p handshaking) s = Unit {0}
IsAfterHandshake (tested p draining) s = Unit {0}
IsAfterHandshake (tested p closed) s = Unit {0}
IsAfterHandshake reading s = Unit {0}
IsAfterHandshake (decoded p) s = Unit {0}
IsAfterHandshake leaving s = Unit {0}
IsAfterHandshake ended s = Unit {0}

-- Where Run of a closed connection is: only a round that had seen Ready before may still take a slot,
-- and Run does not find Ready again.
abbrev pub IsLast : Round → Phase → List (ℕ × Context) → Type 0
IsLast reading s i = s ≢ ready
IsLast (decoded p) s i = s ≢ ready
IsLast (tested p ready) s i = (s ≢ ready) × (i ≡ [])
IsLast (tested p handshaking) s i = s ≢ ready
IsLast (tested p draining) s i = s ≢ ready
IsLast (tested p closed) s i = s ≢ ready
IsLast leaving s i = Unit {0}
IsLast ended s i = Unit {0}

pub record IsSound (c : Connection) : Type 0 where
  pub usable : IsUsable c.options
  pub tracked : c.is_done ≡ false → c.inflight ≡ slots c.running
  pub distinct : Distinct ℕ_discrete c.inflight
  pub bounded : pos (length c.inflight) ≤ℤ c.options.max_inflight
  pub queued : pos (length c.write_queue) ≤ℤ c.options.write_queue_size
  pub quiet : c.state ≡ handshaking → (c.running ≡ []) × (c.notified ≡ [])
  pub business : All (λ t. IsBusiness t.call.method_id) c.running
  pub business_notified : All (λ n. IsBusiness n.0.method_id) c.notified
  pub after_handshake : IsAfterHandshake c.round c.state
  pub closed_once :
      c.is_done ≡ true → (c.state ≢ handshaking) × (length c.inflight ≤ 1) × (c.disconnects ≡ 1)
  pub last_round : c.is_done ≡ true → IsLast c.round c.state c.inflight
  pub open_still : c.is_done ≡ false → (c.state ≢ closed) × (c.disconnects ≡ 0)

pub new-IsSound : (id ip : Text) (o : Options) → IsUsable o → IsSound (new_connection id ip o)
unfolding new_connection
new-IsSound id ip o u = ground arith

pub enqueue-IsSound : (c : Connection) (o : Outbound) → IsSound c → IsSound (enqueue c o).0
unfolding enqueue
enqueue-IsSound c o v = ground (arith, length-append c.write_queue (o ∷ []))

pub close-IsSound : (c : Connection) → IsSound c → IsSound (close c)
unfolding close
close-IsSound c v = ground arith

-- A slot is free, and taken, or the request is refused.
pub reserve-cases :
    (c : Connection) (id : ℕ) (ctx : Context)
    → (reserve c id ctx ≡ (c, false))
      ⊎ ((lookup ℕ_discrete id c.inflight ≡ none)
          × (pos (length c.inflight + 1) ≤ℤ c.options.max_inflight)
          × (reserve c id ctx
              ≡ (record c { inflight = insert ℕ_discrete id ctx c.inflight }, true)))
unfolding reserve
reserve-cases c id ctx = elim (Option-cases (lookup ℕ_discrete id c.inflight)) [
  | inr (x, taken) ↦ inl (ground arith)
  | inl free ↦ elim (Bool-cases (leb_ℤ c.options.max_inflight (pos (length c.inflight)))) [
    | inl full ↦ inl (ground arith)
    | inr room ↦ inr (free, ground arith, ground arith)
  ]
]

-- The connection after a slot has been taken and its handler started.
pub spawned-IsSound :
    (c : Connection) (t : Task)
    → c.state ≢ handshaking
    → c.round ≡ leaving
    → (c.is_done ≡ true → c.inflight ≡ [])
    → IsBusiness t.call.method_id
    → lookup ℕ_discrete t.call.request_id c.inflight ≡ none
    → pos (length c.inflight + 1) ≤ℤ c.options.max_inflight
    → IsSound c
    → IsSound (record c {
      inflight = insert ℕ_discrete t.call.request_id t.context c.inflight;
      running = c.running ++ (t ∷ []);
    })
spawned-IsSound c t s l e b free room v = record {
  usable = v.usable;
  tracked = λ d.
      insert_new ℕ_discrete t.call.request_id t.context c.inflight free
      ∙ rw (v.tracked d) (
          sym (
            map-append {B = ℕ × Context} (λ (u : Task). (u.call.request_id, u.context)) c.running
              (t ∷ [])));
  distinct = insert-Distinct ℕ_discrete t.call.request_id t.context c.inflight v.distinct;
  bounded = omega (arith, length-insert_new ℕ_discrete t.call.request_id t.context c.inflight free);
  queued = v.queued;
  quiet = λ h. absurd (s h);
  business =
      All-append (λ (u : Task). IsBusiness u.call.method_id) c.running (t ∷ []) v.business (b, tt);
  business_notified = v.business_notified;
  after_handshake = subst (λ r. IsAfterHandshake r c.state) (sym l) tt;
  closed_once = λ d. (
    s,
    omega (
      arith,
      length-insert_new ℕ_discrete t.call.request_id t.context c.inflight free,
      ap length (e d),
    ),
    (v.closed_once d).2,
  );
  last_round = λ d.
      subst (λ r. IsLast r c.state (insert ℕ_discrete t.call.request_id t.context c.inflight))
        (sym l) tt;
  open_still = v.open_still;
}
