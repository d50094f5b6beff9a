-- ===== src/Actor/Events/Delivery.antt =====
-- Who gets an event.
use mathlib.Core.Logic.{ite}
use actorgo.Common.{
  ℕ, ◌≡◌, ◌≢◌, refl, ap, ◌∙◌, ◌⊎◌, inl, inr, ◌↔◌, ◌<◌, true, Option, none, some, List, [], ◌∷◌,
  ◌++◌, Text, Text_discrete, arith, Option-cases, length,
}
use actorgo.Common.Int.{ℤ, eq_ℤ_eq, eq_ℤ_refl}
use actorgo.Common.Dict.{
  lookup, insert, delete, Distinct, lookup-insert, lookup-delete, insert-Distinct,
}
use actorgo.Actor.Mailbox.{ActorState, init_state, worker_state, stop_state}
use actorgo.Actor.Events.{
  Listeners, EventMap, EventData, ActorEvent, or_nobody, first_id, add_actor_event, remove_one,
  remove_actor_event, is_worker, wants, pushed_to, post_event, register_event, unregister_event,
  stop_events, event_names, or_no_handlers,
}

-- What the index has for one event and one path.
abbrev pub listening : EventMap → Text → Text → Option (Option ℤ)
listening m name path = lookup Text_discrete path (or_nobody (lookup Text_discrete name m))

-- Each path listens to an event at most once.
abbrev pub IsIndex : EventMap → Type 0
IsIndex m = (name : Text) → Distinct Text_discrete (or_nobody (lookup Text_discrete name m))

abbrev pub HasPath : Text → List Text → Type 0
HasPath p [] = ⊥
HasPath p (x ∷ xs) = (x ≡ p) ⊎ HasPath p xs

-- Registering keeps each path at most once.
pub add_actor_event-IsIndex :
    (m : EventMap) (path name : Text) (ids : List ℤ)
    → IsIndex m
    → IsIndex (add_actor_event m path name ids)
unfolding add_actor_event
add_actor_event-IsIndex m path name ids v n = ground (
  arith,
  v n,
  insert-Distinct Text_discrete path (first_id ids) (or_nobody (lookup Text_discrete name m))
      (v name),
  lookup-insert Text_discrete n name
      (insert Text_discrete path (first_id ids) (or_nobody (lookup Text_discrete name m))) m,
)

is_worker_eq : (st : Option ActorState) → is_worker st ≡ true → st ≡ some worker_state
is_worker_eq none h = absurd (cc)
is_worker_eq (some init_state) h = absurd (cc)
is_worker_eq (some worker_state) h = refl
is_worker_eq (some stop_state) h = absurd (cc)

module _ (state_of : Text → Option ActorState) where
  pushed_to-HasPath :
      (l : Listeners) (e : EventData) (path : Text)
      → HasPath path (pushed_to state_of l e)
      → lookup Text_discrete path l ≢ none
  unfolding pushed_to lookup
  pushed_to-HasPath [] e path h = absurd h
  pushed_to-HasPath ((p, id) ∷ l) e path h = ground (arith, pushed_to-HasPath l e path)

  pushed_to_sound :
      (l : Listeners) (e : EventData) (path : Text)
      → Distinct Text_discrete l
      → HasPath path (pushed_to state_of l e)
      → (id : Option ℤ) × (lookup Text_discrete path l ≡ some id)
        × (is_worker (state_of path) ≡ true)
        × (wants id e.unique_id ≡ true)
  unfolding pushed_to lookup
  pushed_to_sound [] e path v h = absurd h
  pushed_to_sound ((p, id) ∷ l) e path v h = elim (Text_discrete p path) [
    | yes same ↦ (
      id,
      ground arith,
      ground (arith, pushed_to-HasPath l e path, v.0),
      ground (arith, pushed_to-HasPath l e path, v.0),
    )
    | no other ↦
        let rest = pushed_to_sound l e path v.1 (ground arith) in
        (rest.0, ground (arith, rest.1), rest.2, rest.3)
  ]

  pushed_to_complete :
      (l : Listeners) (e : EventData) (path : Text) (id : Option ℤ)
      → lookup Text_discrete path l ≡ some id
      → is_worker (state_of path) ≡ true
      → wants id e.unique_id ≡ true
      → HasPath path (pushed_to state_of l e)
  unfolding pushed_to lookup
  pushed_to_complete [] e path id h w u = absurd (cc)
  pushed_to_complete ((p, i) ∷ l) e path id h w u = ground (arith, pushed_to_complete l e path id)

  -- Of an index, an event with a name reaches exactly the paths that listen to it, whose actor is at
  -- work, and which ask for no unique id or for that of the event.
  pub post_event_iff :
      (m : EventMap) (e : EventData) (path : Text)
      → IsIndex m
      → 0 < length e.name
      → HasPath path (post_event state_of m e) ↔ (
          (state_of path ≡ some worker_state)
          × ((listening m e.name path ≡ some none)
              ⊎ (listening m e.name path ≡ some (some e.unique_id))))
  unfolding post_event
  post_event_iff m e path v named = (
    λ h.
        let r =
          pushed_to_sound (or_nobody (lookup Text_discrete e.name m)) e path (v e.name)
            (ground arith) in
        (is_worker_eq (state_of path) r.2, asked r.0 r.1 r.3),
    λ w. elim w.1 [
      | inl any ↦ heard none any w.0 refl
      | inr own ↦ heard (some e.unique_id) own w.0 (eq_ℤ_refl e.unique_id)
    ],
  )
    where
      asked :
          (id : Option ℤ)
          → listening m e.name path ≡ some id
          → wants id e.unique_id ≡ true
          → (listening m e.name path ≡ some none)
            ⊎ (listening m e.name path ≡ some (some e.unique_id))
      asked none l h = inl l
      asked (some u) l h = inr (l ∙ ap (λ x. some (some x)) (eq_ℤ_eq u e.unique_id h))

      heard :
          (id : Option ℤ)
          → listening m e.name path ≡ some id
          → state_of path ≡ some worker_state
          → wants id e.unique_id ≡ true
          → HasPath path (post_event state_of m e)
      heard id l w u =
          let there =
            pushed_to_complete (or_nobody (lookup Text_discrete e.name m)) e path id l
              (ap is_worker w) u in
          ground (arith, there)

  post_event-HasPath :
      (m : EventMap) (e : EventData) (path : Text)
      → HasPath path (post_event state_of m e)
      → listening m e.name path ≢ none
  unfolding post_event
  post_event-HasPath m e path h =
      ground (arith, pushed_to-HasPath (or_nobody (lookup Text_discrete e.name m)) e path)

listening-remove_one :
    (m : EventMap) (path name n q : Text)
    → listening (remove_one m path name) n q
      ≡ ite
          (Text_discrete name n)
          (ite (Text_discrete path q) none (listening m n q))
          (listening m n q)
unfolding remove_one
listening-remove_one m path name n q = elim (Option-cases (lookup Text_discrete name m)) [
  | inl gone ↦ unfold lookup in ground arith
  | inr (l, there) ↦ ground (
    arith,
    lookup-insert Text_discrete n name (delete Text_discrete path l) m,
    lookup-delete Text_discrete q path l,
  )
]

remove_actor_event_keeps :
    (m : EventMap) (path : Text) (names : List Text) (n q : Text)
    → listening m n q ≡ none
    → listening (remove_actor_event m path names) n q ≡ none
unfolding remove_actor_event
remove_actor_event_keeps m path [] n q h = h
remove_actor_event_keeps m path (name ∷ names) n q h =
    remove_actor_event_keeps (remove_one m path name) path names n q
      (ground (arith, listening-remove_one m path name n q))

remove_actor_event_removes :
    (m : EventMap) (path : Text) (names : List Text) (n : Text)
    → (listening m n path ≢ none → HasPath n names)
    → listening (remove_actor_event m path names) n path ≡ none
unfolding remove_actor_event
remove_actor_event_removes m path [] n h = elim (Option-cases (listening m n path)) [
  | inl gone ↦ gone
  | inr (id, there) ↦ absurd (h (λ e. cc))
]
remove_actor_event_removes m path (name ∷ names) n h =
    remove_actor_event_removes (remove_one m path name) path names n
      (ground (arith, h, listening-remove_one m path name n path))

-- An actor has a handler for each event that the index has it listen to.
abbrev pub IsSubscribed : EventMap → ActorEvent → Type 0
IsSubscribed m a =
    (n : Text) → listening m n a.path ≢ none → lookup Text_discrete n a.func_map ≢ none

HasPath-event_names :
    (f : List (Text × List ℕ)) (n : Text)
    → lookup Text_discrete n f ≢ none
    → HasPath n (event_names f)
unfolding lookup
HasPath-event_names [] n h = absurd (h refl)
HasPath-event_names ((name, fs) ∷ f) n h = ground (arith, HasPath-event_names f n)

-- Registering a handler keeps an actor subscribed to no more than it handles.
pub register_event-IsSubscribed :
    (m : EventMap) (a : ActorEvent) (name : Text) (fn : ℕ) (ids : List ℤ)
    → IsSubscribed m a
    → IsSubscribed (register_event m a name fn ids).0 (register_event m a name fn ids).1
unfolding register_event
register_event-IsSubscribed m a name fn ids v n = ground (
  arith,
  v n,
  lookup-insert Text_discrete n name
      (insert Text_discrete a.path (first_id ids) (or_nobody (lookup Text_discrete name m))) m,
  lookup-insert Text_discrete n name
      (or_no_handlers (lookup Text_discrete name a.func_map) ++ (fn ∷ [])) a.func_map,
)

-- Taking back an event keeps an actor subscribed to no more than it handles.
pub unregister_event-IsSubscribed :
    (m : EventMap) (a : ActorEvent) (name : Text)
    → IsSubscribed m a
    → IsSubscribed (unregister_event m a name).0 (unregister_event m a name).1
unfolding unregister_event remove_actor_event
unregister_event-IsSubscribed m a name v n = ground (
  arith,
  v n,
  listening-remove_one m a.path name n a.path,
  lookup-delete Text_discrete n name a.func_map,
)

-- An actor that has stopped, and was subscribed to no more than it handles, gets no event any more.
pub stop_events_silent :
    (state_of : Text → Option ActorState) (m : EventMap) (a : ActorEvent) (e : EventData)
    → IsSubscribed m a
    → ¬ HasPath a.path (post_event state_of (stop_events m a).0 e)
unfolding stop_events
stop_events_silent state_of m a e v h =
    post_event-HasPath state_of (remove_actor_event m a.path (event_names a.func_map)) e a.path h (
      remove_actor_event_removes m a.path (event_names a.func_map) e.name
        (λ l. HasPath-event_names a.func_map e.name (v e.name l)))
