-- ===== src/Application.antt =====
-- Application of application.go: its components and its life, from Startup to the end of the
-- shutdown. A component is its name, a number, and which of its calls panic; what the calls do is
-- seen as the list of the calls made, in order. The log is left out, and so is the wait for the
-- signal or Shutdown, which Startup always comes back from here.
pub mod Names
pub mod Life
pub mod Numbers
pub mod Mirror
mod Tests
use actorgo.Common.{
  ℕ, Bool, true, false, not, Option, none, some, List, [], ◌∷◌, ◌++◌, Text, Text_discrete,
  if◌then◌else◌, holds, is_some,
}

pub record Component : Type 0 where
  pub id : ℕ
  pub name : Text
  pub set_panics : Bool
  pub init_panics : Bool
  pub after_init_panics : Bool

pub record Application : Type 0 where
  pub running : Bool
  pub components : List Component
  pub on_shutdown : List ℕ

unfoldable pub find_in : Text → List Component → Option Component
find_in name [] = none
find_in name (c ∷ cs) =
    let rest = find_in name cs in if holds (Text_discrete c.name name) then some c else rest

-- Find
unfoldable pub find_component : Application → Text → Option Component
unfolding find_in
find_component a name = if holds (Text_discrete name []) then none else find_in name a.components

-- The loop of Register: it returns at the first component that is nil, has no name, or whose name is
-- taken, with those before it registered.
register_loop : List (Option Component) → Application → Application
unfolding find_component
register_loop [] a = a
register_loop (none ∷ cs) a = a
register_loop (some c ∷ cs) a =
    let rest = register_loop cs (record a { components = a.components ++ c ∷ [] }) in
    if holds (Text_discrete c.name [])
    then a
    else (if is_some (find_component a c.name) then a else rest)

unfoldable pub register_components : Application → List (Option Component) → Application
unfolding register_loop
register_components a cs = if a.running then a else register_loop cs a

-- The loop of Remove: what is left, and the last component that was taken out.
unfoldable pub remove_named :
    Text → List Component → Option Component → List Component × Option Component
remove_named name [] removed = ([], removed)
remove_named name (c ∷ cs) removed =
    let (kept, last) = remove_named name cs removed in
    let (kept', last') = remove_named name cs (some c) in
    if holds (Text_discrete c.name name) then (kept', last') else (c ∷ kept, last)

unfoldable pub remove_component : Application → Text → Application × Option Component
unfolding remove_named
remove_component a name =
    if holds (Text_discrete name [])
    then (a, none)
    else (let (kept, removed) = remove_named name a.components none in
        (record a { components = kept }, removed))

unfoldable pub on_shutdown_add : Application → List ℕ → Application
on_shutdown_add a fns = record a { on_shutdown = a.on_shutdown ++ fns }

-- A call that Startup makes: on the component of this number, or of a shutdown function.
pub data Call : Type 0 where
  set_app init after_init before_stop stop : ℕ → Call
  shutdown_fn : ℕ → Call

-- A loop over the components that ends at the first panic: the calls, and whether it panicked.
pub calls_until : (Component → Call) → (Component → Bool) → List Component → List Call × Bool
calls_until call panics [] = ([], false)
calls_until call panics (c ∷ cs) =
    let (rest, failed) = calls_until call panics cs in
    if panics c then (call c ∷ [], true) else (call c ∷ rest, failed)

-- The three loops before the application runs.
pub starting : List Component → List Call × Bool
unfolding calls_until
starting cs =
    let (sets, set_failed) = calls_until (λ c. set_app c.id) (λ c. c.set_panics) cs in
    let (inits, init_failed) = calls_until (λ c. init c.id) (λ c. c.init_panics) cs in
    let (afters, after_failed) = calls_until (λ c. after_init c.id) (λ c. c.after_init_panics) cs in
    if set_failed
    then (sets, true)
    else (if init_failed then (sets ++ inits, true) else (sets ++ (inits ++ afters), after_failed))

-- A loop over the components in reverse order, whose panics are caught one by one.
unfoldable pub calls_reversed : (Component → Call) → List Component → List Call
calls_reversed call [] = []
calls_reversed call (c ∷ cs) = calls_reversed call cs ++ call c ∷ []

unfoldable pub shutdown_calls : List ℕ → List Call
shutdown_calls [] = []
shutdown_calls (f ∷ fs) = shutdown_fn f ∷ shutdown_calls fs

-- The actor system comes first, unless a component of its name is registered.
unfoldable pub with_system : Component → Application → Application
unfolding find_component
with_system system a =
    if is_some (find_component a system.name)
    then a
    else record a { components = system ∷ a.components }

pub run_and_stop : Application → List Call × Bool → Application × List Call
unfolding calls_reversed shutdown_calls
run_and_stop a (calls, true) = (a, calls)
run_and_stop a (calls, false) = (
  record a { running = false },
  calls
      ++ (shutdown_calls a.on_shutdown
          ++ (calls_reversed (λ c. before_stop c.id) a.components
              ++ calls_reversed (λ c. stop c.id) a.components)),
)

-- Startup: a panic before the application runs ends it at once.
unfoldable pub startup : Component → Application → Application × List Call
unfolding run_and_stop starting with_system
startup system a =
    let b = with_system system a in
    if a.running then (a, []) else run_and_stop b (starting b.components)
