-- ===== src/Broker/View.antt =====
-- The broker (extensions/chrome/src/core/broker.ts) as a partial map from connectors to mailboxes.
use pipee.Base.{
  ◌≡◌, refl, Bool, true, false, Option, none, some, List, [], ◌∷◌, String, str_eq, eq_iff, arith,
  if◌then◌else◌, ap, ◌∙◌,
}
use pipee.Base.Dict
use pipee.Broker.Mailbox.{Mailbox, make_mailbox}
use pipee.Broker.Registry.{Broker, register, drop, stop, lookup, lookup-register, lookup-drop}

pub data Call : Type 0 where
  registers drops : String → Call
  stops : Call

unfoldable pub call : Call → Broker → Broker
call (registers c) b = register c b
call (drops c) b = drop c b
call stops b = stop b

unfoldable pub calls : List Call → Broker → Broker
calls [] b = b
calls (c ∷ cs) b = calls cs (call c b)

-- A partial map, until the broker is stopped.
abbrev pub View : Type 0
View = Bool × (String → Option Mailbox)

abbrev pub or_new : Option Mailbox → Option Mailbox
or_new none = some make_mailbox
or_new (some m) = some m

abbrev pub update : String → Option Mailbox → (String → Option Mailbox) → String → Option Mailbox
update c m f d = if str_eq c d then m else f d

-- What each call does to the map.
abbrev pub view_call : Call → View → View
view_call c (false, f) = (false, f)
view_call (registers c) (true, f) = (true, update c (or_new (f c)) f)
view_call (drops c) (true, f) = (true, update c none f)
view_call stops (true, f) = (false, λ d. none)

abbrev pub view_calls : List Call → View → View
view_calls [] v = v
view_calls (c ∷ cs) v = view_calls cs (view_call c v)

abbrev pub view : Broker → View
view b = (b.active, λ d. lookup d b)

lookup-call :
    (c : Call) (b : Broker) (d : String) → lookup d (call c b) ≡ (view_call c (view b)).1 d
unfolding lookup call register drop stop Dict.has
lookup-call (registers c) b d = grind (arith, lookup-register c d b, eq_iff c d)
lookup-call (drops c) b d = grind (arith, lookup-drop c d b, eq_iff c d)
lookup-call stops b d = ground arith

active-call : (c : Call) (b : Broker) → (call c b).active ≡ (view_call c (view b)).0
unfolding call register drop stop
active-call (registers c) b = ground arith
active-call (drops c) b = ground arith
active-call stops b = ground arith

view-call : (c : Call) (b : Broker) → view (call c b) ≡ view_call c (view b)
view-call c b = λ i. (active-call c b i, λ d. lookup-call c b d i)

view_eq : (cs : List Call) (b : Broker) → view (calls cs b) ≡ view_calls cs (view b)
unfolding calls
view_eq [] b = refl
view_eq (c ∷ cs) b = view_eq cs (call c b) ∙ ap (view_calls cs) (view-call c b)

-- Over any registrations, drops and stops the broker is the partial map that they make of it:
-- a registration gives a connector without a mailbox a new one and keeps one that is there, a drop
-- takes that of its connector only, and from a stop on there is none.
pub view-calls :
    (cs : List Call) (b : Broker) (d : String)
    → (lookup d (calls cs b) ≡ (view_calls cs (view b)).1 d)
      × ((calls cs b).active ≡ (view_calls cs (view b)).0)
view-calls cs b d = (ap (λ v. v.1 d) (view_eq cs b), ap (λ v. v.0) (view_eq cs b))
