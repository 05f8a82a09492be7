-- ===== src/Broker/Copies.antt =====
-- How often a command is held, waits or was handed out.
use pipee.Base.{
  ℕ, ◌+◌, ◌≤◌, ◌≡◌, refl, Bool, true, false, Option, none, some, List, [], ◌∷◌, ◌++◌, String,
  str_eq, arith, if◌then◌else◌,
}
use pipee.Base.Dict
use pipee.Broker.Mailbox.{WireCommand, Pending, pending_queued}
use pipee.Broker.Steps.{Trace, mem, extract}

abbrev pub occurs : String → List String → ℕ
occurs i [] = 0
occurs i (j ∷ js) = (if str_eq j i then 1 else 0) + occurs i js

abbrev pub waits : String → List WireCommand → ℕ
waits i [] = 0
waits i (c ∷ cs) = (if str_eq c.id i then 1 else 0) + waits i cs

pub waits-append :
    (i : String) (cs ds : List WireCommand) → waits i (cs ++ ds) ≡ waits i cs + waits i ds
waits-append i [] ds = omega arith
waits-append i (c ∷ cs) ds = omega (arith, waits-append i cs ds)

abbrev pub found_waits : String → Option WireCommand → ℕ
found_waits i none = 0
found_waits i (some c) = if str_eq c.id i then 1 else 0

pub extract-waits :
    (i id : String) (cs : List WireCommand)
    → waits i cs ≡ found_waits i (extract id cs).0 + waits i (extract id cs).1
unfolding extract
extract-waits i id [] = refl
extract-waits i id (c ∷ cs) = ground (arith, extract-waits i id cs)

abbrev pub known : Option Pending → Bool
known none = false
known (some p) = true

-- What holds of the commands under one identifier.
pub record Counts (i : String) (t : Trace) : Type 0 where
  pub once :
      waits i t.unoffered + waits i t.mailbox.queue + occurs i t.delivered
      ≤ (if mem i t.issued then 1 else 0)
  pub from_issue : known (Dict.get i t.mailbox.pending) ≡ true → mem i t.issued ≡ true
  pub not_yet : pending_queued (Dict.get i t.mailbox.pending) ≡ true → occurs i t.delivered ≡ 0
  pub gone : mem i t.withdrawn ≡ true → known (Dict.get i t.mailbox.pending) ≡ false
  pub gone_issued : mem i t.withdrawn ≡ true → mem i t.issued ≡ true
  pub gone_undelivered : mem i t.withdrawn ≡ true → occurs i t.delivered ≡ 0

-- The copies of a command that are held or were handed out.
abbrev pub copies : String → Trace → ℕ
copies i t = waits i t.unoffered + waits i t.mailbox.queue + occurs i t.delivered
