-- ===== src/Broker/InFlight.antt =====
-- Counting the commands in flight in a map of pending commands.
use pipee.Base.{
  ℕ, ◌+◌, ◌≤◌, ◌≡◌, refl, true, false, Option, none, some, [], ◌∷◌, any, String, arith,
  if◌then◌else◌, count_if,
}
use pipee.Base.Dict
use pipee.Base.Dict.{Dict}
use pipee.Broker.Mailbox.{PublicConnector, Pending, ConnectorClaim, is_busy, completable}

-- The commands in flight.
abbrev pub in_flight : Dict Pending → ℕ
in_flight d = count_if is_busy (Dict.values d)

pub in_flight-set :
    (id : String) (p : Pending) (d : Dict Pending)
    → in_flight (Dict.set id p d) ≤ in_flight d + (if is_busy p then 1 else 0)
unfolding Dict.set
in_flight-set id p [] = ground arith
in_flight-set id p ((j, q) ∷ d) = ground (arith, in_flight-set id p d)

-- A command in flight may change its phase.
pub in_flight-set_busy :
    (id : String) (p q : Pending) (d : Dict Pending)
    → Dict.get id d ≡ some q
    → is_busy q ≡ true
    → in_flight (Dict.set id p d) ≤ in_flight d
unfolding Dict.set Dict.get
in_flight-set_busy id p q [] e b = ground arith
in_flight-set_busy id p q ((j, r) ∷ d) e b = ground (arith, in_flight-set_busy id p q d)

pub in_flight-delete : (id : String) (d : Dict Pending) → in_flight (Dict.delete id d) ≤ in_flight d
unfolding Dict.delete
in_flight-delete id [] = omega arith
in_flight-delete id ((j, q) ∷ d) = ground (arith, in_flight-delete id d)

pub none_busy : (d : Dict Pending) → any is_busy (Dict.values d) ≡ false → in_flight d ≡ 0
none_busy [] e = refl
none_busy ((j, q) ∷ d) e = ground (arith, none_busy d)

pub size-set_known :
    (id : String) (p q : Pending) (d : Dict Pending)
    → Dict.get id d ≡ some q
    → Dict.size (Dict.set id p d) ≡ Dict.size d
unfolding Dict.has
size-set_known id p q d e = rw (Dict.size-set id p d, e)

pub size-set-le :
    (id : String) (p : Pending) (d : Dict Pending) → Dict.size (Dict.set id p d) ≤ Dict.size d + 1
size-set-le id p d = ground (arith, Dict.size-set id p d)

pub completable_busy :
    (connector : PublicConnector) (o : Option Pending) (pc : Pending × ConnectorClaim)
    → completable connector o ≡ some pc
    → (o ≡ some pc.0) × (is_busy pc.0 ≡ true)
completable_busy connector none pc e = ground arith
completable_busy connector (some p) pc e = ground arith
