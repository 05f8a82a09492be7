-- ===== src/App/Slot.antt =====
-- The operation slot of a session (apps/pipee/src/server/session-operation-slot.ts), which admits
-- one operation at a time. Each update of the slot is one atomic step.
use pipee.Base.{
  ◌≡◌, refl, Bool, true, false, not, ◌&&◌, List, [], ◌∷◌, String, str_eq, eq_refl, eq_iff, arith,
  if◌then◌else◌, if_cases,
}

pub data OperationKind : Type 0 where
  prompt bash compaction slash_command : OperationKind

pub data OperationSlot : Type 0 where
  idle : OperationSlot
  starting active : OperationKind → String → OperationSlot

-- Success, or the `PiOperationBusyError` with the kind that it names.
pub data Admission : Type 0 where
  granted : Admission
  busy : OperationKind → Admission

abbrev pub same_kind : OperationKind → OperationKind → Bool
same_kind prompt prompt = true
same_kind bash bash = true
same_kind compaction compaction = true
same_kind slash_command slash_command = true
same_kind a b = false

unfoldable pub owns : OperationSlot → OperationKind → String → Bool
owns idle kind id = false
owns (starting k i) kind id = same_kind k kind && str_eq i id
owns (active k i) kind id = same_kind k kind && str_eq i id

unfoldable pub begin : OperationKind → String → OperationSlot → Admission × OperationSlot
begin kind id idle = (granted, starting kind id)
begin kind id (starting k i) = (busy k, starting k i)
begin kind id (active k i) = (busy k, active k i)

unfoldable pub activate : OperationKind → String → OperationSlot → OperationSlot
activate kind id s = if owns s kind id then active kind id else s

unfoldable pub release : OperationKind → String → OperationSlot → OperationSlot
release kind id s = if owns s kind id then idle else s

-- What other fibers may do to the slot.
pub data Event : Type 0 where
  begins activates releases : OperationKind → String → Event

unfoldable pub step : Event → OperationSlot → OperationSlot
step (begins kind id) s = (begin kind id s).1
step (activates kind id) s = activate kind id s
step (releases kind id) s = release kind id s

unfoldable pub steps : List Event → OperationSlot → OperationSlot
steps [] s = s
steps (e ∷ es) s = steps es (step e s)

-- `run`, around an effect during which `during` happens to the slot. Its result is whether the
-- effect ran: `acquireUseRelease` releases only what was acquired.
unfoldable pub run : OperationKind → String → List Event → OperationSlot → Admission × OperationSlot
run kind id during s = run_begun kind id during (begin kind id s)
  where
    run_begun :
        OperationKind → String → List Event → Admission × OperationSlot → Admission × OperationSlot
    run_begun kind id during (busy k, t) = (busy k, t)
    run_begun kind id during (granted, t) =
        (granted, release kind id (steps during (activate kind id t)))

-- The event is not this operation's own release.
abbrev pub is_foreign : OperationKind → String → Event → Bool
is_foreign kind id (releases k i) = not (same_kind kind k && str_eq id i)
is_foreign kind id (begins k i) = true
is_foreign kind id (activates k i) = true

abbrev pub all_foreign : OperationKind → String → List Event → Bool
all_foreign kind id [] = true
all_foreign kind id (e ∷ es) = is_foreign kind id e && all_foreign kind id es

same_kind_refl : (k : OperationKind) → same_kind k k ≡ true
same_kind_refl prompt = refl
same_kind_refl bash = refl
same_kind_refl compaction = refl
same_kind_refl slash_command = refl

same_kind_sound : (k j : OperationKind) → same_kind k j ≡ true → k ≡ j
same_kind_sound k j h = ground arith

same_owner :
    (kind k : OperationKind) (id i : String) (s : OperationSlot)
    → owns s kind id ≡ true
    → owns s k i ≡ true
    → (same_kind k kind && str_eq i id) ≡ true
unfolding owns
same_owner kind k id i idle h g = ground (arith, h)
same_owner kind k id i (starting j l) h g = grind (
  arith,
  h,
  g,
  same_kind_sound j kind,
  same_kind_sound j k,
  same_kind_refl j,
  eq_iff l id,
  eq_iff l i,
  eq_refl id,
)
same_owner kind k id i (active j l) h g = grind (
  arith,
  h,
  g,
  same_kind_sound j kind,
  same_kind_sound j k,
  same_kind_refl j,
  eq_iff l id,
  eq_iff l i,
  eq_refl id,
)

same_sym :
    (kind k : OperationKind) (id i : String)
    → (same_kind k kind && str_eq i id) ≡ true
    → (same_kind kind k && str_eq id i) ≡ true
same_sym kind k id i h =
    grind (arith, h, same_kind_sound k kind, same_kind_refl kind, eq_iff i id, eq_refl id)

step-owns :
    (kind : OperationKind) (id : String) (e : Event) (s : OperationSlot)
    → owns s kind id ≡ true
    → is_foreign kind id e ≡ true
    → owns (step e s) kind id ≡ true
unfolding step begin activate release owns
step-owns kind id (begins k i) idle h f = ground (arith, h)
step-owns kind id (begins k i) (starting j l) h f = h
step-owns kind id (begins k i) (active j l) h f = h
step-owns kind id (activates k i) s h f =
    if_cases (λ t. owns t kind id ≡ true) (owns s k i) (active k i) s
      (λ mine. same_owner kind k id i s h mine) (λ other. h)
step-owns kind id (releases k i) s h f =
    if_cases (λ t. owns t kind id ≡ true) (owns s k i) idle s
      (λ mine. ground (arith, same_sym kind k id i (same_owner kind k id i s h mine), f))
      (λ other. h)

steps-owns :
    (kind : OperationKind) (id : String) (es : List Event) (s : OperationSlot)
    → owns s kind id ≡ true
    → all_foreign kind id es ≡ true
    → owns (steps es s) kind id ≡ true
unfolding steps
steps-owns kind id [] s h f = h
steps-owns kind id (e ∷ es) s h f =
    steps-owns kind id es (step e s) (step-owns kind id e s h (ground (arith, f)))
      (ground (arith, f))

begin_owned :
    (kind k : OperationKind) (id i : String) (s : OperationSlot)
    → owns s kind id ≡ true
    → begin k i s ≡ (busy kind, s)
unfolding begin owns
begin_owned kind k id i idle h = ground (arith, h)
begin_owned kind k id i (starting j l) h = ground (arith, h, same_kind_sound j kind)
begin_owned kind k id i (active j l) h = ground (arith, h, same_kind_sound j kind)

-- From the time an operation holds the slot until its own release, whatever else happens, every
-- attempt to begin another is refused with the holder's kind and leaves the slot as it is.
pub steps-excludes :
    (kind k : OperationKind) (id i : String) (es : List Event) (s : OperationSlot)
    → owns s kind id ≡ true
    → all_foreign kind id es ≡ true
    → begin k i (steps es s) ≡ (busy kind, steps es s)
steps-excludes kind k id i es s h f =
    begin_owned kind k id i (steps es s) (steps-owns kind id es s h f)

-- An operation that runs on an idle slot is admitted and gives the slot back idle, whatever the
-- others do meanwhile; one that finds the slot held is refused and changes nothing.
pub run_brackets :
    (kind k : OperationKind) (id i : String) (es : List Event) (s : OperationSlot)
    → all_foreign kind id es ≡ true
    → owns s k i ≡ true
    → (run kind id es idle ≡ (granted, idle)) × (run kind id es s ≡ (busy k, s))
unfolding run begin release activate owns
run_brackets kind k id i es s f h = (
  ground (arith, own, steps-owns kind id es (active kind id) own f),
  ground (arith, begin_owned k kind i id s h),
)
  where
    own : (same_kind kind kind && str_eq id id) ≡ true
    own = ground (arith, same_kind_refl kind, eq_refl id)
