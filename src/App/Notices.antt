-- ===== src/App/Notices.antt =====
-- The notices on screen and those that wait (apps/pipee/src/lib/notices.ts). An absent `exiting`
-- is false.
pub mod Room
pub mod Ids
use pipee.Base.{
  ℕ, ◌+◌, ◌-◌, ◌≤◌, ◌≡◌, ◌⊎◌, inl, inr, refl, Bool, true, false, not, ◌&&◌, ◌||◌, Option, none,
  some, List, [], ◌∷◌, ◌++◌, map, String, str_eq, eq_refl, eq_iff, arith, if◌then◌else◌, if_cases,
  ltb, leb, ==_iff, ◌==◌, length, take, drop, any, keep, length-append, length-take, length-drop,
  take-append-drop, length-keep-le, append_assoc, subst, sym,
}

pub data NoticeType : Type 0 where
  info success warning error : NoticeType

pub data NoticeSource : Type 0 where
  app extension : NoticeSource

pub record NoticeItem : Type 0 where
  pub id : String
  pub message : String
  pub kind : NoticeType
  pub source : NoticeSource
  pub exiting : Bool

pub record NoticeState : Type 0 where
  pub visible : List NoticeItem
  pub pending : List NoticeItem

pub data NoticeAction : Type 0 where
  add : NoticeItem → NoticeAction
  dismiss remove : String → NoticeAction

abbrev pub max_visible_notices : ℕ
max_visible_notices = 4

abbrev pub mark : String → NoticeItem → NoticeItem
mark id n = if str_eq n.id id && not n.exiting then record n { exiting = true } else n

-- `markExiting`
unfoldable pub mark_exiting : List NoticeItem → String → List NoticeItem
mark_exiting [] id = []
mark_exiting (n ∷ ns) id = mark id n ∷ mark_exiting ns id

unfoldable pub oldest_notice : List NoticeItem → Option NoticeItem
oldest_notice [] = none
oldest_notice (n ∷ ns) = if not n.exiting then some n else oldest_notice ns

-- `fillVisibleNotices`; the subtraction stops at 0, as `Math.max` does.
unfoldable pub fill_visible_notices : List NoticeItem → List NoticeItem → NoticeState
fill_visible_notices visible pending =
    let open_slots = max_visible_notices - length visible in
    if (open_slots == 0) || (length pending == 0)
    then record { visible = visible; pending = pending }
    else record { visible = visible ++ take open_slots pending; pending = drop open_slots pending }

abbrev pub has_id : String → NoticeItem → Bool
has_id id n = str_eq n.id id

abbrev pub is_exiting : NoticeItem → Bool
is_exiting n = n.exiting

-- The last case of `add`: the first visible notice has to go.
abbrev pub evict : List NoticeItem → List NoticeItem
evict [] = []
evict (n ∷ ns) = mark_exiting (n ∷ ns) n.id

abbrev pub wait_for : List NoticeItem → NoticeItem → NoticeState → NoticeState
wait_for visible n s = record { visible = visible; pending = s.pending ++ n ∷ [] }

-- `add` where no visible notice is on its way out.
abbrev pub place : NoticeItem → NoticeState → NoticeState
place n s =
    if ltb (length s.visible) max_visible_notices
    then record s { visible = s.visible ++ n ∷ [] }
    else wait_for (evict s.visible) n s

-- `add` of an identifier that is new.
abbrev pub add_new : NoticeItem → NoticeState → NoticeState
add_new n s = if any is_exiting s.visible then wait_for s.visible n s else place n s

unfoldable pub notice_reducer : NoticeState → NoticeAction → NoticeState
notice_reducer s (add n) =
    if any (has_id n.id) s.visible || any (has_id n.id) s.pending then s else add_new n s
notice_reducer s (dismiss id) = record s { visible = mark_exiting s.visible id }
notice_reducer s (remove id) =
    fill_visible_notices (keep (λ n. not (has_id id n)) s.visible) s.pending

unfoldable pub reduce : NoticeState → List NoticeAction → NoticeState
reduce s [] = s
reduce s (a ∷ rest) = reduce (notice_reducer s a) rest
