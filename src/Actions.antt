-- ===== src/Actions.antt =====
-- The actions that an observation of a page offers (extensions/chrome/src/protocol/action-graph.ts).
-- A field of an action's state that is there is not undefined, and the limit is not negative.
pub mod Merge
mod Tests
use pipee.Base.{
  ℕ, Bool, true, false, not, ◌&&◌, ◌||◌, Option, none, some, List, [], ◌∷◌, ◌++◌, String, str_eq,
  any, take, if◌then◌else◌,
}
use pipee.Base.Dict
use pipee.Base.Dict.{Dict}

pub data ActionVerb : Type 0 where
  click fill press upload : ActionVerb

abbrev pub same_verb : ActionVerb → ActionVerb → Bool
same_verb click click = true
same_verb fill fill = true
same_verb press press = true
same_verb upload upload = true
same_verb v w = false

-- `ACTION_VERBS`
abbrev pub action_verbs : List ActionVerb
action_verbs = click ∷ fill ∷ press ∷ upload ∷ []

pub record ActionState : Type 0 where
  pub checked : Option Bool
  pub focused : Bool

pub record ActionRef : Type 0 where
  pub id : String
  pub role : String
  pub name : String
  pub state : ActionState
  pub verbs : List ActionVerb

-- An absent flag is false.
pub record ActionEvidence : Type 0 where
  pub id : String
  pub role : String
  pub name : String
  pub tag : Option String
  pub kind : Option String
  pub disabled : Bool
  pub inert : Bool
  pub checked : Option Bool
  pub focused : Bool
  pub editable : Bool
  pub clickable : Bool

abbrev pub is_in : String → List String → Bool
is_in s = any (str_eq s)

abbrev pub click_action_roles : List String
click_action_roles =
    "button" ∷ "checkbox" ∷ "combobox" ∷ "link" ∷ "menuitem" ∷ "menuitemcheckbox" ∷ "menuitemradio"
    ∷ "option" ∷ "radio" ∷ "switch" ∷ "tab" ∷ "treeitem" ∷ []

abbrev pub editable_roles : List String
editable_roles = "searchbox" ∷ "spinbutton" ∷ "textbox" ∷ []

abbrev pub is_text : Option String → String → Bool
is_text none s = false
is_text (some t) s = str_eq t s

abbrev pub lowered : (String → String) → Option String → Option String
lowered lower none = none
lowered lower (some s) = some (lower s)

-- `actionVerbsFor`; `lower` is `String.prototype.toLowerCase`.
unfoldable pub action_verbs_for : (String → String) → ActionEvidence → List ActionVerb
action_verbs_for lower e =
    let role = lower e.role in
    if e.disabled || e.inert
    then []
    else if is_text (lowered lower e.tag) "input" && is_text (lowered lower e.kind) "file"
    then upload ∷ []
    else if e.editable || is_in role editable_roles
    then fill ∷ press ∷ []
    else if str_eq role "combobox"
    then click ∷ press ∷ []
    else if is_in role click_action_roles || e.clickable
    then click ∷ []
    else []

-- `a || b` on texts.
abbrev pub or_text : String → String → String
or_text a b = if str_eq a "" then b else a

abbrev pub tag_text : Option String → String
tag_text none = ""
tag_text (some t) = t

abbrev pub ref_with : ActionEvidence → List ActionVerb → Option ActionRef
ref_with e [] = none
ref_with e (v ∷ vs) = some (record {
  id = e.id;
  role = or_text e.role (or_text (tag_text e.tag) "element");
  name = e.name;
  state = record { checked = e.checked; focused = e.focused };
  verbs = v ∷ vs;
})

unfoldable pub action_ref_from_evidence : (String → String) → ActionEvidence → Option ActionRef
action_ref_from_evidence lower e = ref_with e (action_verbs_for lower e)

abbrev pub has_verb : ActionVerb → List ActionVerb → Bool
has_verb v = any (same_verb v)

abbrev pub or_checked : Option Bool → Option Bool → Option Bool
or_checked none old = old
or_checked (some b) old = some b

abbrev pub keep_verbs : ActionRef → ActionRef → List ActionVerb → List ActionVerb
keep_verbs previous a [] = []
keep_verbs previous a (v ∷ vs) =
    let rest = keep_verbs previous a vs in
    if has_verb v previous.verbs || has_verb v a.verbs then v ∷ rest else rest

-- The action that stands for both.
unfoldable pub combine : ActionRef → ActionRef → ActionRef
combine previous a = record {
  id = a.id;
  role = or_text a.role previous.role;
  name = or_text a.name previous.name;
  state = record {
    checked = or_checked a.state.checked previous.state.checked;
    focused = a.state.focused || previous.state.focused;
  };
  verbs = keep_verbs previous a action_verbs;
}

abbrev pub merged_with : Option ActionRef → ActionRef → ActionRef
merged_with none a = a
merged_with (some previous) a = combine previous a

-- The loop of `mergeActionRefs`.
unfoldable pub merge_from : Dict ActionRef → List ActionRef → Dict ActionRef
merge_from by_id [] = by_id
merge_from by_id (a ∷ rest) =
    merge_from (Dict.set a.id (merged_with (Dict.get a.id by_id) a) by_id) rest

unfoldable pub merge_action_refs : List ActionRef → List ActionRef → ℕ → List ActionRef
merge_action_refs dom accessibility limit =
    take limit (Dict.values (merge_from [] (dom ++ accessibility)))
