-- ===== src/Actions/Tests.antt =====
-- Runs of the merge at concrete inputs.
use pipee.Base.{
  ◌≡◌, refl, true, false, none, some, [], ◌∷◌, ◌||◌, any, take, length, count_if, str_eq, ◌≤◌,
  arith,
}
use pipee.Base.Dict
use pipee.Actions.{
  ActionRef, ActionEvidence, click, fill, press, upload, action_ref_from_evidence, action_verbs_for,
  merge_from, merge_action_refs, combine,
}
use pipee.Actions.Merge.{gives, merged-offers}

abbrev search : ActionRef
search = record {
  id = "s";
  role = "searchbox";
  name = "";
  state = record { checked = none; focused = true };
  verbs = fill ∷ press ∷ [];
}

abbrev search_tree : ActionRef
search_tree = record {
  id = "s";
  role = "";
  name = "Find";
  state = record { checked = none; focused = false };
  verbs = click ∷ [];
}

merges :
    merge_action_refs (search ∷ []) (search_tree ∷ []) 5
    ≡ record {
      id = "s";
      role = "searchbox";
      name = "Find";
      state = record { checked = none; focused = true };
      verbs = click ∷ fill ∷ press ∷ [];
    }
      ∷ []
unfolding merge_action_refs merge_from combine Dict.get Dict.set
merges = refl

abbrev chooser : ActionEvidence
chooser = record {
  id = "f";
  role = "";
  name = "Photo";
  tag = some "input";
  kind = some "file";
  disabled = false;
  inert = false;
  checked = none;
  focused = false;
  editable = false;
  clickable = true;
}

uploads :
    action_ref_from_evidence (λ s. s) chooser
    ≡ some (record {
      id = "f";
      role = "input";
      name = "Photo";
      state = record { checked = none; focused = false };
      verbs = upload ∷ [];
    })
unfolding action_ref_from_evidence action_verbs_for
uploads = refl

merged-offers_example :
    (any (gives "s" click) (merge_action_refs (search ∷ []) (search_tree ∷ []) 5)
      ≡ (any (gives "s" click) (search ∷ []) || any (gives "s" click) (search_tree ∷ [])))
    × (merge_action_refs (search ∷ []) (search_tree ∷ []) 1
        ≡ take 1 (merge_action_refs (search ∷ []) (search_tree ∷ []) 5))
    × (length (merge_action_refs (search ∷ []) (search_tree ∷ []) 1) ≤ 1)
    × (count_if (λ r. str_eq r.id "s") (merge_action_refs (search ∷ []) (search_tree ∷ []) 1) ≤ 1)
merged-offers_example =
    merged-offers "s" click (search ∷ []) (search_tree ∷ []) 5 1 (omega arith) (omega arith)
