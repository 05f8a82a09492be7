-- ===== src/Actions/Merge.antt =====
-- What merging the actions of two sources keeps.
use pipee.Base.{
  ℕ, ◌+◌, ◌≤◌, ◌≡◌, ◌∙◌, ap, length-append, refl, Bool, false, ◌&&◌, ◌||◌, Option, none, some, List,
  [], ◌∷◌, ◌++◌, String, str_eq, eq_iff, arith, any, take, length, length-take, count_if, All,
  if◌then◌else◌, zero, suc,
}
use pipee.Base.Dict
use pipee.Base.Dict.{Dict}
use pipee.Actions.{
  ActionVerb, click, fill, press, upload, ActionRef, has_verb, combine, merged_with, merge_from,
  merge_action_refs,
}

has-combine :
    (v : ActionVerb) (p a : ActionRef)
    → has_verb v (combine p a).verbs ≡ (has_verb v p.verbs || has_verb v a.verbs)
unfolding combine
has-combine click p a = ground arith
has-combine fill p a = ground arith
has-combine press p a = ground arith
has-combine upload p a = ground arith

-- Whether the action under an identifier has a verb.
abbrev pub offered : ActionVerb → Option ActionRef → Bool
offered v none = false
offered v (some a) = has_verb v a.verbs

abbrev pub gives : String → ActionVerb → ActionRef → Bool
gives i v a = str_eq a.id i && has_verb v a.verbs

offered-merged_with :
    (v : ActionVerb) (o : Option ActionRef) (a : ActionRef)
    → offered v (some (merged_with o a)) ≡ (offered v o || has_verb v a.verbs)
offered-merged_with v none a = refl
offered-merged_with v (some p) a = has-combine v p a

offered-set :
    (i : String) (v : ActionVerb) (a : ActionRef) (d : Dict ActionRef)
    → offered v (Dict.get i (Dict.set a.id (merged_with (Dict.get a.id d) a) d))
      ≡ (offered v (Dict.get i d) || gives i v a)
offered-set i v a d = grind (
  arith,
  Dict.get-set a.id i (merged_with (Dict.get a.id d) a) d,
  offered-merged_with v (Dict.get a.id d) a,
  eq_iff a.id i,
)

offered-merge_from :
    (i : String) (v : ActionVerb) (d : Dict ActionRef) (actions : List ActionRef)
    → offered v (Dict.get i (merge_from d actions))
      ≡ (offered v (Dict.get i d) || any (gives i v) actions)
unfolding merge_from
offered-merge_from i v d [] = ground arith
offered-merge_from i v d (a ∷ rest) = grind (
  arith,
  offered-set i v a d,
  offered-merge_from i v (Dict.set a.id (merged_with (Dict.get a.id d) a) d) rest,
)

abbrev named : String → List ActionRef → ℕ
named i rs = count_if (λ r. str_eq r.id i) rs

abbrev IsKeyed : Dict ActionRef → Type 0
IsKeyed d = All (λ e. e.0 ≡ e.1.id) d

named-absent :
    (i : String) (d : Dict ActionRef)
    → IsKeyed d
    → Dict.get i d ≡ none
    → named i (Dict.values d) ≡ 0
unfolding Dict.get
named-absent i [] k e = refl
named-absent i ((j, r) ∷ d) (same, k) e = grind (arith, same, named-absent i d k, e)

set-IsKeyed :
    (k : String) (r : ActionRef) (d : Dict ActionRef)
    → k ≡ r.id
    → IsKeyed d
    → IsKeyed (Dict.set k r d)
unfolding Dict.set
set-IsKeyed k r [] e h = (e, tt)
set-IsKeyed k r ((j, x) ∷ d) e (same, h) =
    ground (arith, same, e, eq_iff j k, set-IsKeyed k r d e h, h)

named-set :
    (i k : String) (r : ActionRef) (d : Dict ActionRef)
    → k ≡ r.id
    → IsKeyed d
    → named i (Dict.values (Dict.set k r d))
      ≡ named i (Dict.values d) + (if Dict.has k d then 0 else if str_eq k i then 1 else 0)
unfolding Dict.set Dict.has Dict.get
named-set i k r [] e h = grind (arith, e)
named-set i k r ((j, x) ∷ d) e (same, h) = grind (arith, same, e, eq_iff j k, named-set i k r d e h)

merged_with-id : (o : Option ActionRef) (a : ActionRef) → a.id ≡ (merged_with o a).id
unfolding combine
merged_with-id none a = refl
merged_with-id (some p) a = refl

named-merge_from :
    (i : String) (d : Dict ActionRef) (actions : List ActionRef)
    → IsKeyed d
    → named i (Dict.values d) ≤ 1
    → named i (Dict.values (merge_from d actions)) ≤ 1
unfolding merge_from Dict.has
named-merge_from i d [] h n = n
named-merge_from i d (a ∷ rest) h n =
    let r = merged_with (Dict.get a.id d) a in
    let e = merged_with-id (Dict.get a.id d) a in
    named-merge_from i (Dict.set a.id r d) rest (set-IsKeyed a.id r d e h)
      (grind (arith, n, named-set i a.id r d e h, named-absent i d h, eq_iff a.id i))

named-take-le : (i : String) (n : ℕ) (rs : List ActionRef) → named i (take n rs) ≤ named i rs
named-take-le i zero rs = omega arith
named-take-le i (suc n) [] = omega arith
named-take-le i (suc n) (r ∷ rs) = omega (arith, named-take-le i n rs)

module _ (i : String) (v : ActionVerb) where
  unnamed-gives : (rs : List ActionRef) → named i rs ≡ 0 → any (gives i v) rs ≡ false
  unnamed-gives [] n = refl
  unnamed-gives (r ∷ rs) n = ground (arith, n, unnamed-gives rs)

  -- Where no identifier is there twice, the lookup and the list of values agree on what is offered.
  gives-values :
      (d : Dict ActionRef)
      → IsKeyed d
      → named i (Dict.values d) ≤ 1
      → any (gives i v) (Dict.values d) ≡ offered v (Dict.get i d)
  unfolding Dict.get
  gives-values [] k n = refl
  gives-values ((j, r) ∷ d) (same, k) n =
      grind
        (arith, n, same, eq_iff j i, eq_iff r.id i, unnamed-gives (Dict.values d), gives-values d k)

  gives-append :
      (xs ys : List ActionRef)
      → any (gives i v) (xs ++ ys) ≡ (any (gives i v) xs || any (gives i v) ys)
  gives-append [] ys = refl
  gives-append (x ∷ xs) ys = ground (arith, gives-append xs ys)

merge_from-IsKeyed :
    (d : Dict ActionRef) (actions : List ActionRef) → IsKeyed d → IsKeyed (merge_from d actions)
unfolding merge_from
merge_from-IsKeyed d [] h = h
merge_from-IsKeyed d (a ∷ rest) h =
    let r = merged_with (Dict.get a.id d) a in
    merge_from-IsKeyed (Dict.set a.id r d) rest
      (set-IsKeyed a.id r d (merged_with-id (Dict.get a.id d) a) h)

size-merge_from :
    (d : Dict ActionRef) (actions : List ActionRef)
    → Dict.size (merge_from d actions) ≤ Dict.size d + length actions
unfolding merge_from
size-merge_from d [] = omega arith
size-merge_from d (a ∷ rest) =
    let r = merged_with (Dict.get a.id d) a in
    ground (arith, Dict.size-set a.id r d, size-merge_from (Dict.set a.id r d) rest)

length-values : (d : Dict ActionRef) → length (Dict.values d) ≡ Dict.size d
length-values [] = refl
length-values ((j, r) ∷ d) = omega (arith, length-values d)

take-all : (n : ℕ) (rs : List ActionRef) → length rs ≤ n → take n rs ≡ rs
take-all zero [] h = refl
take-all zero (r ∷ rs) h = absurd (omega (arith, h))
take-all (suc n) [] h = refl
take-all (suc n) (r ∷ rs) h = rw (take-all n rs (omega (arith, h))) refl

take-take : (n m : ℕ) (rs : List ActionRef) → n ≤ m → take n rs ≡ take n (take m rs)
take-take zero m rs h = refl
take-take (suc n) zero rs h = absurd (omega (arith, h))
take-take (suc n) (suc m) [] h = refl
take-take (suc n) (suc m) (r ∷ rs) h = ap (λ l. r ∷ l) (take-take n m rs (omega (arith, h)))

-- With room for all, the merge offers a verb under an identifier exactly if the one source or the
-- other does. With less room it returns the first of those actions, at most as many as its limit.
-- No identifier is returned twice.
pub merged-offers :
    (i : String) (v : ActionVerb) (dom accessibility : List ActionRef) (limit less : ℕ)
    → length dom + length accessibility ≤ limit
    → less ≤ limit
    → (any (gives i v) (merge_action_refs dom accessibility limit)
        ≡ (any (gives i v) dom || any (gives i v) accessibility))
      × (merge_action_refs dom accessibility less
          ≡ take less (merge_action_refs dom accessibility limit))
      × (length (merge_action_refs dom accessibility less) ≤ less)
      × (count_if (λ r. str_eq r.id i) (merge_action_refs dom accessibility less) ≤ 1)
unfolding merge_action_refs Dict.get
merged-offers i v dom accessibility limit less room h =
    let d = merge_from [] (dom ++ accessibility) in
    let refs = Dict.values d in
    let once = named-merge_from i [] (dom ++ accessibility) tt (omega arith) in
    let size = size-merge_from [] (dom ++ accessibility) in
    let fits : length refs ≤ limit =
      omega (arith, length-values d, size, length-append dom accessibility, room) in
    (
      ap (any (gives i v)) (take-all limit refs fits)
          ∙ gives-values i v d (merge_from-IsKeyed [] (dom ++ accessibility) tt) once
          ∙ offered-merge_from i v [] (dom ++ accessibility)
          ∙ gives-append i v dom accessibility,
      take-take less limit refs h,
      omega (arith, length-take less refs),
      omega (arith, named-take-le i less refs, once),
    )
