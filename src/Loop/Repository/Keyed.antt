-- ===== src/Loop/Repository/Keyed.antt =====
-- Maps of loops in which each key is the identifier of its loop, once.
use pipee.Base.{
  ◌≡◌, refl, subst, inl, inr, Bool, false, none, some, List, [], ◌∷◌, String, str_eq, eq_iff, arith,
  any, Bool-cases,
}
use pipee.Base.Dict
use pipee.Base.Dict.{Dict}
use pipee.Loop.Model.{Loop, loop_id}
use pipee.Loop.Repository.State.{load_from, merge_from}

-- No key of the map occurs again behind its entry, and a loop stands under its own identifier.
abbrev pub IsKeyed : Dict Loop → Type 0
IsKeyed [] = Unit {0}
IsKeyed ((k, l) ∷ m) = (k ≡ loop_id l) × (Dict.get k m ≡ none) × IsKeyed m

get-none-set :
    (k j : String) (l : Loop) (m : Dict Loop)
    → Dict.get k m ≡ none
    → (j ≡ k → ⊥)
    → Dict.get k (Dict.set j l m) ≡ none
get-none-set k j l m h d = ground (arith, Dict.get-set j k l m, eq_iff j k)

pub set-IsKeyed : (l : Loop) (m : Dict Loop) → IsKeyed m → IsKeyed (Dict.set (loop_id l) l m)
unfolding Dict.set Dict.get
set-IsKeyed l [] h = (refl, refl, tt)
set-IsKeyed l ((k, x) ∷ m) (a, b, c) = elim (Bool-cases (str_eq k (loop_id l))) [
  | inl hit ↦ rw hit ((eq_iff _ _).0 hit, b, c)
  | inr miss ↦ rw miss (
    a,
    get-none-set k (loop_id l) l m b (λ same. ground (arith, eq_iff k (loop_id l))),
    set-IsKeyed l m c,
  )
]

pub delete-IsKeyed : (k : String) (m : Dict Loop) → IsKeyed m → IsKeyed (Dict.delete k m)
unfolding Dict.delete
delete-IsKeyed k [] h = tt
delete-IsKeyed k ((j, x) ∷ m) (a, b, c) = elim (Bool-cases (str_eq j k)) [
  | inl hit ↦ rw hit (delete-IsKeyed k m c)
  | inr miss ↦ rw miss (a, ground (arith, Dict.get-delete k j m, b), delete-IsKeyed k m c)
]

pub get-id :
    (k : String) (l : Loop) (m : Dict Loop) → IsKeyed m → Dict.get k m ≡ some l → loop_id l ≡ k
unfolding Dict.get
get-id k l [] h e = cc
get-id k l ((j, x) ∷ m) (a, b, c) e = elim (Bool-cases (str_eq j k)) [
  | inl hit ↦ ground (arith, eq_iff j k)
  | inr miss ↦ get-id k l m c (rw miss at e)
]

pub load_from-IsKeyed : (m : Dict Loop) (ls : List Loop) → IsKeyed m → IsKeyed (load_from m ls)
unfolding load_from
load_from-IsKeyed m [] h = h
load_from-IsKeyed m (l ∷ ls) h = load_from-IsKeyed (Dict.set (loop_id l) l m) ls (set-IsKeyed l m h)

pub merge_from-IsKeyed :
    (m : Dict Loop) (ls : List Loop) (out : Dict Loop)
    → IsKeyed m
    → merge_from m ls ≡ some out
    → IsKeyed out
unfolding merge_from
merge_from-IsKeyed m [] out h e = let same : m ≡ out = ground arith in subst IsKeyed same h
merge_from-IsKeyed m (l ∷ ls) out h e =
    merge_from-IsKeyed (Dict.set (loop_id l) l m) ls out (set-IsKeyed l m h) (ground arith)

module _ (p : Loop → Bool) where
  pub any-set :
      (k : String) (l : Loop) (m : Dict Loop)
      → any p (Dict.values m) ≡ false
      → p l ≡ false
      → any p (Dict.values (Dict.set k l m)) ≡ false
  unfolding Dict.set
  any-set k l [] h e = ground arith
  any-set k l ((j, x) ∷ m) h e = ground (arith, any-set k l m)

  pub any-delete :
      (k : String) (m : Dict Loop)
      → any p (Dict.values m) ≡ false
      → any p (Dict.values (Dict.delete k m)) ≡ false
  unfolding Dict.delete
  any-delete k [] h = refl
  any-delete k ((j, x) ∷ m) h = ground (arith, any-delete k m)

  pub any-get :
      (k : String) (l : Loop) (m : Dict Loop)
      → any p (Dict.values m) ≡ false
      → Dict.get k m ≡ some l
      → p l ≡ false
  unfolding Dict.get
  any-get k l [] h e = cc
  any-get k l ((j, x) ∷ m) h e = elim (Bool-cases (str_eq j k)) [
    | inl hit ↦ ground arith
    | inr miss ↦ any-get k l m (ground arith) (rw miss at e)
  ]
