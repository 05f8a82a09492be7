-- ===== src/Base/Dict.antt =====
-- The JavaScript `Map` with string keys, in insertion order: `set` writes in place or appends.
use Prim.Native.Nat.{ℕ, ◌+◌, ◌≤◌}
use Prim.Native.String.{String}
use mathlib.Core.Path.{◌≡◌, refl}
use mathlib.Core.Bool.{Bool, true, false}
use mathlib.Core.List.{List, [], ◌∷◌, map}
use mathlib.Core.Option.{Option, none, some}
use native.Mathlib.Omega.{arith}
use text.Mathlib.Text.{◌==◌ as str_eq}
use text.Mathlib.TextEquality.{eq_iff}
use package.pipee.Base.Tests.{if◌then◌else◌}
use package.pipee.Base.Lists.{length}

abbrev pub Dict {ℓ} : Type ℓ → Type ℓ
Dict V = List (String × V)

module _ {ℓ} {V : Type ℓ} where
  unfoldable pub get : String → Dict V → Option V
  get k [] = none
  get k ((j, v) ∷ m) = if str_eq j k then some v else get k m

  abbrev is_some : Option V → Bool
  is_some none = false
  is_some (some v) = true

  unfoldable pub has : String → Dict V → Bool
  has k m = is_some (get k m)

  unfoldable pub set : String → V → Dict V → Dict V
  set k v [] = (k, v) ∷ []
  set k v ((j, w) ∷ m) = if str_eq j k then (j, v) ∷ m else (j, w) ∷ set k v m

  unfoldable pub delete : String → Dict V → Dict V
  delete k [] = []
  delete k ((j, w) ∷ m) = if str_eq j k then delete k m else (j, w) ∷ delete k m

  abbrev pub size : Dict V → ℕ
  size = length

  abbrev pub values : Dict V → List V
  values = map (λ e. e.1)

  pub get-set :
      (k j : String) (v : V) (m : Dict V)
      → get j (set k v m) ≡ (if str_eq k j then some v else get j m)
  unfolding get set
  get-set k j v [] = refl
  get-set k j v ((i, w) ∷ m) = ground (arith, eq_iff k j, eq_iff i k, eq_iff i j, get-set k j v m)

  pub get-delete :
      (k j : String) (m : Dict V) → get j (delete k m) ≡ (if str_eq k j then none else get j m)
  unfolding get delete
  get-delete k j [] = ground arith
  get-delete k j ((i, w) ∷ m) = ground (arith, eq_iff k j, eq_iff i k, eq_iff i j, get-delete k j m)

  pub size-set :
      (k : String) (v : V) (m : Dict V)
      → size (set k v m) ≡ (if has k m then size m else size m + 1)
  unfolding set has get
  size-set k v [] = omega arith
  size-set k v ((j, w) ∷ m) = ground (arith, size-set k v m)

  pub size-delete-le : (k : String) (m : Dict V) → size (delete k m) ≤ size m
  unfolding delete
  size-delete-le k [] = omega arith
  size-delete-le k ((j, w) ∷ m) = ground (arith, size-delete-le k m)
