-- ===== src/Base/Dict.antt =====
-- Python dictionaries with text keys as association lists: `d[k] = v`, `d.get(k)`, `d.pop(k, None)`,
-- `d.update(e)` and the comprehension that keeps the keys which pass a test.
use mathlib.Core.List.{List, [], ◌∷◌}
use mathlib.Core.Option.{Option, none, some}
use mathlib.Core.Path.{◌≡◌, refl}
use mathlib.Core.Bool.{Bool}
use native.Mathlib.Omega.{arith}
use text.Mathlib.TextEquality.{eq_iff}
use Prim.Native.String.{String}
use cyber_companion.Base.Tests.{str_eq, str_in, if◌then◌else◌}

abbrev pub Dict {ℓ} : Type ℓ → Type ℓ
Dict V = List (String × V)

abbrev pub or_else {ℓ} : {A : Type ℓ} → Option A → Option A → Option A
or_else none o = o
or_else (some a) o = some a

module _ {ℓ} {V : Type ℓ} where
  unfoldable pub get : String → Dict V → Option V
  get k [] = none
  get k ((j, v) ∷ m) = if str_eq j k then some v else get k m

  unfoldable pub put : String → V → Dict V → Dict V
  put k v [] = (k, v) ∷ []
  put k v ((j, w) ∷ m) = if str_eq j k then (k, v) ∷ m else (j, w) ∷ put k v m

  unfoldable pub remove : String → Dict V → Dict V
  remove k [] = []
  remove k ((j, v) ∷ m) = let rest = remove k m in if str_eq j k then rest else (j, v) ∷ rest

  -- `d.update(e)`, or `{**d, **e}`: what `e` has at a key wins. The order of the pairs is no part
  -- of a dictionary's meaning here, so `e` is put in from its end.
  unfoldable pub update : Dict V → Dict V → Dict V
  unfolding put
  update m [] = m
  update m ((k, v) ∷ e) = put k v (update m e)

  -- `{k: v for k, v in d.items() if p(k)}`
  unfoldable pub restrict : (String → Bool) → Dict V → Dict V
  restrict p [] = []
  restrict p ((k, v) ∷ m) = let rest = restrict p m in if p k then (k, v) ∷ rest else rest

  unfoldable pub remove_all : List String → Dict V → Dict V
  unfolding remove
  remove_all [] m = m
  remove_all (k ∷ ks) m = remove_all ks (remove k m)

module _ {ℓ} {V : Type ℓ} where
  pub get-put :
      (k j : String) (v : V) (m : Dict V)
      → get j (put k v m) ≡ (if str_eq k j then some v else get j m)
  unfolding get put
  get-put k j v [] = refl
  get-put k j v ((i, w) ∷ m) = ground (arith, eq_iff k j, eq_iff i k, eq_iff i j, get-put k j v m)

  pub get-remove :
      (k j : String) (m : Dict V) → get j (remove k m) ≡ (if str_eq k j then none else get j m)
  unfolding get remove
  get-remove k j [] = ground arith
  get-remove k j ((i, w) ∷ m) = ground (arith, get-remove k j m, eq_iff i k, eq_iff i j, eq_iff k j)

  pub get-restrict :
      (p : String → Bool) (j : String) (m : Dict V)
      → get j (restrict p m) ≡ (if p j then get j m else none)
  unfolding get restrict
  get-restrict p j [] = ground arith
  get-restrict p j ((i, w) ∷ m) = ground (arith, get-restrict p j m, eq_iff i j, same p i j)
    where
      same : (q : String → Bool) (a b : String) → a ≡ b → q a ≡ q b
      same q a b e = cc

  pub get-update : (j : String) (m e : Dict V) → get j (update m e) ≡ or_else (get j e) (get j m)
  unfolding get update
  get-update j m [] = refl
  get-update j m ((k, v) ∷ e) = ground (arith, get-put k j v (update m e), get-update j m e)

  pub get-remove_all :
      (ks : List String) (j : String) (m : Dict V)
      → get j (remove_all ks m) ≡ (if str_in j ks then none else get j m)
  unfolding get remove_all
  get-remove_all [] j m = refl
  get-remove_all (k ∷ ks) j m = ground (arith, get-remove k j m, get-remove_all ks j (remove k m))

pub ruleset dict_laws = (get-put, get-remove, get-restrict, get-update, get-remove_all)
