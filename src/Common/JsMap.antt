-- ===== src/Common/JsMap.antt =====
-- JavaScript's `Map` with string keys: an association list in insertion order, a key at most once.
use Prim.Native.Nat.{ℕ, ◌+◌, ◌≤◌}
use Prim.Native.String.{String}
use mathlib.Core.Path.{◌≡◌, refl}
use mathlib.Core.Bool.{Bool, true, false}
use mathlib.Core.Option.{Option, none, some}
use mathlib.Core.List.{List, [], ◌∷◌, ◌++◌}
use native.Mathlib.Omega.{arith}
use text.Mathlib.Text.{◌==◌}
use text.Mathlib.TextEquality.{eq_iff}
use luoluo_auth.Common.Tests.{if◌then◌else◌, is_some}
use luoluo_auth.Common.Lists.{length}

abbrev pub JsMap {ℓ} : Type ℓ → Type ℓ
JsMap V = List (String × V)

module _ {ℓ} {V : Type ℓ} where
  unfoldable pub get : JsMap V → String → Option V
  get [] k = none
  get ((j, v) ∷ m) k = if j == k then some v else get m k

  unfoldable pub has : JsMap V → String → Bool
  has m k = is_some (get m k)

  -- A present key keeps its place, a new one goes last.
  unfoldable pub set : JsMap V → String → V → JsMap V
  set [] k v = (k, v) ∷ []
  set ((j, w) ∷ m) k v = if j == k then (j, v) ∷ m else (j, w) ∷ set m k v

  unfoldable pub delete : JsMap V → String → JsMap V
  delete [] k = []
  delete ((j, w) ∷ m) k = if j == k then delete m k else (j, w) ∷ delete m k

  abbrev pub size : JsMap V → ℕ
  size m = length m

  abbrev pub values : JsMap V → List V
  values [] = []
  values ((k, v) ∷ m) = v ∷ values m

  abbrev pub keys : JsMap V → List String
  keys [] = []
  keys ((k, v) ∷ m) = k ∷ keys m

  -- No key stands twice.
  abbrev pub IsUnique : JsMap V → Type ℓ
  IsUnique [] = Unit
  IsUnique ((k, v) ∷ m) = (get m k ≡ none) × IsUnique m

  pub get-set :
      (m : JsMap V) (k : String) (v : V) (j : String)
      → get (set m k v) j ≡ (if k == j then some v else get m j)
  unfolding get set
  get-set [] k v j = refl
  get-set ((i, w) ∷ m) k v j = ground (arith, eq_iff k j, eq_iff i k, eq_iff i j, get-set m k v j)

  pub get-delete :
      (m : JsMap V) (k j : String) → get (delete m k) j ≡ (if k == j then none else get m j)
  unfolding get delete
  get-delete [] k j = ground arith
  get-delete ((i, w) ∷ m) k j = ground (arith, eq_iff k j, eq_iff i k, eq_iff i j, get-delete m k j)

  pub has-set :
      (m : JsMap V) (k : String) (v : V) (j : String)
      → has (set m k v) j ≡ (if k == j then true else has m j)
  unfolding has
  has-set m k v j = ground (arith, get-set m k v j)

  pub has-delete :
      (m : JsMap V) (k j : String) → has (delete m k) j ≡ (if k == j then false else has m j)
  unfolding has
  has-delete m k j = ground (arith, get-delete m k j)

  pub set-IsUnique : (m : JsMap V) (k : String) (v : V) → IsUnique m → IsUnique (set m k v)
  unfolding set get
  set-IsUnique [] k v h = (refl, tt)
  set-IsUnique ((i, w) ∷ m) k v h =
      ground (arith, eq_iff i k, eq_iff k i, get-set m k v i, set-IsUnique m k v h.1)

  pub delete-IsUnique : (m : JsMap V) (k : String) → IsUnique m → IsUnique (delete m k)
  unfolding delete
  delete-IsUnique [] k h = tt
  delete-IsUnique ((i, w) ∷ m) k h = ground (arith, get-delete m k i, delete-IsUnique m k h.1)

  pub delete_absent : (m : JsMap V) (k : String) → get m k ≡ none → delete m k ≡ m
  unfolding get delete
  delete_absent [] k h = refl
  delete_absent ((i, w) ∷ m) k h = ground (arith, delete_absent m k)

  pub size-delete_present :
      (m : JsMap V) (k : String) → IsUnique m → has m k ≡ true → size (delete m k) + 1 ≡ size m
  unfolding has get delete
  size-delete_present [] k u h = cc
  size-delete_present ((i, w) ∷ m) k u h =
      ground (arith, eq_iff i k, delete_absent m k, size-delete_present m k u.1)

  pub size-delete-le : (m : JsMap V) (k : String) → size (delete m k) ≤ size m
  unfolding delete
  size-delete-le [] k = omega arith
  size-delete-le ((i, w) ∷ m) k = ground (arith, size-delete-le m k)

  pub size-set_present :
      (m : JsMap V) (k : String) (v : V) → has m k ≡ true → size (set m k v) ≡ size m
  unfolding has get set
  size-set_present [] k v h = cc
  size-set_present ((i, w) ∷ m) k v h = ground (arith, size-set_present m k v)

  pub set_absent :
      (m : JsMap V) (k : String) (v : V) → get m k ≡ none → set m k v ≡ m ++ (k, v) ∷ []
  unfolding get set
  set_absent [] k v h = refl
  set_absent ((i, w) ∷ m) k v h = ground (arith, set_absent m k v)

  pub size-set-le : (m : JsMap V) (k : String) (v : V) → size (set m k v) ≤ size m + 1
  unfolding set
  size-set-le [] k v = omega arith
  size-set-le ((i, w) ∷ m) k v = ground (arith, size-set-le m k v)

  -- A non-empty map has its first key.
  pub get_head : (k : String) (v : V) (m : JsMap V) → get ((k, v) ∷ m) k ≡ some v
  unfolding get
  get_head k v m = ground (arith, eq_iff k k)
