-- ===== src/JsMap.antt =====
-- JavaScript's `Map` (and `Set`, with no value): entries in insertion order; a write to a key that
-- is there keeps its place, and a new key goes to the end.
use dap.Common.{
  ◌≡◌, refl, Bool, true, false, Option, none, some, List, [], ◌∷◌, arith, Comparable, ◌==◌,
  if◌then◌else◌,
}

abbrev pub is_some {ℓ} : {V : Type ℓ} → Option V → Bool
is_some none = false
is_some (some v) = true

abbrev pub JsMap {ℓ κ} : Type ℓ → Type κ → Type (ℓ ⊔ κ)
JsMap K V = List (K × V)

module _ {ℓ κ} {K : Type ℓ} {V : Type κ} ⦃e : Comparable K⦄ where
  unfoldable pub get : JsMap K V → K → Option V
  get [] k = none
  get ((j, v) ∷ m) k = if j == k then some v else get m k

  unfoldable pub set : JsMap K V → K → V → JsMap K V
  set [] k v = (k, v) ∷ []
  set ((j, w) ∷ m) k v = if j == k then (j, v) ∷ m else (j, w) ∷ set m k v

  unfoldable pub delete : JsMap K V → K → JsMap K V
  delete [] k = []
  delete ((j, w) ∷ m) k = let rest = delete m k in if j == k then rest else (j, w) ∷ rest

  unfoldable pub has : JsMap K V → K → Bool
  has m k = is_some (get m k)

  pub get-set :
      (m : JsMap K V) (k j : K) (v : V) → get (set m k v) j ≡ (if k == j then some v else get m j)
  unfolding get set
  get-set [] k j v = refl
  get-set ((i, w) ∷ m) k j v =
      ground (arith, e.same_iff k j, e.same_iff i k, e.same_iff i j, get-set m k j v)

  pub get-delete :
      (m : JsMap K V) (k j : K) → get (delete m k) j ≡ (if k == j then none else get m j)
  unfolding get delete
  get-delete [] k j = ground arith
  get-delete ((i, w) ∷ m) k j =
      ground (arith, e.same_iff k j, e.same_iff i k, e.same_iff i j, get-delete m k j)

  -- No key twice.
  abbrev pub IsFresh : K → JsMap K V → Type 0
  IsFresh k [] = Unit
  IsFresh k ((j, w) ∷ m) = ((k == j) ≡ false) × IsFresh k m

  abbrev pub HasDistinctKeys : JsMap K V → Type 0
  HasDistinctKeys [] = Unit
  HasDistinctKeys ((j, w) ∷ m) = IsFresh j m × HasDistinctKeys m

  pub get-IsFresh : (k : K) (m : JsMap K V) → IsFresh k m → get m k ≡ none
  unfolding get
  get-IsFresh k [] h = refl
  get-IsFresh k ((j, w) ∷ m) h = ground (arith, e.same_iff j k, e.same_iff k j, get-IsFresh k m h.1)

  IsFresh-set :
      (k j : K) (v : V) (m : JsMap K V) → (j == k) ≡ false → IsFresh j m → IsFresh j (set m k v)
  unfolding set
  IsFresh-set k j v [] h f = (h, tt)
  IsFresh-set k j v ((i, w) ∷ m) h f = ground (arith, IsFresh-set k j v m h f.1)

  pub set-HasDistinctKeys :
      (m : JsMap K V) (k : K) (v : V) → HasDistinctKeys m → HasDistinctKeys (set m k v)
  unfolding set
  set-HasDistinctKeys [] k v h = (tt, tt)
  set-HasDistinctKeys ((i, w) ∷ m) k v h =
      ground (arith, e.same_iff i k, IsFresh-set k i v m, set-HasDistinctKeys m k v h.1)
