-- ===== src/JsObject.antt =====
-- Writes to JavaScript's plain objects, `out[key] = value`: a property that is there keeps its place,
-- a new one whose name is an array index goes before the other names and in numeric order, another
-- new one goes to the end, and a write to `__proto__` makes no property.
use Prim.Native.Char.{code}
use Prim.Native.String as Native
use dap.Common.{
  ◌≡◌, ◌∙◌, refl, ℕ, ◌+◌, ◌-◌, ◌*◌, Bool, true, false, ◌&&◌, Option, none, some, String, List, [],
  ◌∷◌, arith, Comparable, ◌==◌, if◌then◌else◌, leb, ltb, Text, text_eq, string_eq, nat_eq,
  Bool-cases, Option-cases, inl, inr, All, sym, subst, ==_refl,
}
use dap.JsMap.{JsMap, get, set, get-set, IsFresh, HasDistinctKeys, get-IsFresh, set-HasDistinctKeys}

-- The names of properties are read as text.
pub record PropertyName (K : Type 0) : Type 0 where
  pub text_of : K → Text

abbrev codes : String → Text
codes Native.[] = []
codes (Native.◌∷◌ c s) = code c ∷ codes s

instance abbrev pub string_name : PropertyName String
string_name = record { text_of = codes }

instance abbrev pub text_name : PropertyName Text
text_name = record { text_of = λ t. t }

abbrev is_digit : ℕ → Bool
is_digit c = leb 48 c && leb c 57

-- The number that digits after the first ones stand for.
abbrev digits_from : ℕ → Text → Option ℕ
digits_from n [] = some n
digits_from n (c ∷ t) =
    let rest = digits_from (n * 10 + (c - 48)) t in if is_digit c then rest else none

abbrev below_last : Option ℕ → Option ℕ
below_last none = none
below_last (some n) = if ltb n 4294967295 then some n else none

-- An array index is a number below 2³² - 1 as it is printed: with no zero before it.
abbrev index_of : Text → Option ℕ
index_of [] = none
index_of (c ∷ []) = digits_from 0 (c ∷ [])
index_of (c ∷ d ∷ t) = if c == 48 then none else below_last (digits_from 0 (c ∷ d ∷ t))

-- "__proto__"
abbrev proto : Text
proto = 95 ∷ 95 ∷ 112 ∷ 114 ∷ 111 ∷ 116 ∷ 111 ∷ 95 ∷ 95 ∷ []

-- A new index goes before a larger one and before every name that is no index.
abbrev goes_before : ℕ → Option ℕ → Bool
goes_before i none = true
goes_before i (some j) = ltb i j

abbrev pub is_proto : {K : Type 0} ⦃name : PropertyName K⦄ → K → Bool
is_proto ⦃name⦄ k = name.text_of k == proto

-- The first of two results.
abbrev pub first_of_both {ℓ} : {V : Type ℓ} → Option V → Option V → Option V
first_of_both none o = o
first_of_both (some v) o = some v

module _ {ℓ} {K : Type 0} {V : Type ℓ} ⦃e : Comparable K⦄ ⦃name : PropertyName K⦄ where
  unfoldable pub insert : ℕ → JsMap K V → K → V → JsMap K V
  insert i [] k v = (k, v) ∷ []
  insert i ((j, w) ∷ m) k v =
      let rest = insert i m k v in
      if goes_before i (index_of (name.text_of j)) then (k, v) ∷ (j, w) ∷ m else (j, w) ∷ rest

  -- A name that the object does not have.
  abbrev add : Option ℕ → JsMap K V → K → V → JsMap K V
  add none m k v = set m k v
  add (some i) m k v = insert i m k v

  unfoldable pub put : JsMap K V → K → V → JsMap K V
  unfolding get
  put m k v =
      if is_proto k
      then m
      else elim (get m k) [ some w ↦ set m k v | none ↦ add (index_of (name.text_of k)) m k v ]

  -- The properties are written one after the other.
  unfoldable pub put_all : List (K × V) → JsMap K V → JsMap K V
  put_all [] m = m
  put_all ((k, v) ∷ es) m = put_all es (put m k v)

  get-insert :
      (i : ℕ) (m : JsMap K V) (k j : K) (v : V)
      → get m k ≡ none
      → get (insert i m k v) j ≡ (if k == j then some v else get m j)
  unfolding get insert
  get-insert i [] k j v h = refl
  get-insert i ((l, w) ∷ m) k j v h =
      ground (arith, h, e.same_iff k j, e.same_iff l k, e.same_iff l j, get-insert i m k j v)

  get-add :
      (i : Option ℕ) (m : JsMap K V) (k j : K) (v : V)
      → get m k ≡ none
      → get (add i m k v) j ≡ (if k == j then some v else get m j)
  get-add none m k j v h = get-set m k j v
  get-add (some i) m k j v h = get-insert i m k j v h

  pub get-put :
      (m : JsMap K V) (k j : K) (v : V)
      → get (put m k v) j ≡ (if is_proto k then get m j else if k == j then some v else get m j)
  unfolding put
  get-put m k j v = elim (Option-cases (get m k)) [
    | inl absent ↦ ground (arith, absent, get-add (index_of (name.text_of k)) m k j v absent)
    | inr (w, present) ↦ ground (arith, present, get-set m k j v)
  ]

  IsFresh-insert :
      (i : ℕ) (m : JsMap K V) (k j : K) (v : V)
      → (j == k) ≡ false
      → IsFresh j m
      → IsFresh j (insert i m k v)
  unfolding insert
  IsFresh-insert i [] k j v h f = (h, tt)
  IsFresh-insert i ((l, w) ∷ m) k j v h f = ground (arith, IsFresh-insert i m k j v h f.1)

  IsFresh-none : (m : JsMap K V) (k : K) → get m k ≡ none → IsFresh k m
  unfolding get
  IsFresh-none [] k h = tt
  IsFresh-none ((j, w) ∷ m) k h = ground (arith, e.same_iff j k, e.same_iff k j, IsFresh-none m k)

  insert-HasDistinctKeys :
      (i : ℕ) (m : JsMap K V) (k : K) (v : V)
      → IsFresh k m
      → HasDistinctKeys m
      → HasDistinctKeys (insert i m k v)
  unfolding insert
  insert-HasDistinctKeys i [] k v f d = (tt, tt)
  insert-HasDistinctKeys i ((l, w) ∷ m) k v f d = ground (
    arith,
    f.0,
    d.0,
    e.same_iff l k,
    e.same_iff k l,
    IsFresh-insert i m k l v,
    insert-HasDistinctKeys i m k v f.1 d.1,
  )

  pub put-HasDistinctKeys :
      (m : JsMap K V) (k : K) (v : V) → HasDistinctKeys m → HasDistinctKeys (put m k v)
  unfolding put
  put-HasDistinctKeys m k v d = elim (Bool-cases (is_proto k)) [
    | inl proto ↦ rw (proto, put) d
    | inr plain ↦
        rw (plain, put)
          (elim (Option-cases (get m k)) [
            | inr (w, present) ↦ rw present (set-HasDistinctKeys m k v d)
            | inl absent ↦ rw absent (elim (Option-cases (index_of (name.text_of k))) [
              | inl no_index ↦ rw no_index (set-HasDistinctKeys m k v d)
              | inr (i, index) ↦
                  rw index (insert-HasDistinctKeys i m k v (IsFresh-none m k absent) d)
            ])
          ])
  ]

  pub put_all-HasDistinctKeys :
      (es : List (K × V)) (m : JsMap K V) → HasDistinctKeys m → HasDistinctKeys (put_all es m)
  unfolding put_all
  put_all-HasDistinctKeys [] m d = d
  put_all-HasDistinctKeys ((k, v) ∷ es) m d =
      put_all-HasDistinctKeys es (put m k v) (put-HasDistinctKeys m k v d)

  pub get-put_all :
      (es : List (K × V)) (m : JsMap K V) (k : K)
      → HasDistinctKeys es
      → get (put_all es m) k ≡ (if is_proto k then get m k else first_of_both (get es k) (get m k))
  unfolding put_all get
  get-put_all [] m k d = ground arith
  get-put_all ((j, v) ∷ es) m k d =
      get-put_all es (put m j v) k d.1
      ∙ ground (arith, get-put m j k v, get-IsFresh j es d.0, e.same_iff j k)

-- What holds of every property of an object and of what is written.
module _ {ℓ} {K : Type 0} {V : Type ℓ} ⦃e : Comparable K⦄ ⦃name : PropertyName K⦄
    (P : K × V → Type 0) where
  All-set : (m : JsMap K V) (k : K) (v : V) → P (k, v) → All P m → All P (set m k v)
  unfolding set
  All-set [] k v p all = (p, tt)
  All-set ((j, w) ∷ m) k v p all = elim (Bool-cases (j == k)) [
    | inl same ↦ rw (same, set) (subst (λ x. P (x, v)) (sym ((e.same_iff j k).0 same)) p, all.1)
    | inr other ↦ rw (other, set) (all.0, All-set m k v p all.1)
  ]

  All-insert : (i : ℕ) (m : JsMap K V) (k : K) (v : V) → P (k, v) → All P m → All P (insert i m k v)
  unfolding insert
  All-insert i [] k v p all = (p, tt)
  All-insert i ((j, w) ∷ m) k v p all =
      elim (Bool-cases (goes_before i (index_of (name.text_of j)))) [
        | inl first ↦ rw (first, insert) (p, all)
        | inr later ↦ rw (later, insert) (all.0, All-insert i m k v p all.1)
      ]

  All-put : (m : JsMap K V) (k : K) (v : V) → P (k, v) → All P m → All P (put m k v)
  unfolding put
  All-put m k v p all = elim (Bool-cases (is_proto k)) [
    | inl proto ↦ rw (proto, put) all
    | inr plain ↦
        rw (plain, put)
          (elim (Option-cases (get m k)) [
            | inr (w, present) ↦ rw present (All-set m k v p all)
            | inl absent ↦ rw absent (elim (Option-cases (index_of (name.text_of k))) [
              | inl no_index ↦ rw no_index (All-set m k v p all)
              | inr (i, index) ↦ rw index (All-insert i m k v p all)
            ])
          ])
  ]

  pub put_all-All : (es : List (K × V)) (m : JsMap K V) → All P es → All P m → All P (put_all es m)
  unfolding put_all
  put_all-All [] m ps all = all
  put_all-All ((k, v) ∷ es) m ps all = put_all-All es (put m k v) ps.1 (All-put m k v ps.0 all)

  -- What holds of all that is looked up holds of every property.
  pub All-get :
      (m : JsMap K V)
      → HasDistinctKeys m
      → ((k : K) (v : V) → get m k ≡ some v → P (k, v))
      → All P m
  unfolding get
  All-get [] d h = tt
  All-get ((j, w) ∷ m) d h = (
    h j w (ground (arith, ==_refl j)),
    All-get m d.1 (λ k v g. h k v (ground (arith, g, get-IsFresh j m d.0, e.same_iff j k))),
  )
