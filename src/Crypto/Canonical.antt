-- ===== src/Crypto/Canonical.antt =====
-- The canonical form of an object depends on what its properties are, and not on their order.
use text.Mathlib.TextEquality.{eq_iff}
use mathlib.Core.List.{Permᴰ}
use dap.Common.{
  subst, ◌≡◌, refl, ap, ◌∙◌, false, String, List, [], ◌∷◌, arith, ◌==◌, string_eq, if◌then◌else◌,
  Bool-cases, inl, inr,
}
use dap.JsMap.{JsMap, set, IsFresh, HasDistinctKeys}
use dap.Json.{Value, of_entries, object}
use dap.Crypto.{
  Primitives, insert_key, sort_keys, is_signed, write_object, canonical_json, canonical_members,
}
use dap.Crypto.Order.{string_leb_total, string_leb_antisymm, string_leb_trans}

insert_key_comm :
    (e f : String × String) (l : List (String × String))
    → (e.0 == f.0) ≡ false
    → insert_key e (insert_key f l) ≡ insert_key f (insert_key e l)
unfolding insert_key
insert_key_comm e f [] h =
    ground (arith, string_leb_total e.0 f.0, string_leb_antisymm e.0 f.0, eq_iff e.0 f.0)
insert_key_comm e f (g ∷ l) h = ground (
  arith,
  string_leb_total e.0 f.0,
  string_leb_antisymm e.0 f.0,
  eq_iff e.0 f.0,
  string_leb_total f.0 g.0,
  string_leb_total e.0 g.0,
  string_leb_trans e.0 f.0 g.0,
  string_leb_trans f.0 e.0 g.0,
  insert_key_comm e f l,
)

IsFresh-perm : (k : String) {m n : JsMap String Value} → Permᴰ m n → IsFresh k m → IsFresh k n
IsFresh-perm k Permᴰ.nil h = h
IsFresh-perm k (Permᴰ.cons {a} {b} e p) h = (ground arith, IsFresh-perm k p h.1)
IsFresh-perm k (Permᴰ.swap e f) h = ground arith
IsFresh-perm k (Permᴰ.trans p q) h = IsFresh-perm k q (IsFresh-perm k p h)

==_false_symm : (s t : String) → (s == t) ≡ false → (t == s) ≡ false
==_false_symm s t h = ground (arith, eq_iff s t, eq_iff t s)

HasDistinctKeys-perm :
    {m n : JsMap String Value} → Permᴰ m n → HasDistinctKeys m → HasDistinctKeys n
HasDistinctKeys-perm Permᴰ.nil h = h
HasDistinctKeys-perm (Permᴰ.cons {a} {b} {l₂ = l} e p) h =
    (subst (λ x. IsFresh x.0 l) e (IsFresh-perm a.0 p h.0), HasDistinctKeys-perm p h.1)
HasDistinctKeys-perm (Permᴰ.swap {a} {b} {a'} {l} e f) h =
    subst (λ y. HasDistinctKeys (a' ∷ y ∷ l)) e
      (subst (λ x. HasDistinctKeys (x ∷ a ∷ l)) f
        ((==_false_symm a.0 b.0 h.0.0, h.1.0), (h.0.1, h.1.1)))
HasDistinctKeys-perm (Permᴰ.trans p q) h = HasDistinctKeys-perm q (HasDistinctKeys-perm p h)

module _ (p : Primitives) where
  -- What is written of an object's properties, sorted.
  pub sorted : JsMap String Value → List (String × String)
  unfolding canonical_json
  sorted m = sort_keys (canonical_members p (of_entries m))

  pub sorted-cons :
      (e : String × Value) (m : JsMap String Value)
      → sorted (e ∷ m) ≡ (
          if is_signed e.0 e.1 then insert_key (e.0, canonical_json p e.1) (sorted m) else sorted m)
  unfolding sorted
  sorted-cons e m = elim (Bool-cases (is_signed e.0 e.1)) [ inl s ↦ rw s | inr s ↦ rw s ]

  sorted-swap :
      (e f : String × Value) (m : JsMap String Value)
      → (e.0 == f.0) ≡ false
      → sorted (e ∷ f ∷ m) ≡ sorted (f ∷ e ∷ m)
  sorted-swap e f m h = ground (
    arith,
    sorted-cons e (f ∷ m),
    sorted-cons f (e ∷ m),
    sorted-cons e m,
    sorted-cons f m,
    insert_key_comm (e.0, canonical_json p e.1) (f.0, canonical_json p f.1) (sorted m),
  )

  sorted-perm : {m n : JsMap String Value} → Permᴰ m n → HasDistinctKeys m → sorted m ≡ sorted n
  sorted-perm Permᴰ.nil h = refl
  sorted-perm (Permᴰ.cons {a} {b} {l₁} {l₂} e q) h =
      ground (arith, sorted-cons a l₁, sorted-cons b l₂, sorted-perm q h.1)
  sorted-perm (Permᴰ.swap {a} {b} {a'} {l} e f) h =
      sorted-swap a b l h.0.0 ∙ ap (λ x. sorted (x ∷ a ∷ l)) f ∙ ap (λ y. sorted (a' ∷ y ∷ l)) e
  sorted-perm (Permᴰ.trans q r) h = sorted-perm q h ∙ sorted-perm r (HasDistinctKeys-perm q h)

  -- Nor on `sig`, which the signature does not cover.
  sorted-set_sig : (m : JsMap String Value) (v : Value) → sorted (set m "sig" v) ≡ sorted m
  unfolding set
  sorted-set_sig [] v = sorted-cons ("sig", v) []
  sorted-set_sig ((k, w) ∷ m) v = elim (Bool-cases (k == "sig")) [
    | inl same ↦ rw same (ground (arith, sorted-cons (k, v) m, sorted-cons (k, w) m))
    | inr other ↦ rw other (
        ground
          (arith, sorted-cons (k, w) m, sorted-cons (k, w) (set m "sig" v), sorted-set_sig m v))
  ]

  pub canonical_json-set_sig :
      (m : JsMap String Value) (v : Value)
      → canonical_json p (object (set m "sig" v)) ≡ canonical_json p (object m)
  unfolding sorted
  canonical_json-set_sig m v = ap (write_object p) (sorted-set_sig m v)

  -- The canonical form of an object with distinct keys does not depend on the order in which its
  -- properties stand.
  pub canonical_json-perm :
      (m n : JsMap String Value)
      → Permᴰ m n
      → HasDistinctKeys m
      → canonical_json p (object m) ≡ canonical_json p (object n)
  unfolding sorted
  canonical_json-perm m n q h = ap (write_object p) (sorted-perm q h)
