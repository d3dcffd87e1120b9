-- ===== src/Crypto/Order.antt =====
-- The order by which `keys.sort()` sorts is total, antisymmetric and transitive.
use Prim.Native.Nat.{Ordering}
use Prim.Native.String as Native
use Prim.Native.String.{compare, then}
use Prim.Native.String.compare as clauses
use text.Mathlib.TextEquality.{path_by_compare}
use dap.Common.{◌≡◌, refl, Bool, true, false, String, arith}
use dap.Crypto.{string_leb}

abbrev flip : Ordering → Ordering
flip Ordering.lt = Ordering.gt
flip Ordering.eq = Ordering.eq
flip Ordering.gt = Ordering.lt

abbrev is_gt : Ordering → Bool
is_gt Ordering.gt = true
is_gt _ = false

compare-flip : (s t : String) → compare t s ≡ flip (compare s t)
compare-flip Native.[] Native.[] = refl
compare-flip Native.[] (Native.◌∷◌ d t) = ground (arith, clauses.nil-cons d t, clauses.cons-nil d t)
compare-flip (Native.◌∷◌ c s) Native.[] = ground (arith, clauses.nil-cons c s, clauses.cons-nil c s)
compare-flip (Native.◌∷◌ c s) (Native.◌∷◌ d t) =
    ground (arith, clauses.cons-cons c d s t, clauses.cons-cons d c t s, compare-flip s t)

pub string_leb_total : (s t : String) → string_leb s t ≡ false → string_leb t s ≡ true
string_leb_total s t h = ground (arith, compare-flip s t)

pub string_leb_antisymm : (s t : String) → string_leb s t ≡ true → string_leb t s ≡ true → s ≡ t
string_leb_antisymm s t h k = path_by_compare s t (ground (arith, compare-flip s t))

pub string_leb_trans :
    (s t u : String) → string_leb s t ≡ true → string_leb t u ≡ true → string_leb s u ≡ true
string_leb_trans Native.[] t Native.[] h k = refl
string_leb_trans Native.[] t (Native.◌∷◌ e u) h k = ground (arith, clauses.nil-cons e u)
string_leb_trans (Native.◌∷◌ c s) Native.[] u h k = ground (arith, clauses.cons-nil c s)
string_leb_trans (Native.◌∷◌ c s) (Native.◌∷◌ d t) Native.[] h k =
    ground (arith, clauses.cons-nil d t)
string_leb_trans (Native.◌∷◌ c s) (Native.◌∷◌ d t) (Native.◌∷◌ e u) h k = ground (
  arith,
  clauses.cons-cons c d s t,
  clauses.cons-cons d e t u,
  clauses.cons-cons c e s u,
  string_leb_trans s t u,
)
