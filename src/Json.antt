-- ===== src/Json.antt =====
-- The values that `JSON.parse` gives and the frames that the adapters build: `unknown` in the
-- source. A number is a natural number: the code passes numbers on and never computes with them.
-- An object keeps its properties in order.
use dap.Common.{
  ℕ, zero, suc, ◌≡◌, refl, ap, Bool, true, false, Option, none, some, String, List, [], ◌∷◌, ltb,
  nat_beq, string_eq, if◌then◌else◌,
}
use dap.JsMap.{JsMap, get}
use Prim.Native.Nat.{◌/◌, ◌%◌}
use Prim.Native.String as Native

mutual
  -- The elements of an array.
  pub data Items : Type 0 where
    nil : Items
    cons : (v : Value) (vs : Items) → Items

  pub data Value : Type 0 where
    undefined null : Value
    obj : Fields → Value
    arr : Items → Value
    str : String → Value
    bool : Bool → Value
    num : ℕ → Value

  -- The properties of an object, in order.
  pub data Fields : Type 0 where
    end : Fields
    field : (key : String) (v : Value) (rest : Fields) → Fields

abbrev pub items : Items → List Value
items nil = []
items (cons v vs) = v ∷ items vs

abbrev pub of_items : List Value → Items
of_items [] = nil
of_items (v ∷ vs) = cons v (of_items vs)

abbrev pub entries : Fields → JsMap String Value
entries end = []
entries (field k v fs) = (k, v) ∷ entries fs

abbrev pub of_entries : JsMap String Value → Fields
of_entries [] = end
of_entries ((k, v) ∷ m) = field k v (of_entries m)

abbrev pub object : JsMap String Value → Value
object m = obj (of_entries m)

pub entries-of_entries : (m : JsMap String Value) → entries (of_entries m) ≡ m
entries-of_entries [] = refl
entries-of_entries ((k, v) ∷ m) = ap (◌∷◌ (k, v)) (entries-of_entries m)

abbrev pub or_undefined : Option Value → Value
or_undefined none = undefined
or_undefined (some v) = v

pub of_entries-entries : (fs : Fields) → of_entries (entries fs) ≡ fs
of_entries-entries end = refl
of_entries-entries (field k v fs) = ap (field k v) (of_entries-entries fs)

-- `m[key]` on an object, as the map of its properties.
abbrev pub prop : JsMap String Value → String → Value
prop m key = or_undefined (get m key)

-- `v.key`; on `null` and `undefined` it throws, which is `none`. The code reads no property that a
-- primitive or an array has.
abbrev pub property : Value → String → Option Value
property undefined key = none
property null key = none
property (obj fs) key = some (prop (entries fs) key)
property _ key = some undefined

-- Decimal digits.
digit : ℕ → String
digit n =
    if nat_beq n 0
    then "0"
    else if nat_beq n 1
    then "1"
    else if nat_beq n 2
    then "2"
    else if nat_beq n 3
    then "3"
    else if nat_beq n 4
    then "4"
    else if nat_beq n 5
    then "5"
    else if nat_beq n 6
    then "6"
    else if nat_beq n 7
    then "7"
    else if nat_beq n 8
    then "8"
    else "9"

decimal_from : ℕ → ℕ → String
decimal_from zero n = ""
decimal_from (suc f) n =
    let higher = decimal_from f (n / 10) in
    if ltb n 10 then digit n else Native.◌++◌ higher (digit (n % 10))

-- `String(n)`; the fuel is more than the number of digits.
unfoldable pub decimal : ℕ → String
unfolding decimal_from digit
decimal n = decimal_from (suc n) n

decimal_107 : decimal 107 ≡ "107"
unfolding decimal
decimal_107 = refl

-- `String(v)`
unfoldable mutual
  unfolding decimal

  pub to_string : Value → String
  to_string undefined = "undefined"
  to_string null = "null"
  to_string (bool true) = "true"
  to_string (bool false) = "false"
  to_string (num n) = decimal n
  to_string (str s) = s
  to_string (arr xs) = join_items xs
  to_string (obj fs) = "[object Object]"

  pub join_items : Items → String
  join_items nil = ""
  join_items (cons v vs) = Native.◌++◌ (element v) (join_rest vs)

  pub join_rest : Items → String
  join_rest nil = ""
  join_rest (cons v vs) = Native.◌++◌ "," (Native.◌++◌ (element v) (join_rest vs))

  -- `null` and `undefined` are joined as nothing.
  pub element : Value → String
  element undefined = ""
  element null = ""
  element (bool true) = "true"
  element (bool false) = "false"
  element (num n) = decimal n
  element (str s) = s
  element (arr xs) = join_items xs
  element (obj fs) = "[object Object]"
