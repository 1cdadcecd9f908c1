-- ===== src/Json/Equal.antt =====
-- operator== of nlohmann::json: numbers of the three kinds are compared by value, and objects
-- without regard to the order of their members.
use libmediasouphandler.Base.{ℕ, ℤ, Bool, true, false, none, some, ◌&&◌, ◌==◌, eqb}
use libmediasouphandler.Base.Int.{pos, eqb_ℤ, shl_ℤ, to_signed}
use libmediasouphandler.Json.Data.{
  Json, null, boolean, number_integer, number_unsigned, number_float, str, arr, obj, Items, nil,
  cons, Fields, end, field,
}
use libmediasouphandler.Json.Object.{get, contains}

abbrev bool_eq : Bool → Bool → Bool
bool_eq true true = true
bool_eq false false = true
bool_eq _ _ = false

-- a / 2 ^ k against b / 2 ^ l.
abbrev float_eq : ℤ → ℕ → ℤ → ℕ → Bool
float_eq a k b l = eqb_ℤ (shl_ℤ a l) (shl_ℤ b k)

abbrev pub covers : Fields → Fields → Bool
covers end fs = true
covers (field k v gs) fs = let rest = covers gs fs in contains k fs && rest

unfoldable mutual
  unfolding get contains

  pub json_eq : Json → Json → Bool
  json_eq null null = true
  json_eq (boolean a) (boolean b) = bool_eq a b
  json_eq (number_integer a) (number_integer b) = eqb_ℤ a b
  json_eq (number_integer a) (number_unsigned b) = eqb_ℤ a (to_signed 63 (pos b))
  json_eq (number_integer a) (number_float b l) = float_eq a 0 b l
  json_eq (number_unsigned a) (number_integer b) = eqb_ℤ (to_signed 63 (pos a)) b
  json_eq (number_unsigned a) (number_unsigned b) = eqb a b
  json_eq (number_unsigned a) (number_float b l) = float_eq (pos a) 0 b l
  json_eq (number_float a k) (number_integer b) = float_eq a k b 0
  json_eq (number_float a k) (number_unsigned b) = float_eq a k (pos b) 0
  json_eq (number_float a k) (number_float b l) = float_eq a k b l
  json_eq (str s) (str t) = s == t
  json_eq (arr xs) (arr ys) = items_eq xs ys
  json_eq (obj fs) (obj gs) = covers gs fs && fields_eq fs gs
  json_eq _ _ = false

  pub items_eq : Items → Items → Bool
  items_eq nil nil = true
  items_eq (cons x xs) (cons y ys) = json_eq x y && items_eq xs ys
  items_eq _ _ = false

  -- Every member of the first is a member of the second, with an equal value.
  pub fields_eq : Fields → Fields → Bool
  fields_eq end gs = true
  fields_eq (field k v fs) gs =
      elim (get k gs) [ none ↦ false | some w ↦ json_eq v w ] && fields_eq fs gs
