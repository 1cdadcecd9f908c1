-- ===== src/Json/Data.antt =====
-- The values of nlohmann::json (deps/libsdptransform/include/json.hpp): null, booleans, signed,
-- unsigned and floating-point numbers, texts, arrays and objects.
use libmediasouphandler.Base.{ℕ, ℤ, String, Bool, true, false, List, [], ◌∷◌, ◌≡◌, refl, ap}

-- A floating-point number is a / 2 ^ k, as every finite one is. The members of an object stand in
-- the order in which they came in.
mutual
  pub data Json : Type 0 where
    null : Json
    boolean : Bool → Json
    number_integer : ℤ → Json
    number_unsigned : ℕ → Json
    number_float : ℤ → ℕ → Json
    str : String → Json
    arr : Items → Json
    obj : Fields → Json

  pub data Items : Type 0 where
    nil : Items
    cons : Json → Items → Items

  pub data Fields : Type 0 where
    end : Fields
    field : String → Json → Fields → Fields

abbrev pub is_string : Json → Bool
is_string (str s) = true
is_string _ = false

abbrev pub is_boolean : Json → Bool
is_boolean (boolean b) = true
is_boolean _ = false

-- Signed or unsigned, as nlohmann's is_number_integer.
abbrev pub is_number_integer : Json → Bool
is_number_integer (number_integer z) = true
is_number_integer (number_unsigned n) = true
is_number_integer _ = false

abbrev pub is_number_unsigned : Json → Bool
is_number_unsigned (number_unsigned n) = true
is_number_unsigned _ = false

abbrev pub is_number : Json → Bool
is_number (number_integer z) = true
is_number (number_unsigned n) = true
is_number (number_float a k) = true
is_number _ = false

abbrev pub is_array : Json → Bool
is_array (arr xs) = true
is_array _ = false

abbrev pub is_object : Json → Bool
is_object (obj fs) = true
is_object _ = false

abbrev pub is_null : Json → Bool
is_null null = true
is_null _ = false

abbrev pub to_list : Items → List Json
to_list nil = []
to_list (cons x xs) = x ∷ to_list xs

abbrev pub of_list : List Json → Items
of_list [] = nil
of_list (x ∷ xs) = cons x (of_list xs)

-- json::array of the values.
abbrev pub array : List Json → Json
array xs = arr (of_list xs)

pub to_list-of_list : (xs : List Json) → to_list (of_list xs) ≡ xs
to_list-of_list [] = refl
to_list-of_list (x ∷ xs) = ap (λ ys. x ∷ ys) (to_list-of_list xs)

pub of_list-to_list : (xs : Items) → of_list (to_list xs) ≡ xs
of_list-to_list nil = refl
of_list-to_list (cons x xs) = ap (cons x) (of_list-to_list xs)

pub obj_injective : {fs gs : Fields} → obj fs ≡ obj gs → fs ≡ gs
obj_injective h = cc
