-- ===== src/Adapter/Json.antt =====
-- encoding/json as the adapter uses it: the values that json.Unmarshal puts into `any`.
use execgo.Base.{ℕ, ◌*◌, ◌-◌, ◌^◌, ◌%◌, String, Bool, true, false, List, [], ◌∷◌, ltb, eq_ℕ, suc}
use execgo.Base.{ℤ, pos, negsuc}

-- `num n k` is the float64 n / 2^k: every finite float64 is of this form, and JSON has no other.
-- An object holds each key once, and its entries stand in the order in which Go walks the map.
mutual
  pub data Json : Type 0 where
    null : Json
    bool : Bool → Json
    num : ℤ → ℕ → Json
    str : String → Json
    arr : Items → Json
    obj : Fields → Json

  pub data Items : Type 0 where
    no_items : Items
    item : Json → Items → Items

  pub data Fields : Type 0 where
    no_fields : Fields
    field : String → Json → Fields → Fields

abbrev pub items : Items → List Json
items no_items = []
items (item v vs) = v ∷ items vs

abbrev pub fields : Fields → List (String × Json)
fields no_fields = []
fields (field k v fs) = (k, v) ∷ fields fs

-- The way back.
abbrev pub to_items : List Json → Items
to_items [] = no_items
to_items (v ∷ vs) = item v (to_items vs)

abbrev pub to_fields : List (String × Json) → Fields
to_fields [] = no_fields
to_fields ((k, v) ∷ fs) = field k v (to_fields fs)

-- `obj, ok := value.(map[string]any)` and `arr, ok := value.([]any)`, where nothing is nothing to do.
abbrev pub entries : Json → List (String × Json)
entries (obj fs) = fields fs
entries _ = []

abbrev pub elements : Json → List Json
elements (arr vs) = items vs
elements _ = []

-- a < b
abbrev pub lt_ℤ : ℤ → ℤ → Bool
lt_ℤ (pos a) (pos b) = ltb a b
lt_ℤ (pos a) (negsuc b) = false
lt_ℤ (negsuc a) (pos b) = true
lt_ℤ (negsuc a) (negsuc b) = ltb b a

-- c * 2^k
abbrev pub scale : ℤ → ℕ → ℤ
scale (pos n) k = pos (n * 2 ^ k)
scale (negsuc n) k = negsuc (suc n * 2 ^ k - 1)

-- `math.Trunc(v) == v`
unfoldable pub is_integral : ℤ → ℕ → Bool
is_integral (pos n) k = eq_ℕ (n % 2 ^ k) 0
is_integral (negsuc n) k = eq_ℕ (suc n % 2 ^ k) 0
