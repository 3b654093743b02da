-- ===== src/Json.antt =====
-- The values that the program stores as JSON, and those that it must refuse to store.
use safety_grounded_agent.Prelude.{ℕ, String, Bool, Option, none, some, List, [], ◌∷◌}

-- Python's `int`; `negsuc n` is -(n + 1).
pub data ℤ : Type 0 where
  pos : ℕ → ℤ
  negsuc : ℕ → ℤ

-- A `float`: a whole number times a power of two, or no finite number.
pub data Float : Type 0 where
  finite : ℤ → ℤ → Float
  infinite : Bool → Float
  not_a_number : Float

-- A Python value: `array` is a list; `other` is an object that is neither of the types that the code asks for.
mutual
  pub data Json : Type 0 where
    null : Json
    boolean : Bool → Json
    integer : ℤ → Json
    float : Float → Json
    text : String → Json
    array : Items → Json
    tuple : Items → Json
    object : Fields → Json
    other : Json

  pub data Items : Type 0 where
    nil : Items
    cons : Json → Items → Items

  -- A key of an object is a Python value too; `none` stands for one that is no string.
  pub data Fields : Type 0 where
    end : Fields
    field : Key → Json → Fields → Fields

  pub data Key : Type 0 where
    name : String → Key
    no_string : Key

-- `list(values)`
abbrev pub items_of : List Json → Items
items_of [] = nil
items_of (v ∷ vs) = cons v (items_of vs)

abbrev pub array_of : List Json → Json
array_of vs = array (items_of vs)

abbrev pub fields_of : List (String × Json) → Fields
fields_of [] = end
fields_of ((k, v) ∷ entries) = field (name k) v (fields_of entries)

-- `{k: v, …}`
abbrev pub object_of : List (String × Json) → Json
object_of entries = object (fields_of entries)

abbrev pub whole : ℕ → Json
whole n = integer (pos n)

abbrev pub text_items : List String → Items
text_items [] = nil
text_items (s ∷ strings) = cons (text s) (text_items strings)

abbrev pub texts : List String → Json
texts strings = array (text_items strings)

abbrev pub text_or_null : Option String → Json
text_or_null none = null
text_or_null (some s) = text s

abbrev pub whole_or_null : Option ℕ → Json
whole_or_null none = null
whole_or_null (some n) = whole n
