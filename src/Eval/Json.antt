-- ===== src/Eval/Json.antt =====
-- JSON values as packages/cli/src/eval/coding-ledger.ts reads them. A missing key and `null` are
-- alike to it (`??`, `!= null`, `typeof`), so both are `null` here. Numbers are whole: a cost is
-- counted in a unit that is small enough.
use codewatch.Base.{
  ◌+◌, ◌==◌, false, string_eq, none, ◌∷◌, numeral, ℤ, if◌then◌else◌, opt_beq, [], true, some,
  String, List, Bool, Option, ℕ,
}

mutual
  pub data Json : Type 0 where
    null : Json
    truth : Bool → Json
    num : ℤ → Json
    str : String → Json
    arr : Items → Json
    obj : Fields → Json

  pub data Items : Type 0 where
    nil : Items
    cons : Json → Items → Items

  pub data Fields : Type 0 where
    end : Fields
    field : String → Json → Fields → Fields

abbrev pub field_at : Fields → String → Json
field_at Fields.end k = Json.null
field_at (Fields.field j v fs) k = if j == k then v else field_at fs k

-- `asJson(value)[key]`: `asJson` makes an empty object of what is none.
abbrev pub get : Json → String → Json
get (Json.obj fs) k = field_at fs k
get _ k = Json.null

abbrev pub is_null : Json → Bool
is_null Json.null = true
is_null _ = false

abbrev pub text_of : Json → Option String
text_of (Json.str s) = some s
text_of _ = none

abbrev pub is_text : Json → String → Bool
is_text v s = opt_beq (text_of v) (some s)

abbrev items_list : Items → List Json
items_list Items.nil = []
items_list (Items.cons v vs) = v ∷ items_list vs

-- `Array.isArray(value) ? value : []`
abbrev pub items_of : Json → List Json
items_of (Json.arr vs) = items_list vs
items_of _ = []

abbrev fields_list : Fields → List (String × Json)
fields_list Fields.end = []
fields_list (Fields.field k v fs) = (k, v) ∷ fields_list fs

abbrev index_list : ℕ → Items → List (String × Json)
index_list i Items.nil = []
index_list i (Items.cons v vs) = (numeral i, v) ∷ index_list (i + 1) vs

-- `Object.entries(asJson(value))`
abbrev pub entries : Json → List (String × Json)
entries (Json.obj fs) = fields_list fs
entries (Json.arr vs) = index_list 0 vs
entries _ = []
