-- ===== src/Wire/Library.antt =====
-- What the program uses of `nlohmann::json`, which is not part of the repository.
use ghidra_svr_bridge.Prelude.{Bool, List, Str, ℤ, Map, Exc}

pub record JsonLib : Type 1 where
  pub Json : Type 0
  -- `json::parse`, `dump`
  pub parse : Str → Exc Json
  pub dump : Json → Str
  -- `contains`, `operator[]` on an object, which is null for a member that is not there, and the
  -- elements of a range `for`, of which a null has none
  pub contains : Json → Str → Bool
  pub at : Json → Str → Json
  pub items : Json → List Json
  -- `is_object`, `is_number`, the members of `items()`
  pub is_object : Json → Bool
  pub is_number : Json → Bool
  pub members : Json → List (Str × Json)
  -- `get<std::string>`, `get<int>`; `get<int64_t>` of a number
  pub get_long : Json → ℤ
  pub get_text : Json → Exc Str
  pub get_int : Json → Exc ℤ
  -- `value` with a default of the type: a text, an `int64_t`, an `int`, a truth value
  pub value_text : Json → Str → Str → Exc Str
  pub value_long : Json → Str → ℤ → Exc ℤ
  pub value_int : Json → Str → ℤ → Exc ℤ
  pub value_bool : Json → Str → Bool → Exc Bool
  -- `j[key] = v` on an object
  pub set_member : Json → Str → Json → Json
  -- the constructors
  pub of_text : Str → Json
  pub of_int : ℤ → Json
  pub of_bool : Bool → Json
  pub object : Map Str Json → Json
  pub array : List Json → Json
