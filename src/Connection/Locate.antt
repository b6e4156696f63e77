-- ===== src/Connection/Locate.antt =====
-- Where a local bridge finds its files: `pluginDir`, `autoDetectGhidraHome`, `autoDetectBridgeJar`,
-- POSIX. What the system answers is an argument: the plugin's file, and the entries of a directory
-- in the order of `readdir`.
use ghidra_svr_bridge.Prelude.{
  ℕ, zero, suc, ◌-◌, Bool, ◌&&◌, ◌||◌, List, [], ◌∷◌, ◌++◌, Option, none, some, Str, codes, ltb,
  ◌==◌, nat_eq, str_eq, if◌then◌else◌, is_empty, length, take, drop, find,
}
use ghidra_svr_bridge.Names.Text.{rfind}

-- `path.substr(0, slash)`, or nothing.
abbrev up_to : Str → Option ℕ → Str
up_to path none = []
up_to path (some slash) = take slash path

unfoldable pub plugin_dir : Option Str → Str
plugin_dir none = []
plugin_dir (some path) = up_to path (rfind b'/' path)

-- The test on a directory's entry.
unfoldable pub is_ghidra_home : Str → Bool
is_ghidra_home name =
    ltb 14 (length name)
    && (take 7 name == codes "ghidra_" && drop (length name - 7) name == codes "_PUBLIC")

-- `dir.find_last_of("/\\")`
unfoldable pub last_separator : Str → Option ℕ
last_separator [] = none
last_separator (c ∷ s) = elim (last_separator s) [
  | some i ↦ some (suc i)
  | none ↦ if c == b'/' || c == b'\\' then some 0 else none
]

abbrev entries_or_none : Option (List Str) → List Str
entries_or_none none = []
entries_or_none (some names) = names

-- The rounds of the loop that are left: the directory and its parents, nearest first.
unfoldable pub search_upwards : (Str → Option (List Str)) → ℕ → Str → Str
search_upwards entries zero dir = []
search_upwards entries (suc rounds) [] = []
search_upwards entries (suc rounds) (c ∷ dir) =
    elim (find is_ghidra_home (entries_or_none (entries (c ∷ dir)))) [
      | some name ↦ (c ∷ dir) ++ b'/' ∷ name
      | none ↦ elim (last_separator (c ∷ dir)) [
        | none ↦ []
        | some sep ↦ search_upwards entries rounds (take sep (c ∷ dir))
      ]
    ]

-- `fallback` is `GHIDRA_HOME_DEFAULT` of the build, empty where there is none.
unfoldable pub auto_detect_ghidra_home : (Str → Option (List Str)) → Str → Option Str → Str
auto_detect_ghidra_home entries fallback plugin =
    let found = search_upwards entries 3 (plugin_dir plugin) in
    if is_empty found then fallback else found

unfoldable pub auto_detect_bridge_jar : Option Str → Str
auto_detect_bridge_jar plugin =
    let dir = plugin_dir plugin in
    if is_empty dir then [] else dir ++ codes "/ghidra-bridge-0.1.0.jar"
