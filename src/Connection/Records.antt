-- ===== src/Connection/Records.antt =====
-- `RepoItem`, `CheckoutInfo`, `VersionInfo` and `GhidraEvent` of plugin/include/GhidraConnection.h,
-- and how plugin/src/GhidraConnection.cpp reads them from JSON.
use ghidra_svr_bridge.Prelude.{[], Str, codes, ℤ, pos, negsuc, Exc, ok, ◌>>=◌, Option, none, some}
use ghidra_svr_bridge.Wire.Library.{JsonLib}

pub record RepoItem : Type 0 where
  pub name : Str
  pub parent_path : Str
  pub path : Str
  pub file_id : Str
  pub item_type : ℤ
  pub content_type : Str
  pub version : ℤ
  pub version_time : ℤ

pub record CheckoutInfo : Type 0 where
  pub id : ℤ
  pub checkout_type : Str
  pub user : Str
  pub version : ℤ
  pub time : ℤ
  pub project_path : Str

-- The one that an operation returns where it fails.
abbrev pub no_checkout : CheckoutInfo
no_checkout = record {
  id = pos 0;
  checkout_type = [];
  user = [];
  version = negsuc 0;
  time = pos 0;
  project_path = [];
}

pub record VersionInfo : Type 0 where
  pub version : ℤ
  pub time : ℤ
  pub user : Str
  pub comment : Str

pub record GhidraEvent : Type 0 where
  pub repo : Str
  pub event_type : Str
  pub parent_path : Str
  pub name : Str
  pub new_parent_path : Str
  pub new_name : Str

module _ (lib : JsonLib) where
  abbrev text_of : lib.Json → Str → Exc Str
  text_of j k = lib.value_text j k []

  unfoldable pub item_from_json : lib.Json → Exc RepoItem
  item_from_json j = do
    n ← text_of j (codes "name")
    pp ← text_of j (codes "parent_path")
    p ← text_of j (codes "path")
    f ← text_of j (codes "file_id")
    t ← lib.value_int j (codes "item_type") (pos 0)
    c ← text_of j (codes "content_type")
    v ← lib.value_int j (codes "version") (negsuc 0)
    vt ← lib.value_long j (codes "version_time") (pos 0)
    ok (record {
      name = n;
      parent_path = pp;
      path = p;
      file_id = f;
      item_type = t;
      content_type = c;
      version = v;
      version_time = vt;
    })

  unfoldable pub checkout_from_json : lib.Json → Exc CheckoutInfo
  checkout_from_json j = do
    i ← lib.value_long j (codes "id") (pos 0)
    ct ← text_of j (codes "type")
    u ← text_of j (codes "user")
    v ← lib.value_int j (codes "version") (negsuc 0)
    t ← lib.value_long j (codes "time") (pos 0)
    p ← text_of j (codes "project_path")
    ok (record { id = i; checkout_type = ct; user = u; version = v; time = t; project_path = p })

  unfoldable pub version_from_json : lib.Json → Exc VersionInfo
  version_from_json j = do
    v ← lib.value_int j (codes "version") (negsuc 0)
    t ← lib.value_long j (codes "time") (pos 0)
    u ← text_of j (codes "user")
    c ← text_of j (codes "comment")
    ok (record { version = v; time = t; user = u; comment = c })

  unfoldable pub event_from_json : lib.Json → Exc GhidraEvent
  event_from_json j = do
    r ← text_of j (codes "repo")
    t ← text_of j (codes "type")
    pp ← text_of j (codes "parent_path")
    n ← text_of j (codes "name")
    np ← text_of j (codes "new_parent_path")
    nn ← text_of j (codes "new_name")
    ok (record {
      repo = r;
      event_type = t;
      parent_path = pp;
      name = n;
      new_parent_path = np;
      new_name = nn;
    })

  -- `onBridgeEvent`: the event that a handler is called with, if there is a handler.
  unfoldable pub on_bridge_event {ℓ} :
      {H : Type ℓ} → Option H → lib.Json → Exc (Option (H × GhidraEvent))
  on_bridge_event none evt = ok none
  on_bridge_event (some handler) evt = do e ← event_from_json evt; ok (some (handler, e))
