-- ===== src/Connection/Repository.antt =====
-- The operations on repositories: a request, the guard on the answer's flag, and the result. `send`
-- is `sendSync` of the client, with its timeout; an operation returns what the call returns and the
-- text in `errorOut`, if it is set.
use ghidra_svr_bridge.Prelude.{
  ℕ, Bool, true, false, List, [], ◌∷◌, ◌++◌, Option, none, some, Str, codes, ℤ, pos, Map, Exc, ok,
  throw, ◌>>=◌, traverse,
}
use ghidra_svr_bridge.Model.Export.{GhidraDbExport}
use ghidra_svr_bridge.Wire.Library.{JsonLib}
use ghidra_svr_bridge.Wire.Decode.{parse_db_export_json}
use ghidra_svr_bridge.Connection.Records.{
  RepoItem, CheckoutInfo, VersionInfo, no_checkout, item_from_json, checkout_from_json,
  version_from_json,
}

-- `BinaryFile`
pub record BinaryFile : Type 0 where
  pub filename : Str
  pub bytes : Str

-- The export that a failed `openDatabase` returns.
abbrev pub empty_export : GhidraDbExport
empty_export = record {
  symbols = [];
  comments = [];
  func_flags = [];
  func_sigs = [];
  equates = [];
  bookmarks = [];
  parameters = [];
  data_types = [];
  data_items = [];
  memory_blocks = [];
  xref_stats = record { from_count = pos 0; to_count = pos 0 };
  diag = [];
  image_base = 0;
}

-- What a call returns, and `errorOut` where it is set.
abbrev pub Reply {ℓ} : Type ℓ → Type ℓ
Reply A = A × Option Str

module _ (lib : JsonLib) where
  abbrev Request : Type 0
  Request = Map Str lib.Json

  abbrev Send : Type 0
  Send = Request → ℕ → Exc lib.Json

  abbrev pub text_member : Str → Str → Str × lib.Json
  text_member k v = (k, lib.of_text v)

  -- `sendSync` where the source gives no timeout.
  abbrev pub default_timeout : ℕ
  default_timeout = 15000

  -- The `catch` clause.
  unfoldable pub settle {ℓ} : {A : Type ℓ} → A → Exc (Reply A) → Reply A
  settle empty (throw what) = (empty, some what)
  settle empty (ok r) = r

  abbrev pub readable {ℓ} : {A : Type ℓ} → Exc A → Exc (Reply A)
  readable (throw what) = throw what
  readable (ok a) = ok (a, none)

  abbrev pub refusal {ℓ} : {A : Type ℓ} → A → Exc Str → Exc (Reply A)
  refusal empty (throw what) = throw what
  refusal empty (ok e) = ok (empty, some e)

  abbrev pub by_flag {ℓ} : {A : Type ℓ} → Exc Bool → Exc A → Exc A → Exc A
  by_flag (throw what) set unset = throw what
  by_flag (ok true) set unset = set
  by_flag (ok false) set unset = unset

  -- What the operations do with an answer: the test of its flag, the error, or the result.
  unfoldable pub reading {ℓ} :
      {A : Type ℓ} → A → Str → (lib.Json → Exc A) → lib.Json → Exc (Reply A)
  reading empty fallback read resp =
      by_flag (lib.value_bool resp (codes "ok") false) (readable (read resp))
        (refusal empty (lib.value_text resp (codes "error") fallback))

  -- The `try` block that the operations share: what the call returns where the flag is not set or
  -- an exception is caught, the text that `errorOut` defaults to, and what is read off the answer.
  unfoldable pub guarded {ℓ} : {A : Type ℓ} → A → Str → (lib.Json → Exc A) → Exc lib.Json → Reply A
  guarded empty fallback read answer =
      settle empty (do resp ← answer; reading empty fallback read resp)

  -- The elements of a member, each read by `read`.
  abbrev pub elements_of {ℓ} : {A : Type ℓ} → (lib.Json → Exc A) → Str → lib.Json → Exc (List A)
  elements_of read k resp = traverse read (lib.items (lib.at resp k))

  abbrev pub flag_only : lib.Json → Exc Bool
  flag_only resp = ok true

  -- The client is there where the operations are called: they do not test it.
  module _ (send : Send) where
    unfoldable pub list_repos : Reply (List Str)
    list_repos =
        guarded [] (codes "list_repos failed") (elements_of lib.get_text (codes "repos"))
          (send (text_member (codes "op") (codes "list_repos") ∷ []) default_timeout)

    unfoldable pub open_repo : Str → Reply Bool
    open_repo repo = guarded false (codes "open_repo failed") flag_only (
        send (text_member (codes "op") (codes "open_repo") ∷ text_member (codes "repo") repo ∷ [])
          default_timeout)

    -- Nothing is returned, and what is thrown is dropped.
    unfoldable pub close_repo : Str → Exc lib.Json
    close_repo repo =
        send (text_member (codes "op") (codes "close_repo") ∷ text_member (codes "repo") repo ∷ [])
          3000

    abbrev pub at_folder : Str → Str → Str → Request
    at_folder op repo folder =
        text_member (codes "op") op
        ∷ text_member (codes "repo") repo
        ∷ text_member (codes "folder") folder
        ∷ []

    abbrev pub at_item : Str → Str → Str → Str → Request
    at_item op repo folder item =
        text_member (codes "op") op
        ∷ text_member (codes "repo") repo
        ∷ text_member (codes "folder") folder
        ∷ text_member (codes "item") item
        ∷ []

    unfoldable pub list_items : Str → Str → Reply (List RepoItem)
    list_items repo folder =
        guarded [] [] (elements_of (item_from_json lib) (codes "items"))
          (send (at_folder (codes "list_items") repo folder) default_timeout)

    unfoldable pub get_subfolders : Str → Str → Reply (List Str)
    get_subfolders repo folder =
        guarded [] [] (elements_of lib.get_text (codes "subfolders"))
          (send (at_folder (codes "get_subfolders") repo folder) default_timeout)

    unfoldable pub get_versions : Str → Str → Str → Reply (List VersionInfo)
    get_versions repo folder item =
        guarded [] [] (elements_of (version_from_json lib) (codes "versions"))
          (send (at_item (codes "get_versions") repo folder item) default_timeout)

    unfoldable pub get_checkouts : Str → Str → Str → Reply (List CheckoutInfo)
    get_checkouts repo folder item =
        guarded [] [] (elements_of (checkout_from_json lib) (codes "checkouts"))
          (send (at_item (codes "get_checkouts") repo folder item) default_timeout)

    unfoldable pub checkout : Str → Str → Str → Str → Reply CheckoutInfo
    checkout repo folder item checkout_type =
        guarded no_checkout [] (λ resp. checkout_from_json lib (lib.at resp (codes "checkout")))
          (send
            (at_item (codes "checkout") repo folder item
              ++ text_member (codes "type") checkout_type ∷ [])
            default_timeout)

    unfoldable pub open_database : Str → Str → Str → ℤ → Reply GhidraDbExport
    open_database repo folder item version =
        guarded empty_export (codes "open_db failed") (parse_db_export_json lib) (
          send
            (at_item (codes "open_db") repo folder item
              ++ (codes "version", lib.of_int version) ∷ [])
            120000)

    unfoldable pub binary_file : (Str → Str) → lib.Json → Exc BinaryFile
    binary_file from_base64 j = do
      f ← lib.value_text j (codes "filename") []
      b64 ← lib.value_text j (codes "data") []
      ok (record { filename = f; bytes = from_base64 b64 })

    unfoldable pub download_binary : (Str → Str) → Str → Str → Str → ℤ → Reply (List BinaryFile)
    download_binary from_base64 repo folder item version =
        guarded [] (codes "download_binary failed")
          (elements_of (binary_file from_base64) (codes "files"))
          (send
            (at_item (codes "download_binary") repo folder item
              ++ (codes "version", lib.of_int version) ∷ [])
            300000)

    unfoldable pub terminate_checkout : Str → Str → Str → ℤ → Reply Bool
    terminate_checkout repo folder item checkout_id = guarded false [] flag_only (
        send
          (at_item (codes "terminate_checkout") repo folder item
            ++ (codes "checkout_id", lib.of_int checkout_id) ∷ [])
          default_timeout)

    unfoldable pub delete_item : Str → Str → Str → Reply Bool
    delete_item repo folder item =
        guarded false [] flag_only
          (send (at_item (codes "delete_item") repo folder item) default_timeout)
