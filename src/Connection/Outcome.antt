-- ===== src/Connection/Outcome.antt =====
-- What an operation on a repository returns: an answer's content, or an error.
use ghidra_svr_bridge.Prelude.{
  ℕ, true, false, [], ◌∷◌, ◌++◌, Map, ℤ, none, some, Str, codes, Exc, ok, throw, ◌≡◌, refl, inl,
  inr, Exc-cases,
}
use ghidra_svr_bridge.Wire.Library.{JsonLib}
use ghidra_svr_bridge.Wire.Decode.{parse_db_export_json}
use ghidra_svr_bridge.Connection.Records.{item_from_json, checkout_from_json, version_from_json}
use ghidra_svr_bridge.Connection.Repository.{
  Reply, guarded, settle, reading, elements_of, at_folder, at_item, empty_export, list_items,
  get_subfolders, get_versions, get_checkouts, open_database,
}

-- Either the answer came, its flag is set and the result is what is read off it, with no error; or
-- the result is the empty one, and there is an error's text.
pub data Settled {ℓ} (lib : JsonLib) {A : Type ℓ} (empty : A) (read : lib.Json → Exc A)
    (answer : Exc lib.Json) (r : Reply A) : Type ℓ where
  taken :
      (resp : lib.Json)
      → answer ≡ ok resp
      → lib.value_bool resp (codes "ok") false ≡ ok true
      → read resp ≡ ok r.0
      → r.1 ≡ none
      → Settled lib empty read answer r
  refused : r.0 ≡ empty → (what : Str) → r.1 ≡ some what → Settled lib empty read answer r

module _ {ℓ} (lib : JsonLib) {A : Type ℓ} (empty : A) (fallback : Str)
    (read : lib.Json → Exc A) where
  reading-Settled :
      (resp : lib.Json)
      → Settled lib empty read (ok resp) (settle lib empty (reading lib empty fallback read resp))
  unfolding settle reading
  reading-Settled resp = elim (Exc-cases (lib.value_bool resp (codes "ok") false)) [
    | inl (what, e) ↦ rw e (refused refl what refl)
    | inr (true, e) ↦ elim (Exc-cases (read resp)) [
      | inl (what, f) ↦ rw (e, f) (refused refl what refl)
      | inr (a, f) ↦ rw (e, f) (taken resp refl e f refl)
    ]
    | inr (false, e) ↦ elim (Exc-cases (lib.value_text resp (codes "error") fallback)) [
      | inl (what, f) ↦ rw (e, f) (refused refl what refl)
      | inr (what, f) ↦ rw (e, f) (refused refl what refl)
    ]
  ]

  pub guarded-Settled :
      (answer : Exc lib.Json)
      → Settled lib empty read answer (guarded lib empty fallback read answer)
  unfolding guarded settle
  guarded-Settled (throw what) = refused refl what refl
  guarded-Settled (ok resp) = reading-Settled resp

module _ (lib : JsonLib) (send : Map Str lib.Json → ℕ → Exc lib.Json) where
  -- The answer to an operation's request on a folder or on an item.
  abbrev pub at_folder_answer : Str → Str → Str → Exc lib.Json
  at_folder_answer op repo folder = send (at_folder lib send op repo folder) 15000

  abbrev pub at_item_answer : Str → Str → Str → Str → Exc lib.Json
  at_item_answer op repo folder item = send (at_item lib send op repo folder item) 15000

  -- Whatever the bridge answers, listing items and subfolders, versions and check-outs, and opening
  -- a database, which waits two minutes, each return what is read off an answer whose flag is set,
  -- with no error, or the empty result with an error's text: a list or an export is never cut short.
  pub operations-Settled :
      (repo folder item : Str) (version : ℤ)
      → Settled lib []
          (elements_of lib (item_from_json lib) (codes "items"))
          (at_folder_answer (codes "list_items") repo folder)
          (list_items lib send repo folder)
        × Settled lib []
            (elements_of lib lib.get_text (codes "subfolders"))
            (at_folder_answer (codes "get_subfolders") repo folder)
            (get_subfolders lib send repo folder)
        × Settled lib []
            (elements_of lib (version_from_json lib) (codes "versions"))
            (at_item_answer (codes "get_versions") repo folder item)
            (get_versions lib send repo folder item)
        × Settled lib []
            (elements_of lib (checkout_from_json lib) (codes "checkouts"))
            (at_item_answer (codes "get_checkouts") repo folder item)
            (get_checkouts lib send repo folder item)
        × Settled lib empty_export
            (parse_db_export_json lib)
            (send
              (at_item lib send (codes "open_db") repo folder item
                ++ (codes "version", lib.of_int version) ∷ [])
              120000)
            (open_database lib send repo folder item version)
  unfolding list_items get_subfolders get_versions get_checkouts open_database
  operations-Settled repo folder item version = (
    guarded-Settled lib [] [] _ _,
    guarded-Settled lib [] [] _ _,
    guarded-Settled lib [] [] _ _,
    guarded-Settled lib [] [] _ _,
    guarded-Settled lib empty_export _ _ _,
  )
