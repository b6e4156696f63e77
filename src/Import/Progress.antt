-- ===== src/Import/Progress.antt =====
-- `applyToView`: what its loops pass on, and what several of them look up.
use ghidra_svr_bridge.Prelude.{
  ℕ, ◌-◌, ◌%◌, Option, none, some, Str, codes, ℤ, pos, negsuc, Map, ◌==◌, nat_eq, find,
}
use ghidra_svr_bridge.Hex.{word}
use ghidra_svr_bridge.Sync.Result.{SyncResult}
use ghidra_svr_bridge.Import.Api.{BnApi, add_tag_type}

-- The view so far, `result` and `keyToAddr`.
pub record Progress (V : Type 0) : Type 0 where
  pub view : V
  pub result : SyncResult
  pub key_to_addr : Map ℤ ℕ

-- `(uint64_t)v` of a signed number.
unfoldable pub to_u64 : ℤ → ℕ
to_u64 (pos n) = n % word
to_u64 (negsuc n) = word - 1 - n % word

module _ (api : BnApi) where
  -- The function that starts at an address, among those that hold it.
  unfoldable pub function_starting : api.View → ℕ → Option api.handles.Function
  function_starting view addr =
      find (λ f. api.function_start f == addr) (api.functions_at view addr)

  -- `getOrCreateTagType`, on what `GetTagType` finds.
  abbrev found_or_created :
      api.View → Str → Option api.handles.TagType → api.View × api.handles.TagType
  found_or_created view name (some tt) = (view, tt)
  found_or_created view name none =
      let made = api.new_tag_type name (codes "G") in (api.perform (add_tag_type made) view, made)

  unfoldable pub get_or_create_tag_type : api.View → Str → api.View × api.handles.TagType
  get_or_create_tag_type view name = found_or_created view name (api.tag_type view name)
