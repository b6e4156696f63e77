-- ===== src/Checkin/Converge/Symbols.antt =====
-- Symbols: a check-in leaves no rename and no new symbol for the next preview.
use ghidra_svr_bridge.Prelude.{
  ℕ, true, false, List, [], Option, Str, ℤ, Map, ◌≡◌, refl, ap, ◌∙◌, arith, ◌==◌, nat_eq,
  nat_beq_iff, fold, fold-inv, filter_map-nil, filter_map-All, In, lookup, lookup-insert, has,
  get_or, some, subst,
}
use ghidra_svr_bridge.Model.Preview.{SymbolRename}
use ghidra_svr_bridge.Model.Baseline.{CheckinState}
use ghidra_svr_bridge.Model.View.{BnSymbol, BnView}
use ghidra_svr_bridge.Collect.Symbols.{
  original_name, rename_of, collect_renames, new_symbols_from, collect_new_symbols,
}
use ghidra_svr_bridge.Collect.Preview.{collect_preview}
use ghidra_svr_bridge.Checkin.Update.{
  update_rename, update_new_symbol, update_names, update_baseline,
}
use ghidra_svr_bridge.Checkin.Frame.{update_baseline-symbols, update_baseline-names}
use ghidra_svr_bridge.Checkin.Converge.Renames.{
  has-In, rename_of-fields, rename_of-nil, renamed-Holds,
}
use ghidra_svr_bridge.Checkin.Converge.NewSymbols.{
  lookup-update_new_symbol, new_symbols-unknown, settled,
}

module _ (view : BnView) (s : CheckinState) where
  renamed : Map ℕ Str
  renamed = fold update_rename s.addr_to_original_name (collect_renames view s)

  -- A rename is written for a symbol that Ghidra knows.
  lookup-renamed :
      (a : ℕ) → has a s.addr_to_key ≡ false → lookup a renamed ≡ lookup a s.addr_to_original_name
  unfolding renamed collect_renames update_rename
  lookup-renamed a unknown =
      fold-inv (λ m. lookup a m ≡ lookup a s.addr_to_original_name) (λ r. (r.addr == a) ≡ false)
        update_rename (λ m r ne h. lookup-insert r.addr a r.new_name m ∙ rw ne h) _ _
        (filter_map-All (λ r. (r.addr == a) ≡ false) (rename_of view s) s.addr_to_key known) refl
    where
      apart : (b c : ℕ) → has b s.addr_to_key ≡ true → c ≡ b → (c == a) ≡ false
      apart b c k e = ground (arith, nat_beq_iff c a)

      known :
          (x : ℕ × ℤ) (r : SymbolRename)
          → In x s.addr_to_key
          → rename_of view s x ≡ some r
          → (r.addr == a) ≡ false
      known (b, k) r i e =
          apart b r.addr (has-In s.addr_to_key b k i) (rename_of-fields view s b k r e).0

  module _ (rebase : ℕ) (added : List (Str × Option ℤ)) where
    abbrev pub after_checkin : CheckinState
    after_checkin = update_baseline rebase s added (collect_preview view s)

    keys : after_checkin.addr_to_key ≡ s.addr_to_key
    keys = ap (λ x. x.0) (update_baseline-symbols rebase s added (collect_preview view s))

    names :
        after_checkin.addr_to_original_name
        ≡ fold update_new_symbol renamed (new_symbols_from s [] view.symbols)
    unfolding renamed update_names collect_preview collect_new_symbols
    names = update_baseline-names rebase s added (collect_preview view s)

    original_name-after :
        (a : ℕ) (k : ℤ) (y : BnSymbol)
        → In (a, k) s.addr_to_key
        → view.symbol_at a ≡ some y
        → original_name after_checkin a ≡ y.full_name
    unfolding renamed
    original_name-after a k y i e =
        ap (λ m. get_or (lookup a m) []) names
        ∙ ap (λ o. get_or o [])
            (lookup-update_new_symbol a _ renamed
              (new_symbols-unknown s a view.symbols (has-In s.addr_to_key a k i)))
        ∙ renamed-Holds view s a y e k i

    -- Whatever symbols a view shows, a check-in records every rename and every new symbol of its
    -- preview: a second preview of the same view holds neither.
    pub symbols_settle :
        (collect_renames view after_checkin ≡ []) × (collect_new_symbols view after_checkin ≡ [])
    unfolding collect_renames collect_new_symbols
    symbols_settle = (
      filter_map-nil (rename_of view after_checkin) after_checkin.addr_to_key (λ x i.
          rename_of-nil view after_checkin x.0 x.1
            (λ y e. original_name-after x.0 x.1 y (subst (In x) keys i) e)),
      settled s after_checkin keys view.symbols [] renamed (λ a o. lookup-renamed a o.0) names,
    )
