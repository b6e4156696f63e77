-- ===== src/Tests/Wire.antt =====
-- The theorems on JSON, on lines and on requests, at work with a small JSON of their own.
use ghidra_svr_bridge.Prelude.{
  Bool, true, false, List, [], ◌∷◌, Option, none, some, Str, codes, ℤ, pos, Map, Exc, ok, throw,
  ◌≡◌, refl, arith, ◌==◌, str_eq, str_beq, nat_eq, if◌then◌else◌, is_some,
}
use ghidra_svr_bridge.Hex.{to_hex, parse_hex_addr}
use ghidra_svr_bridge.Address.{ghidra_va, apply_rebase}
use ghidra_svr_bridge.Model.Export.{GhidraDbExport}
use ghidra_svr_bridge.Model.Preview.{CommentChange}
use ghidra_svr_bridge.Sync.Writeback.{build_writeback_maps}
use ghidra_svr_bridge.Sync.Writeback.Columns.{Columned, build_writeback_maps-Columned}
use ghidra_svr_bridge.Wire.Library.{JsonLib}
use ghidra_svr_bridge.Wire.Decode.{elements, decode_func, parse_db_export_json}
use ghidra_svr_bridge.Wire.Encode.{comment_entry}
use ghidra_svr_bridge.Wire.Signatures.{Signed, parse_db_export_json-Signed}
use ghidra_svr_bridge.Wire.Routing.{sent_address, IsRouted, comment_entry-route}
use ghidra_svr_bridge.Collect.Symbols.{collect_renames, collect_new_symbols}
use ghidra_svr_bridge.Collect.Preview.{collect_preview}
use ghidra_svr_bridge.Checkin.Request.{Links, checkin, accept}
use ghidra_svr_bridge.Checkin.Request.Outcome.{Settled, checkin-Settled, checkin-symbols}
use ghidra_svr_bridge.Tests.Data.{shown_view, kept_state}

mutual
  pub data Value : Type 0 where
    null : Value
    flag : Bool → Value
    number : ℤ → Value
    text : Str → Value
    members : Members → Value
    values : Values → Value

  pub data Members : Type 0 where
    end : Members
    entry : Str → Value → Members → Members

  pub data Values : Type 0 where
    stop : Values
    cell : Value → Values → Values

abbrev pub find_in : Str → Members → Option Value
find_in k end = none
find_in k (entry j v m) = if j == k then some v else find_in k m

abbrev pub field : Value → Str → Option Value
field (members m) k = find_in k m
field _ k = none

abbrev pub cells : Values → List Value
cells stop = []
cells (cell v vs) = v ∷ cells vs

abbrev pub text_or : Option Value → Str → Exc Str
text_or none d = ok d
text_or (some (text t)) d = ok t
text_or (some _) d = throw (codes "type_error")

abbrev pub number_or : Option Value → ℤ → Exc ℤ
number_or none d = ok d
number_or (some (number n)) d = ok n
number_or (some _) d = throw (codes "type_error")

abbrev pub flag_or : Option Value → Bool → Exc Bool
flag_or none d = ok d
flag_or (some (flag b)) d = ok b
flag_or (some _) d = throw (codes "type_error")

abbrev pub or_null : Option Value → Value
or_null none = null
or_null (some v) = v

abbrev pub cells_of : Value → List Value
cells_of (values vs) = cells vs
cells_of _ = []

abbrev pub from_map : Map Str Value → Members
from_map [] = end
from_map ((k, v) ∷ m) = entry k v (from_map m)

abbrev pub from_list : List Value → Values
from_list [] = stop
from_list (v ∷ vs) = cell v (from_list vs)

-- A text stands for itself; `parse` reads an answer to the request 1.
abbrev pub small_json : JsonLib
small_json = record {
  Json = Value;
  parse = λ s. ok (members (entry (codes "id") (number (pos 1)) end));
  dump = λ v. codes "request";
  contains = λ j k. is_some (field j k);
  at = λ j k. or_null (field j k);
  items = cells_of;
  is_object = λ j. false;
  is_number = λ j. false;
  members = λ j. [];
  get_long = λ j. pos 0;
  get_text = λ j. text_or (some j) [];
  get_int = λ j. number_or (some j) (pos 0);
  value_text = λ j k d. text_or (field j k) d;
  value_long = λ j k d. number_or (field j k) d;
  value_int = λ j k d. number_or (field j k) d;
  value_bool = λ j k d. flag_or (field j k) d;
  set_member = λ j k v. j;
  of_text = text;
  of_int = number;
  of_bool = flag;
  object = λ m. members (from_map m);
  array = λ vs. values (from_list vs);
}

abbrev func_answer : Value
func_answer = members (
    entry (codes "func_flags")
      (values (
        cell
          (members (
            entry (codes "key") (number (pos 9)) (entry (codes "cc") (text (codes "__cdecl")) end)))
          stop))
      end)

abbrev func_export : GhidraDbExport
func_export = record {
  symbols = [];
  comments = [];
  func_flags = record { key = pos 9; is_thunk = false; no_return = false; is_inline = false } ∷ [];
  func_sigs =
      record {
        key = pos 9;
        calling_convention = codes "__cdecl";
        return_type_name = [];
        return_type_id = ℤ.negsuc 0;
      }
      ∷ [];
  equates = [];
  bookmarks = [];
  parameters = [];
  data_types = [];
  data_items = [];
  memory_blocks = [];
  xref_stats = record { from_count = pos 0; to_count = pos 0 };
  diag = [];
  image_base = parse_hex_addr (codes "0x0");
}

func_answer-parsed : parse_db_export_json small_json func_answer ≡ ok func_export
unfolding parse_db_export_json elements decode_func str_beq
func_answer-parsed = refl

parse_db_export_json-Signed_example : Signed func_export
parse_db_export_json-Signed_example =
    parse_db_export_json-Signed small_json func_answer func_export func_answer-parsed

sent_address_example : apply_rebase 4096 (parse_hex_addr (to_hex (ghidra_va 4096 8192))) ≡ 8192
sent_address_example = sent_address 4096 8192 (omega arith) (omega arith)

abbrev new_comment : CommentChange
new_comment = record { addr = 4112; text = codes "loop"; encoded_key = codes "k" }

-- The comment of the export at the same address stands before its instruction.
abbrev noted_export : GhidraDbExport
noted_export = record func_export {
  comments =
      record {
        addr = 16;
        eol = [];
        pre = codes "start";
        post = [];
        plate = [];
        rep = [];
        encoded_key = codes "k";
      }
      ∷ [];
}

comment_entry-route_example :
    IsRouted small_json 4096 []
      (build_writeback_maps (some 4096) noted_export).addr_to_comment_field
      new_comment
      (comment_entry small_json 4096 []
        (build_writeback_maps (some 4096) noted_export).addr_to_comment_field
        new_comment)
comment_entry-route_example =
    comment_entry-route small_json (some 4096) noted_export 4096 [] new_comment (omega arith)
      (omega arith)

build_writeback_maps-Columned_example :
    Columned (build_writeback_maps (some 4096) noted_export).addr_to_comment_field
build_writeback_maps-Columned_example = build_writeback_maps-Columned (some 4096) noted_export

-- A bridge that takes every check-in.
abbrev agree : Map Str Value → Exc Value
agree req = ok (members (entry (codes "ok") (flag true) end))

abbrev both_links : Links
both_links = record { bridge = true; server = true }

checkin-Settled_example :
    Settled small_json agree both_links 4096 (collect_preview shown_view kept_state) [] kept_state (
      checkin small_json agree both_links 4096
        (collect_preview shown_view kept_state)
        []
        kept_state)
checkin-Settled_example =
    checkin-Settled small_json agree both_links 4096 (collect_preview shown_view kept_state) []
      kept_state

agreed :
    (checkin small_json agree both_links 4096
      (collect_preview shown_view kept_state)
      []
      kept_state).1
    ≡ none
unfolding checkin accept str_beq
agreed = refl

checkin-symbols_example :
    (collect_renames shown_view
        (checkin small_json agree both_links 4096
          (collect_preview shown_view kept_state)
          []
          kept_state).0
      ≡ [])
    × (collect_new_symbols shown_view
          (checkin small_json agree both_links 4096
            (collect_preview shown_view kept_state)
            []
            kept_state).0
        ≡ [])
checkin-symbols_example =
    checkin-symbols small_json agree both_links shown_view [] kept_state agreed
