-- ===== src/Stuck/Calls.antt =====
-- core/stuck.py: the tool calls of an agent's transcript, each with its result once it is read.
use Prim.Native.String.{◌++◌ as text_append}
use ctrlrelay.Base.{
  ℕ, Bool, true, false, String, Option, none, some, List, [], ◌∷◌, ltb, text_is, if◌then◌else◌,
}

-- `_Call`; `id` is the id under which `by_id` holds it.
pub record ToolCall : Type 0 where
  pub id : Option String
  pub key : String
  pub name : String
  pub ok : Option Bool
  pub error : Option String
  pub result : Option String

-- An item of a message's content: a tool's use (its name where it has one, its input as sorted JSON),
-- a tool's result (whether `is_error` is True, the fingerprint of its text), or anything else.
pub data Item : Type 0 where
  tool_use : Option String → String → Option String → Item
  tool_result : Option String → Bool → String → Item
  other : Item

-- A row that `json.loads` reads as an object: its "type", its "timestamp" where `_epoch` reads it, and
-- the content of its message where that is a list.
pub record Row : Type 0 where
  pub type : Option String
  pub timestamp : Option ℕ
  pub content : Option (List Item)

-- Rows stamped before `since` are left out, and those without a time.
abbrev pub is_left_out : Option ℕ → Option ℕ → Bool
is_left_out none ts = false
is_left_out (some since) none = true
is_left_out (some since) (some ts) = ltb ts since

-- A result goes to the last call under its id, which is the one that `by_id` holds.
abbrev pub set_or_keep :
    (ToolCall → ToolCall)
    → Bool
    → ToolCall
    → List ToolCall
    → Option (List ToolCall)
    → Option (List ToolCall)
set_or_keep f here c cs (some later) = some (c ∷ later)
set_or_keep f true c cs none = some (f c ∷ cs)
set_or_keep f false c cs none = none

unfoldable pub set_last : String → (ToolCall → ToolCall) → List ToolCall → Option (List ToolCall)
set_last id f [] = none
set_last id f (c ∷ cs) = set_or_keep f (text_is c.id id) c cs (set_last id f cs)

abbrev pub with_result : Bool → String → ToolCall → ToolCall
with_result true fingerprint c = record {
  id = c.id;
  key = c.key;
  name = c.name;
  ok = some false;
  error = some fingerprint;
  result = some fingerprint;
}
with_result false fingerprint c = record {
  id = c.id;
  key = c.key;
  name = c.name;
  ok = some true;
  error = c.error;
  result = some fingerprint;
}

abbrev pub or_same : List ToolCall → Option (List ToolCall) → List ToolCall
or_same calls none = calls
or_same calls (some changed) = changed

abbrev pub new_call : String → String → Option String → ToolCall
new_call name tool_input id = record {
  id = id;
  key = text_append name tool_input;
  name = name;
  ok = none;
  error = none;
  result = none;
}

unfoldable pub append_call : ToolCall → List ToolCall → List ToolCall
append_call c [] = c ∷ []
append_call c (d ∷ cs) = d ∷ append_call c cs

unfoldable pub read_item : Option String → Item → List ToolCall → List ToolCall
read_item type (tool_use (some name) tool_input id) calls =
    if text_is type "assistant" then append_call (new_call name tool_input id) calls else calls
read_item type (tool_result (some id) is_error fingerprint) calls =
    if text_is type "user"
    then or_same calls (set_last id (with_result is_error fingerprint) calls)
    else calls
read_item type item calls = calls

unfoldable pub read_items : Option String → List Item → List ToolCall → List ToolCall
read_items type [] calls = calls
read_items type (item ∷ items) calls = read_items type items (read_item type item calls)

abbrev pub read_content : Option String → Option (List Item) → List ToolCall → List ToolCall
read_content type none calls = calls
read_content type (some items) calls = read_items type items calls

abbrev pub read_row : Option ℕ → Row → List ToolCall → List ToolCall
read_row since row calls =
    if is_left_out since row.timestamp then calls else read_content row.type row.content calls

-- `_calls`, over the lines that could be read.
unfoldable pub calls_of : Option ℕ → List Row → List ToolCall → List ToolCall
calls_of since [] calls = calls
calls_of since (row ∷ rows) calls = calls_of since rows (read_row since row calls)
