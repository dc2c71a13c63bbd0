-- ===== src/Adapters/Langchain/Messages.antt =====
-- `Db2ChatMessageHistory` of src/agent_memory_sdk/adapters/langchain.py, and how a message of
-- langchain_core becomes the content and the metadata of a row and back.
pub mod RoundTrip
use yaadien.Prelude.{
  ℕ, Bool, true, false, Option, none, some, List, [], ◌∷◌, map, codes, text_eq, if◌then◌else◌,
}
use yaadien.Model.{Ident, Text, Result, ok, err, ◌>>=◌, MemoryScope, Memory}
use yaadien.Db.{Db, Env, working_memory}
use yaadien.Repository.Read.{list_all}
use yaadien.Store.Pipeline.{Pipeline, StoreState}
use yaadien.Store.Ingest.{remember}
use yaadien.Store.Entry.{tick_state}
use yaadien.Adapters.{fresh_record, forget_each}
use yaadien.Adapters.Json.{
  Json, string, array, object, Items, nil, item, Fields, end, field, Python, get, get_or, is_truthy,
  fields_of,
}
use mathlib.Core.List.{reverse}

-- the class of a message; `other` is one that the adapter does not name
pub data MessageClass : Type 0 where
  human ai system tool function chat : MessageClass
  other : Text → MessageClass

abbrev pub class_name : MessageClass → Text
class_name human = codes "HumanMessage"
class_name ai = codes "AIMessage"
class_name system = codes "SystemMessage"
class_name tool = codes "ToolMessage"
class_name function = codes "FunctionMessage"
class_name chat = codes "ChatMessage"
class_name (other name) = name

-- `_CLASS_TO_ROLE.get(name, "unknown")`
abbrev pub role_of_class : MessageClass → Text
role_of_class human = codes "human"
role_of_class ai = codes "ai"
role_of_class system = codes "system"
role_of_class tool = codes "tool"
role_of_class function = codes "function"
role_of_class chat = codes "chat"
role_of_class (other name) = codes "unknown"

-- A message as the adapter reads it. An attribute that the class lacks is `none`, or the empty list.
pub record BaseMessage : Type 0 where
  pub class : MessageClass
  pub content : Json
  pub additional_kwargs : Fields
  pub response_metadata : Json
  pub tool_call_id : Option Json
  pub tool_calls : List Fields
  pub id : Option Text
  pub name : Option Text

-- what the adapter gives to the constructor of a message class
pub record Construction : Type 0 where
  pub class : MessageClass
  pub content : Json
  pub tool_call_id : Option Json
  pub tool_calls : Option Json
  pub additional_kwargs : Json
  pub response_metadata : Json

-- The constructors of langchain_core, which give `none` where they raise.
abbrev pub Constructors : Type 0
Constructors = Construction → Option BaseMessage

-- the three items that are kept of a tool call
unfoldable pub kept_call : Fields → Fields
unfolding get
kept_call call = field (codes "id") (get_or (string []) (codes "id") call) (
    field (codes "name") (get_or (string []) (codes "name") call)
      (field (codes "args") (get_or (object end) (codes "args") call) end))

abbrev pub call_items : List Fields → Items
call_items [] = nil
call_items (call ∷ l) = item (object call) (call_items l)

-- an item of the metadata, if there is a value
abbrev pub optional_field : Text → Option Json → Fields → Fields
optional_field name none rest = rest
optional_field name (some value) rest = field name value rest

abbrev pub calls_json : List Fields → Option Json
calls_json [] = none
calls_json (call ∷ l) = some (array (call_items (call ∷ l)))

abbrev pub id_json : Option Text → Option Json
id_json none = none
id_json (some []) = none
id_json (some (c ∷ s)) = some (string (c ∷ s))

unfoldable pub message_to_metadata : BaseMessage → Fields
unfolding get
message_to_metadata m = field (codes "lc_type") (string (class_name m.class)) (
    field (codes "role") (string (role_of_class m.class)) (
      field (codes "additional_kwargs") (object m.additional_kwargs) (
        field (codes "response_metadata") m.response_metadata (
          optional_field (codes "tool_call_id") m.tool_call_id (
            optional_field (codes "tool_calls") (calls_json (map kept_call m.tool_calls))
              (optional_field (codes "lc_id") (id_json m.id) end))))))

unfoldable pub content_to_str : Python → Json → Text
content_to_str py (string s) = s
content_to_str py j = py.dumps j

-- A text that is JSON for a list is taken for structured content.
abbrev pub raw_content : Text → Option Json → Json
raw_content content (some (array items)) = array items
raw_content content _ = string content

-- `cls_map.get(lc_type)`
abbrev pub class_of_name : Text → Option MessageClass
unfolding text_eq
class_of_name name =
    if text_eq name (codes "HumanMessage")
    then some human
    else if text_eq name (codes "AIMessage")
    then some ai
    else if text_eq name (codes "SystemMessage")
    then some system
    else if text_eq name (codes "ToolMessage")
    then some tool
    else if text_eq name (codes "FunctionMessage")
    then some function
    else none

-- `role_cls_map.get(role, HumanMessage)`
abbrev pub class_of_role : Text → MessageClass
unfolding text_eq
class_of_role role =
    if text_eq role (codes "ai")
    then ai
    else if text_eq role (codes "assistant")
    then ai
    else if text_eq role (codes "system")
    then system
    else if text_eq role (codes "tool")
    then tool
    else human

-- a text, or the empty one for another value, which is no key of the two maps
abbrev pub text_of : Option Json → Text
text_of (some (string s)) = s
text_of _ = []

abbrev pub chosen_class : Option MessageClass → Text → MessageClass
unfolding text_eq
chosen_class (some class) role = class
chosen_class none role = class_of_role role

-- `metadata.get("tool_calls")`, where it is truthy
abbrev pub truthy_calls : Python → Option Json → Option Json
truthy_calls py none = none
truthy_calls py (some calls) = elim (is_truthy py calls) [ true ↦ some calls | false ↦ none ]

-- The arguments by `lc_type`, for which the class of that name stands.
abbrev pub construction : Python → Option MessageClass → MessageClass → Json → Fields → Construction
unfolding get
construction py lc_type class content metadata = record {
  class = class;
  content = content;
  tool_call_id = elim lc_type [
    | some tool ↦ some (get_or (string []) (codes "tool_call_id") metadata)
    | _ ↦ none
  ];
  tool_calls = elim lc_type [
    | some ai ↦ truthy_calls py (get (codes "tool_calls") metadata)
    | _ ↦ none
  ];
  additional_kwargs = get_or (object end) (codes "additional_kwargs") metadata;
  response_metadata = get_or (object end) (codes "response_metadata") metadata;
}

-- `HumanMessage(content=content)`
abbrev pub stub : Text → Construction
stub content = record {
  class = human;
  content = string content;
  tool_call_id = none;
  tool_calls = none;
  additional_kwargs = object end;
  response_metadata = object end;
}

-- the message with the stored id, if there is one that is not empty
abbrev pub with_id : Text → BaseMessage → BaseMessage
with_id [] m = m
with_id (c ∷ s) m = record m { id = some (c ∷ s) }

unfoldable pub metadata_to_message : Python → Constructors → Text → Fields → Option BaseMessage
unfolding get text_eq
metadata_to_message py build content metadata =
    let lc_type = class_of_name (text_of (get (codes "lc_type") metadata)) in
    let class = chosen_class lc_type (text_of (get (codes "role") metadata)) in
    let made =
      build (construction py lc_type class (raw_content content (py.loads content)) metadata) in
    elim made [
      | none ↦ build (stub content)
      | some m ↦ some (with_id (text_of (get (codes "lc_id") metadata)) m)
    ]

-- the messages of the rows; one that raises is left out
unfoldable pub readable : Python → Constructors → List Memory → List BaseMessage
unfolding metadata_to_message
readable py build [] = []
readable py build (m ∷ l) =
    let rest = readable py build l in
    elim (metadata_to_message py build m.content (fields_of (py.loads m.metadata))) [
      | none ↦ rest
      | some message ↦ message ∷ rest
    ]

unfoldable pub messages : Env → Python → Constructors → MemoryScope → Db → Result (List BaseMessage)
unfolding list_all readable
messages e py build scope db = do
  newest_first ← list_all e working_memory scope 1000 0 false 0 none db
  ok (readable py build (reverse newest_first))

unfoldable pub add_message :
    Env → Pipeline → Python → MemoryScope → BaseMessage → StoreState → Result Memory × StoreState
unfolding remember content_to_str message_to_metadata
add_message e p py scope m s =
    remember e p working_memory
      (fresh_record e scope (content_to_str py m.content)
        (py.dumps (object (message_to_metadata m))) s.db)
      scope (tick_state s)

-- an exception ends the loop and leaves what is written
unfoldable pub add_messages :
    Env
    → Pipeline
    → Python
    → MemoryScope
    → List BaseMessage
    → StoreState
    → Result (Unit {0}) × StoreState
unfolding add_message
add_messages e p py scope [] s = (ok tt, s)
add_messages e p py scope (m ∷ l) s =
    let step = add_message e p py scope m s in
    let rest = add_messages e p py scope l step.1 in
    elim step.0 [ err x ↦ (err x, step.1) | ok stored ↦ rest ]

unfoldable pub clear : Env → MemoryScope → Db → Result (Unit {0}) × Db
unfolding list_all forget_each
clear e scope db = elim (list_all e working_memory scope 1000 0 false 0 none db) [
  | err x ↦ (err x, db)
  | ok rows ↦ forget_each e scope rows db
]
