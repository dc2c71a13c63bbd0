-- ===== src/Adapters/Langchain/Messages/RoundTrip.antt =====
-- A message that is stored and read back.
use yaadien.Prelude.{◌≡◌, ◌≢◌, Option, none, some, List, [], map, codes, text_eq}
use yaadien.Model.{Text}
use yaadien.Adapters.Json.{Json, string, array, object, Items, Fields, end, Python, RoundTrips, get}
use yaadien.Adapters.Langchain.Messages.{
  MessageClass, human, ai, system, tool, function, BaseMessage, Construction, Constructors,
  class_of_name, text_of, construction, chosen_class, kept_call, calls_json, id_json,
  optional_field, raw_content, content_to_str, message_to_metadata,
}

-- What langchain_core documents of its constructors: the message has the fields that are given, and no
-- id and no name. A FunctionMessage needs a name, which the adapter does not give.
abbrev pub Builds : Constructors → Type 0
Builds build =
    (c : Construction) (kwargs : Fields) (calls : List Fields)
    → c.additional_kwargs ≡ object kwargs
    → c.tool_calls ≡ calls_json calls
    → c.class ≢ function
    → build c
      ≡ some (record {
        class = c.class;
        content = c.content;
        additional_kwargs = kwargs;
        response_metadata = c.response_metadata;
        tool_call_id = c.tool_call_id;
        tool_calls = calls;
        id = none;
        name = none;
      })

-- What a class has beside the fields of every message: a tool message the id of its call, a message of
-- the model calls with the three items that are kept.
abbrev pub HasParts : MessageClass → Option Json → List Fields → Type 0
HasParts human none [] = Unit
HasParts system none [] = Unit
HasParts tool (some j) [] = Unit
HasParts ai none calls = map kept_call calls ≡ calls
HasParts _ _ _ = ⊥

-- a list, or a text that is not JSON for a list
abbrev pub IsContent : Python → Json → Type 0
IsContent py (string s) = (items : Items) → py.loads s ≢ some (array items)
IsContent py (array items) = Unit
IsContent py _ = ⊥

module _ (py : Python) (build : Constructors) (loads : RoundTrips py) (builds : Builds build) where
  abbrev message :
      MessageClass → Json → Fields → Json → Option Json → List Fields → Option Text → BaseMessage
  message c j kwargs response t calls i = record {
    class = c;
    content = j;
    additional_kwargs = kwargs;
    response_metadata = response;
    tool_call_id = t;
    tool_calls = calls;
    id = i;
    name = none;
  }

  -- the id is the last item of the metadata
  abbrev id_item : Option Text → Fields
  id_item i = optional_field (codes "lc_id") (id_json i) end

  module _ (j : Json) (kwargs : Fields) (response : Json) (i : Option Text) where
    abbrev stored : MessageClass → Option Json → List Fields → BaseMessage
    stored c t calls = message c j kwargs response t calls i

    abbrev raw : Json
    raw = raw_content (content_to_str py j) (py.loads (content_to_str py j))

    -- The constructor gets what the message had, and the id stands in the metadata.
    abbrev IsKept : MessageClass → Option Json → List Fields → Type 0
    unfolding message_to_metadata get text_eq
    IsKept c t calls =
        let metadata = message_to_metadata (stored c t calls) in
        let lc_type = class_of_name (text_of (get (codes "lc_type") metadata)) in
        (build (
            construction py lc_type (chosen_class lc_type (text_of (get (codes "role") metadata)))
              raw metadata)
          ≡ some (message c raw kwargs response t calls none))
        × (get (codes "lc_id") metadata ≡ id_json i)
