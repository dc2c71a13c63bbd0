-- ===== src/Adapters/AgentFramework/Messages.antt =====
-- src/agent_memory_sdk/adapters/agent_framework.py: a message of the framework, the text that is stored
-- for it, and the dict that is made of a stored text.
use yaadien.Prelude.{Option, none, some, [], codes}
use yaadien.Model.{Text}
use yaadien.Adapters.Json.{
  Json, null, string, object, Fields, end, field, Python, get, get_or, set_default, str,
}

-- A message of the framework: a dict, or an object with the attributes `role`, `text` and `content`
-- as far as it has them.
pub data Message : Type 0 where
  dict : Fields → Message
  attributes : Option Json → Option Json → Option Json → Message

abbrev value_or : Json → Option Json → Json
value_or fallback none = fallback
value_or fallback (some value) = value

unfoldable pub message_role : Python → Message → Text
unfolding get
message_role py (dict fields) = str py (get_or (string (codes "unknown")) (codes "role") fields)
message_role py (attributes role text content) = str py (value_or (string (codes "unknown")) role)

-- a string as it is, any other value as JSON
abbrev as_text : Python → Json → Text
as_text py (string s) = s
as_text py j = py.dumps j

-- `getattr(message, "text", None)`, and the content where that is None
abbrev text_or_content : Option Json → Option Json → Json
text_or_content none content = value_or (string []) content
text_or_content (some null) content = value_or (string []) content
text_or_content (some value) content = value

unfoldable pub message_text : Python → Message → Text
unfolding get
message_text py (dict fields) =
    as_text py (get_or (get_or (string []) (codes "content") fields) (codes "text") fields)
message_text py (attributes role text content) = as_text py (text_or_content text content)

-- `{"role": …, "text": …}`
abbrev pub message_dict : Text → Text → Fields
message_dict role text = field (codes "role") (string role) (field (codes "text") (string text) end)

unfoldable pub message_to_content : Python → Message → Text
unfolding message_role message_text
message_to_content py m = py.dumps (object (message_dict (message_role py m) (message_text py m)))

-- The dict of a stored text; a text that is JSON but no dict has no `setdefault`, and raises.
abbrev parsed_dict : Text → Option Json → Option Fields
parsed_dict content none = some (message_dict (codes "unknown") content)
parsed_dict content (some (object fields)) = some (
    set_default (codes "text") (string [])
      (set_default (codes "role") (string (codes "unknown")) fields))
parsed_dict content (some _) = none

unfoldable pub content_to_message_dict : Python → Text → Option Fields
unfolding set_default
content_to_message_dict py content = parsed_dict content (py.loads content)
