-- ===== src/Adapter.antt =====
-- backend/app/kernel/model/adapter.py: an assembled turn as a provider's request, and its response as the
-- port's completion. The provider's library is a parameter: `request` is `model_request`, and `Response`
-- holds what the source reads of its response. `loads` is `json.loads`, none where it raises.
use agent_quilt.Base.{
  ℕ, Bool, Option, none, some, String, List, [], ◌∷◌, map, find, str_eq, ◌||◌, if◌then◌else◌,
  concat,
}
use agent_quilt.Json.{
  Json, JsonValue, JsonItems, null, boolean, number, negative, decimal, text, array, object, nil,
  item, end, field, get,
}
use agent_quilt.Store.{Result, ok, raise, value_error, type_error, key_error, TierBinding}
use agent_quilt.Context.{PrefixLayer, l5, same_slot, AssembledTurn, Slice}
use agent_quilt.Model.{Completion}
use agent_quilt.Step.{join_paragraphs}

-- `ToolDefinition` of the library: the casts of the source check nothing.
pub record OfferedTool : Type 0 where
  pub name : JsonValue
  pub parameters_json_schema : JsonValue
  pub description : JsonValue

pub record ResponseCall : Type 0 where
  pub tool_name : String
  pub args : Json
  pub tool_call_id : String

pub record Response : Type 0 where
  pub text : Option String
  pub tool_calls : List ResponseCall
  pub input_tokens : ℕ
  pub output_tokens : ℕ
  pub cache_read_tokens : ℕ
  pub cache_write_tokens : ℕ

-- `instructions`
unfoldable pub prefix_text : List PrefixLayer → String
unfolding join_paragraphs
prefix_text layers = join_paragraphs (map (λ (l : PrefixLayer). l.body) layers)

abbrev pub values : JsonItems → List JsonValue
values nil = []
values (item v rest) = v ∷ values rest

-- What a `for` goes over; the keys of a dictionary and the letters of a text are no dictionaries.
abbrev pub tools_in : JsonValue → Result (List JsonValue)
tools_in (array vs) = ok (values vs)
tools_in (object end) = ok []
tools_in (text s) =
    if str_eq s "" then ok [] else raise (type_error "string indices must be integers")
tools_in (object (field k v d)) = raise (type_error "string indices must be integers")
tools_in null = raise (type_error "'NoneType' object is not iterable")
tools_in (boolean b) = raise (type_error "'bool' object is not iterable")
tools_in (number n) = raise (type_error "'int' object is not iterable")
tools_in (negative n) = raise (type_error "'int' object is not iterable")
tools_in (decimal s) = raise (type_error "'float' object is not iterable")

-- `tool["name"]`, `tool["parameters"]` and `tool["description"]`
abbrev pub offered_fields :
    Option JsonValue → Option JsonValue → Option JsonValue → Result OfferedTool
offered_fields (some n) (some p) (some d) =
    ok (record { name = n; parameters_json_schema = p; description = d })
offered_fields _ _ _ = raise key_error

abbrev pub offered_tool : JsonValue → Result OfferedTool
offered_tool (object d) = offered_fields (get "name" d) (get "parameters" d) (get "description" d)
offered_tool _ = raise (type_error "the tool is no dictionary")

unfoldable pub offered_tools : List JsonValue → Result (List OfferedTool)
offered_tools [] = ok []
offered_tools (v ∷ vs) = elim (offered_tool v) [
  | raise e ↦ raise e
  | ok t ↦ elim (offered_tools vs) [ raise e ↦ raise e | ok ts ↦ ok (t ∷ ts) ]
]

abbrev pub offered_from : Option JsonValue → Result (List OfferedTool)
offered_from none = raise (value_error "the tool block is no JSON")
offered_from (some v) = elim (tools_in v) [ raise e ↦ raise e | ok vs ↦ offered_tools vs ]

-- `tool_definitions`
unfoldable pub function_tools :
    (String → Option JsonValue) → List PrefixLayer → Result (List OfferedTool)
unfolding offered_tools
function_tools loads layers = elim (find (λ (l : PrefixLayer). same_slot l.slot l5) layers) [
  | none ↦ ok []
  | some l ↦ offered_from (loads l.body)
]

abbrev pub is_effort : String → Bool
is_effort e =
    str_eq e "minimal" || str_eq e "low" || str_eq e "medium" || str_eq e "high" || str_eq e "xhigh"

-- `_settings`
abbrev pub settings : Option String → Result (Option String)
settings none = ok none
settings (some e) =
    if is_effort e
    then ok (some e)
    else raise (value_error (concat ("unknown effort '" ∷ e ∷ "' in the tier binding" ∷ [])))

abbrev pub text_or_empty : Option String → String
text_or_empty none = ""
text_or_empty (some t) = t

-- `completion`
abbrev pub completion : Response → Completion
completion r = record {
  text = text_or_empty r.text;
  calls =
      map
        (λ (c : ResponseCall). record {
          name = c.tool_name;
          args = c.args;
          tool_call_id = c.tool_call_id;
        })
        r.tool_calls;
  usage = record {
    input_tokens = r.input_tokens;
    output_tokens = r.output_tokens;
    cached_tokens = r.cache_read_tokens;
  };
  cache =
      field "cache_read_tokens" (number r.cache_read_tokens)
        (field "cache_write_tokens" (number r.cache_write_tokens) end);
}

-- The model's name, the prompt's parts, the instructions, the effort and the tools of a request.
pub record ModelRequest : Type 0 where
  pub model : String
  pub parts : List String
  pub instructions : String
  pub thinking : Option String
  pub tools : List OfferedTool

abbrev request_with :
    (String → Option JsonValue) → AssembledTurn → TierBinding → Option String → Result ModelRequest
request_with loads turn bound thinking = elim (function_tools loads turn.prefix) [
  | raise e ↦ raise e
  | ok tools ↦ ok (record {
    model = concat (bound.provider ∷ ":" ∷ bound.model ∷ []);
    parts = map (λ (s : Slice). s.body) turn.envelope;
    instructions = prefix_text turn.prefix;
    thinking = thinking;
    tools = tools;
  })
]

abbrev request_of : (String → Option JsonValue) → AssembledTurn → TierBinding → Result ModelRequest
request_of loads turn bound = elim (settings bound.effort) [
  | raise e ↦ raise e
  | ok thinking ↦ request_with loads turn bound thinking
]

-- `run`
unfoldable pub run_request :
    (String → Option JsonValue)
    → (ModelRequest → Response)
    → AssembledTurn
    → TierBinding
    → Result Completion
run_request loads request turn bound = elim (request_of loads turn bound) [
  | raise e ↦ raise e
  | ok r ↦ ok (completion (request r))
]
