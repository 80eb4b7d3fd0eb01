-- ===== src/Parser/Xml.antt =====
-- pkg/bpmn/parser.go: what encoding/xml decodes a document into. `local` is XMLName.Local. The
-- messages of a document and its default namespace, which no code reads, are left out, and so are
-- the identifier and name of a definition's `message`.
use bpmn_ai.Base.{ℕ, String, Bool, List, Option}
use bpmn_ai.Errors.{Result}

pub record XmlEvent : Type 0 where
  pub local : String
  pub timer_type : String
  pub timer_date : String
  pub timer_cycle : String
  pub message_ref : String
  pub error_ref : String
  pub signal_ref : String

pub record ExtensionValue : Type 0 where
  pub local : String
  pub flow : String
  pub value : String

pub record FlowElement : Type 0 where
  pub local : String
  pub id : String
  pub name : String
  pub event_definitions : List XmlEvent
  pub attached_to_ref : String
  pub cancel_activity : String
  pub default_flow_id : String
  pub gateway_direction : String
  pub assignee : String
  pub candidate_users : String
  pub candidate_groups : String
  pub duration : String
  pub script_type : String
  pub script_body : String
  pub model : String
  pub profile : String
  pub system_prompt : String
  pub output_schema : String
  pub tools : String
  pub rag : String
  pub agents : String
  pub prompt_ref : String
  pub stream : String
  pub source_ref : String
  pub target_ref : String
  pub condition : String
  pub is_default : Bool
  pub incoming : List String
  pub outgoing : List String
  pub condition_element : String
  pub called_element : String
  pub extension_elements : Option (List ExtensionValue)
  pub inner_xml : String

pub record XmlProcess : Type 0 where
  pub id : String
  pub name : String
  pub flow_elements : List FlowElement

pub record Definitions : Type 0 where
  pub target_ns : String
  pub processes : List XmlProcess

-- What the code takes from outside: `len` of a document, the strict decoder without entities, and
-- the decoding of the children of a sub-process from its inner XML between `<root>` and `</root>`,
-- `none` where `xml.Unmarshal` fails.
pub record Decoder (D : Type 0) : Type 0 where
  pub len : D → ℕ
  pub decode : D → Result Definitions
  pub children : String → Option (List FlowElement)
