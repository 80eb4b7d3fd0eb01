-- ===== src/Parser.antt =====
-- pkg/bpmn/parser.go: the parser, from the decoded XML to a process definition.
pub mod Csv
pub mod Xml
pub mod Elements
pub mod Wiring
pub mod Flatten
pub mod Parse
