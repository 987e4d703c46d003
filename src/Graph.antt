-- ===== src/Graph.antt =====
-- rust/rubydex/src/model/graph.rs: the graph of the whole program. The record is here; the
-- methods are in the modules below. `print_query_statistics` is not modelled.
pub mod Alias
pub mod Counts
pub mod Extend
pub mod Visibility
pub mod Lookup
pub mod Names
pub mod Declarations
pub mod Invalidate
pub mod Worklist
pub mod Remove
use rubydex.Base.{ℕ, List}
use rubydex.Base.Map.{Map}
use rubydex.Model.Ids.{Text}
use rubydex.Model.StringRef.{StringRef}
use rubydex.Model.Name.{NameRef}
use rubydex.Model.Reference.{ConstantReference, MethodRef}
use rubydex.Model.Definition.{Definition}
use rubydex.Model.Declaration.{Declaration}
use rubydex.Model.Document.{Document}
use rubydex.Model.Dependent.{Dependents}

-- `Unit` in the source: work that is left for the resolver
pub data WorkUnit : Type 0 where
  definition constant_ref ancestors : ℕ → WorkUnit

pub data Encoding : Type 0 where
  utf8 utf16 utf32 : Encoding

pub record Graph : Type 0 where
  pub declarations : Map Declaration
  pub documents : Map Document
  pub definitions : Map Definition
  pub strings : Map StringRef
  pub names : Map NameRef
  pub constant_references : Map ConstantReference
  pub method_references : Map MethodRef
  pub position_encoding : Encoding
  pub name_dependents : Dependents
  pub pending_work : List WorkUnit
  pub excluded_paths : List Text
