-- ===== src/Graph/Dot.antt =====
-- crates/attractor-dot/src/ast.rs: a parsed DOT file. Durations are in milliseconds.
use pascals_discrete_attract.Base.{ℕ, Text, Map, Bool, List, Option, ℤ}
use pascals_discrete_attract.Types.Values.{F64}

pub data AttributeValue : Type 0 where
  string : Text → AttributeValue
  integer : ℤ → AttributeValue
  float : F64 → AttributeValue
  boolean : Bool → AttributeValue
  duration : ℕ → AttributeValue

abbrev pub Attrs : Type 0
Attrs = Map AttributeValue

pub record NodeDef : Type 0 where
  pub id : Text
  pub attrs : Attrs
  pub authored_attrs : Attrs

pub record EdgeDef : Type 0 where
  pub from : Text
  pub to : Text
  pub attrs : Attrs

pub record SubgraphDef : Type 0 where
  pub name : Option Text
  pub attrs : Attrs
  pub nodes : Map NodeDef
  pub edges : List EdgeDef
  pub node_defaults : Attrs
  pub edge_defaults : Attrs

pub record DotGraph : Type 0 where
  pub name : Text
  pub attrs : Attrs
  pub nodes : Map NodeDef
  pub edges : List EdgeDef
  pub subgraphs : List SubgraphDef
  pub node_defaults : Attrs
  pub edge_defaults : Attrs
