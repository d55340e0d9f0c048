-- ===== src/Config/Types.antt =====
-- internal/config/types.go: the generated configuration, and the decoded options of a component.
use vector_operator.Prelude.{Bool, List}
use vector_operator.Dict.{Dict}
use vector_operator.Text.{Text}

-- What `any` holds in decoded JSON: `other` is a number, a Boolean or null by its text.
mutual
  pub data Value : Type 0 where
    str : Text → Value
    other : Text → Value
    arr : Items → Value
    obj : Fields → Value

  pub data Items : Type 0 where
    nil : Items
    cons : Value → Items → Items

  pub data Fields : Type 0 where
    end : Fields
    field : Text → Value → Fields → Fields

pub record Source : Type 0 where
  pub name : Text
  pub type : Text
  pub extra_namespace_label_selector : Text
  pub extra_label_selector : Text
  pub extra_field_selector : Text
  pub use_api_server_cache : Bool
  pub options : Fields

pub record Transform : Type 0 where
  pub name : Text
  pub type : Text
  pub inputs : List Text
  pub options : Fields

pub record Sink : Type 0 where
  pub name : Text
  pub type : Text
  pub inputs : List Text
  pub options : Fields

pub record PipelineConfig : Type 0 where
  pub sources : Dict Text Source
  pub transforms : Dict Text Transform
  pub sinks : Dict Text Sink
