-- ===== src/Core/Model.antt =====
-- internal/core/model/model.go: what the other parts read of the saved data.
use auk.Base.{Bool, List, Option}
use auk.Base.Text.{Bytes}

-- `unset` is the empty kind, `other` any text that is no kind
pub data ProtocolKind : Type 0 where
  unset http websocket grpc graphql sse other : ProtocolKind

pub record KeyValue : Type 0 where
  pub key : Bytes
  pub value : Bytes
  pub enabled : Bool

pub record Folder : Type 0 where
  pub id : Bytes
  pub parent : Option Bytes
  pub variables : List KeyValue

pub record Environment : Type 0 where
  pub id : Bytes
  pub workspace_id : Bytes
  pub variables : List KeyValue
  pub secrets : List Bytes
