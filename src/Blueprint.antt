-- ===== src/Blueprint.antt =====
-- internal/blueprint/types.go: references, edges, and when a source is remote.
use terragraph.Prelude.{Bool, true, false, not, ◌&&◌, Str, bytes, has_prefix}

-- The zero value is `node`.
pub data EntityKind : Type 0 where
  node use_instance : EntityKind

-- `bare` is the empty kind: a reference that names no port.
pub data PortKind : Type 0 where
  bare output input : PortKind

pub record PortRef : Type 0 where
  pub entity : EntityKind
  pub node : Str
  pub kind : PortKind
  pub name : Str

unfoldable pub is_port : PortRef → Bool
is_port p = elim p.kind [ PortKind.bare ↦ false | _ ↦ true ]

pub record Edge : Type 0 where
  pub from : PortRef
  pub to : PortRef

unfoldable pub is_data_edge : Edge → Bool
unfolding is_port
is_data_edge e = is_port e.from && is_port e.to

unfoldable pub is_remote : Str → Bool
unfolding has_prefix
is_remote src = not (has_prefix src (bytes "./")) && not (has_prefix src (bytes "../"))
