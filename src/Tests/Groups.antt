-- ===== src/Tests/Groups.antt =====
-- Two group instances, a network and an application on it, and the edges between them.
use terragraph.Prelude.{
  ◌≡◌, refl, true, false, Str, bytes, List, [], ◌∷◌, flatten, sort, count, contains, str_eq,
  str_ltb, lookup, insert,
}
use terragraph.Blueprint.{Edge, EntityKind, PortKind, PortRef, is_port, is_data_edge}
use terragraph.Graph.{Graph, add_edges, unwired, qualify_name}
use terragraph.Graph.Validate.{Node}
use terragraph.Graph.Group.{
  Export, UseInfo, resolved, map_resolved, output_port, input_ports, exported,
  resolve_export_endpoint, resolve_export, rewrite_endpoint, product, pairs_of, rewrite_edge, roots,
  sinks, use_info, synthesize_schema, synthesize_input, synthesize_output, target_required,
  assign_all,
}
use terragraph.Tests.Graphs.{after}

abbrev pub net : Str
net = bytes "net"

abbrev pub app : Str
app = bytes "app"

abbrev pub net_a : Str
net_a = bytes "net.a"

abbrev pub net_b : Str
net_b = bytes "net.b"

abbrev pub app_c : Str
app_c = bytes "app.c"

abbrev pub app_d : Str
app_d = bytes "app.d"

abbrev pub vpc_id : Str
vpc_id = bytes "vpc_id"

abbrev pub port : EntityKind → Str → PortKind → PortRef
port entity node kind = record { entity = entity; node = node; kind = kind; name = vpc_id }

abbrev pub network : Graph
network = add_edges (unwired (net_a ∷ net_b ∷ [])) (after net_a net_b ∷ [])

abbrev pub application : Graph
application = add_edges (unwired (app_c ∷ app_d ∷ [])) (after app_c app_d ∷ [])

abbrev pub network_export : Export
network_export = record {
  inputs = [];
  outputs = record { name = vpc_id; from = port EntityKind.node (bytes "b") PortKind.output } ∷ [];
}

abbrev pub application_export : Export
application_export = record {
  inputs =
      record {
        name = vpc_id;
        to =
            port EntityKind.node (bytes "c") PortKind.input
            ∷ port EntityKind.node (bytes "d") PortKind.input
            ∷ [];
      }
      ∷ [];
  outputs = [];
}

abbrev pub network_info : UseInfo
network_info = record {
  export = record {
    inputs = [];
    outputs = record { name = vpc_id; from = port EntityKind.node net_b PortKind.output } ∷ [];
  };
  roots = net_a ∷ [];
  sinks = net_b ∷ [];
}

abbrev pub application_info : UseInfo
application_info = record {
  export = record {
    inputs =
        record {
          name = vpc_id;
          to =
              port EntityKind.node app_c PortKind.input
              ∷ port EntityKind.node app_d PortKind.input
              ∷ [];
        }
        ∷ [];
    outputs = [];
  };
  roots = app_c ∷ [];
  sinks = app_d ∷ [];
}

abbrev pub instances : List (Str × UseInfo)
instances = (net, network_info) ∷ (app, application_info) ∷ []

-- Every module has the variable and the output.
abbrev pub modules : Str → Node
modules name = record {
  schema = record {
    variables = (vpc_id, record { sensitive = false; required = true }) ∷ [];
    outputs = vpc_id ∷ [];
  };
  vars = [];
  inputs = [];
}

pub network_offers : use_info modules network net [] network_export ≡ resolved network_info
unfolding use_info synthesize_schema synthesize_input synthesize_output target_required assign_all
    insert contains lookup resolve_export map_resolved resolve_export_endpoint qualify_name roots
    sinks add_edges unwired sort flatten str_eq str_ltb
network_offers = refl

pub application_offers :
    use_info modules application app [] application_export ≡ resolved application_info
unfolding use_info synthesize_schema synthesize_input synthesize_output target_required assign_all
    insert contains lookup resolve_export map_resolved resolve_export_endpoint qualify_name roots
    sinks add_edges unwired sort flatten str_eq str_ltb
application_offers = refl

-- The data edge `use.net.output.vpc_id -> use.app.input.vpc_id`, which fans out to two inputs.
abbrev fan_out : Edge
fan_out = record {
  from = port EntityKind.use_instance net PortKind.output;
  to = port EntityKind.use_instance app PortKind.input;
}

abbrev fanned : List Edge
fanned =
    record {
      from = port EntityKind.node net_b PortKind.output;
      to = port EntityKind.node app_c PortKind.input;
    }
    ∷ record {
      from = port EntityKind.node net_b PortKind.output;
      to = port EntityKind.node app_d PortKind.input;
    }
    ∷ []

fans_out : rewrite_edge [] instances fan_out ≡ resolved fanned
unfolding rewrite_edge rewrite_endpoint pairs_of product exported output_port input_ports is_port
    is_data_edge lookup str_eq
fans_out = refl

unfoldable both : Unit {0}
unfolding add_edges unwired contains count str_eq qualify_name is_port is_data_edge
both = tt
