-- ===== src/Examples/Transpiler.antt =====
-- A graph of two nodes: the first one passes a volume on to the second one, which mounts it.
use mathlib.Core.Path.{subst}
use flowify_workflows_server.Common.{
  ℕ, String, List, [], ◌∷◌, ◌≡◌, refl, ◌==◌, if◌then◌else◌, none, some, In, inl, inr, ◌<◌, arith,
  string_eq,
}
use flowify_workflows_server.Common.Result.{Ended, ok}
use flowify_workflows_server.Models.{
  Component, component, base, brick, graph, inline, Nodes, end, node, Edge, Data, volume, Argument,
  text, port,
}
use flowify_workflows_server.Transpiler.{
  Map, empty, insert, resolve, bridge_component, get_node_secret_map,
}
use flowify_workflows_server.Transpiler.Volumes.{ComesTo, resolve-ComesTo, resolve-Ended}
use flowify_workflows_server.Transpiler.Arguments.{
  VolumeMount, get_container_args, get_container_volumes,
}
use flowify_workflows_server.Examples.Updates.{old}

abbrev disk_data : String → Data
disk_data name = record { name = name; mediatype = []; type = "volume"; userdata = "" }

-- Its output `out` is the volume of its input `in`.
abbrev passing : Component
passing =
    component (record (base old) { inputs = disk_data "in" ∷ []; outputs = disk_data "out" ∷ [] })
      (brick (record {
        container = none;
        args = [];
        results =
            record {
              description = "";
              target = record { node = ""; port = "out" };
              source = volume "in";
            }
            ∷ [];
      }))

abbrev two_nodes : Nodes
two_nodes = node "first" (inline passing) "" (node "second" (inline passing) "" end)

abbrev pub edge : String → String → String → String → Edge
edge n p m q = record {
  source = record { node = n; port = p };
  target = record { node = m; port = q };
}

abbrev first_to_second : List Edge
first_to_second = edge "first" "out" "second" "in" ∷ []

abbrev disk_of_first : String → Map String
disk_of_first id = if id == "first" then insert "in" "disk" empty else empty

second_disk : resolve disk_of_first two_nodes first_to_second 2 "second" "in" ≡ some (ok "disk")
unfolding resolve
second_disk = refl

resolve-ComesTo_example : ComesTo disk_of_first two_nodes first_to_second "second" "in" "disk"
resolve-ComesTo_example =
    resolve-ComesTo disk_of_first two_nodes first_to_second 2 "second" "in" "disk" second_disk

abbrev place : String → ℕ
place id = if id == "first" then 0 else 1

edges_rise : (e : Edge) → In e first_to_second → place e.source.node < place e.target.node
edges_rise e (inl same) = subst (λ x. place x.source.node < place x.target.node) same (omega arith)
edges_rise e (inr m) = elim m [ ]

resolve-Ended_example : Ended (resolve disk_of_first two_nodes first_to_second 2 "second" "in")
resolve-Ended_example =
    resolve-Ended disk_of_first two_nodes first_to_second place edges_rise 2 "second" "in"
      (omega arith)

-- A graph whose only node feeds itself: its output is bridged to the empty name.
abbrev self_fed : Component
self_fed =
    component (record (base old) { inputs = []; outputs = disk_data "out" ∷ [] })
      (graph (node "a" (inline passing) "" end) (edge "a" "out" "a" "in" ∷ []) []
        (edge "a" "out" "" "out" ∷ []))

self_fed-bridged : bridge_component self_fed "out" ≡ ok ""
unfolding bridge_component
self_fed-bridged = refl

abbrev two_args : List Argument
two_args =
    record {
      description = "";
      target = record { type = ""; prefix = ""; suffix = "" };
      source = text "ls";
    }
    ∷ record {
      description = "";
      target = record { type = "volume"; prefix = "/mnt"; suffix = "" };
      source = port "in";
    }
    ∷ []

abbrev two_args_texts : List String
two_args_texts = "ls" ∷ []

abbrev two_args_mounts : List VolumeMount
two_args_mounts = record { volume_ref = "disk"; mount_path = "/mnt" } ∷ []

texts_given : get_container_args two_args ≡ ok two_args_texts
unfolding get_container_args
texts_given = refl

mounts_given :
    get_container_volumes (λ v. v) (λ prefix p suffix. prefix) (disk_of_first "first") two_args
    ≡ ok two_args_mounts
unfolding get_container_volumes
mounts_given = refl

abbrev secret_data : List Data
secret_data = record { name = "key"; mediatype = []; type = "env_secret"; userdata = "" } ∷ []

abbrev key_to_first : List Edge
key_to_first = edge "" "key" "first" "token" ∷ []

token_given :
    get_node_secret_map "first" (insert "key" "shh" empty) secret_data key_to_first "token"
    ≡ some "shh"
unfolding get_node_secret_map
token_given = refl
