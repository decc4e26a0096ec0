-- ===== src/Webhook/Nodes.antt =====
-- pkg/webhook/shoot/mutator.go, node_condition_mutator.go: the condition of a node's network.
use gardener_extension_provi.Common.{
  String, Bool, ◌&&◌, ◌==◌, Option, none, some, List, [], ◌∷◌, if◌then◌else◌,
}

-- corev1.NodeCondition
pub record NodeCondition : Type 0 where
  pub type : String
  pub status : String
  pub reason : String
  pub message : String

-- corev1.Node, by its deletion timestamp and its conditions
pub record Node : Type 0 where
  pub is_deleted : Bool
  pub conditions : List NodeCondition

-- a client.Object: a node, or another one
pub data Object : Type 0 where
  a_node : Node → Object
  an_other : Object

-- set by the cloud node controller where no route was made
unfoldable pub has_no_route : NodeCondition → Bool
has_no_route c =
    c.type == "NetworkUnavailable"
    && c.status == "True"
    && c.reason == "NoRouteCreated"
    && c.message == "Node created without a route"

abbrev pub is_available : NodeCondition → Bool
is_available c = c.type == "NetworkUnavailable" && c.status == "False"

-- the old condition, if there is one that says that the network is there
unfoldable pub old_condition : List NodeCondition → Option NodeCondition
old_condition [] = none
old_condition (c ∷ cs) = if is_available c then some c else old_condition cs

abbrev pub put_back : Option NodeCondition → List NodeCondition → List NodeCondition
put_back none later = later
put_back (some c) later = c ∷ later

-- the first condition of the kind is replaced, or taken out
unfoldable pub mutate_network_unavailable_node_condition :
    List NodeCondition → List NodeCondition → List NodeCondition
unfolding has_no_route old_condition
mutate_network_unavailable_node_condition old [] = []
mutate_network_unavailable_node_condition old (c ∷ cs) =
    let later = mutate_network_unavailable_node_condition old cs in
    if has_no_route c then put_back (old_condition old) cs else c ∷ later

abbrev mutated : Node → Node → Node
mutated new old = if new.is_deleted then new else record new {
  conditions = mutate_network_unavailable_node_condition old.conditions new.conditions;
}

-- Mutate, of the new object and the old, which is nil for an object that is made
unfoldable pub mutate_object : Object → Option Object → Object
unfolding mutate_network_unavailable_node_condition
mutate_object (a_node new) (some (a_node old)) = a_node (mutated new old)
mutate_object new old = new
