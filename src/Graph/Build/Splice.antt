-- ===== src/Graph/Build/Splice.antt =====
-- internal/graph/build.go: what placing nodes and splicing instances does to the graph of a scope.
use terragraph.Prelude.{
  ◌≡◌, ◌≤◌, refl, sym, ap, ◌∙◌, subst, arith, true, ◌||◌, Str, List, [], ◌∷◌, ◌++◌, map,
  append_assoc, append-nil, str_eq, str_eq_iff, count, count-append, contains, contains_iff,
  contains-append, All, All-map, All-append, any,
}
use terragraph.Blueprint.{Edge}
use terragraph.Graph.{Graph, IsGraph, JoinsNodes, add_edge, add_edges, add_edges-IsGraph, unwired}
use terragraph.Graph.Build.Settings.{BuiltNode}
use terragraph.Graph.Build.{
  Built, Instance, put_key, put_keys, place_node, place_nodes, splice, splice_all,
}

pub contains-put_key :
    (j k : Str) (ks : List Str) → contains j (put_key ks k) ≡ (str_eq k j || contains j ks)
unfolding put_key contains
contains-put_key j k ks = ground (arith, contains-append j ks (k ∷ []), str_eq_iff k j)

count-put_key : (j k : Str) (ks : List Str) → count j ks ≤ 1 → count j (put_key ks k) ≤ 1
unfolding put_key count
count-put_key j k ks h =
    ground (arith, count-append j ks (k ∷ []), str_eq_iff k j, contains_iff k ks)

-- The keys behind some assignments are those from before and the new ones.
pub contains-put_keys :
    (j : Str) (ks rest : List Str)
    → contains j (put_keys ks rest) ≡ (contains j ks || contains j rest)
unfolding put_keys contains
contains-put_keys j ks [] = ground (arith)
contains-put_keys j ks (k ∷ rest) =
    ground (arith, contains-put_keys j (put_key ks k) rest, contains-put_key j k ks)

count-put_keys : (j : Str) (ks rest : List Str) → count j ks ≤ 1 → count j (put_keys ks rest) ≤ 1
unfolding put_keys
count-put_keys j ks [] h = h
count-put_keys j ks (k ∷ rest) h = count-put_keys j (put_key ks k) rest (count-put_key j k ks h)

-- The names of the one list stand in the other.
abbrev pub IsWithin : List Str → List Str → Type 0
IsWithin xs ys = (n : Str) → contains n xs ≡ true → contains n ys ≡ true

IsWithin-put_keys : (ks rest : List Str) → IsWithin ks (put_keys ks rest)
IsWithin-put_keys ks rest n h = contains-put_keys n ks rest ∙ ground (arith)

pub put_keys-IsWithin : (ks rest : List Str) → IsWithin rest (put_keys ks rest)
put_keys-IsWithin ks rest n h = contains-put_keys n ks rest ∙ ground (arith)

pub add_edges-nodes : (g : Graph) (es : List Edge) → (add_edges g es).nodes ≡ g.nodes
unfolding add_edges add_edge
add_edges-nodes g [] = refl
add_edges-nodes g (e ∷ es) = add_edges-nodes (add_edge g e) es

add_edges-edges : (g : Graph) (es : List Edge) → (add_edges g es).edges ≡ g.edges ++ es
unfolding add_edges add_edge
add_edges-edges g [] = sym (append-nil g.edges)
add_edges-edges g (e ∷ es) = add_edges-edges (add_edge g e) es ∙ append_assoc g.edges (e ∷ []) es

-- A well-formed graph whose edges, as they are listed, join its nodes.
pub record IsPlaced (g : Graph) : Type 0 where
  pub built : IsGraph g
  pub joined : All (JoinsNodes g.nodes) g.edges

JoinsNodes-within :
    (xs ys : List Str) (es : List Edge)
    → IsWithin xs ys
    → All (JoinsNodes xs) es
    → All (JoinsNodes ys) es
JoinsNodes-within xs ys es w h = All-map es (λ e j. (w e.from.node j.0, w e.to.node j.1)) h

-- More nodes, each once.
put_keys-IsPlaced :
    (g : Graph) (rest : List Str)
    → IsPlaced g
    → IsPlaced (record g { nodes = put_keys g.nodes rest })
put_keys-IsPlaced g rest h = record {
  built = record {
    distinct = λ a. count-put_keys a g.nodes rest (h.built.distinct a);
    consistent = h.built.consistent;
    closed = λ a b m. IsWithin-put_keys g.nodes rest a (h.built.closed a b m);
    closed_out = λ a b m. IsWithin-put_keys g.nodes rest b (h.built.closed_out a b m);
  };
  joined = JoinsNodes-within g.nodes _ g.edges (IsWithin-put_keys g.nodes rest) h.joined;
}

pub add_edges-IsPlaced :
    (g : Graph) (es : List Edge)
    → IsPlaced g
    → All (JoinsNodes g.nodes) es
    → IsPlaced (add_edges g es)
add_edges-IsPlaced g es h joins = record {
  built = add_edges-IsGraph g es h.built joins;
  joined =
      subst (λ ns. All (JoinsNodes ns) (add_edges g es).edges) (sym (add_edges-nodes g es))
        (subst (All (JoinsNodes g.nodes)) (sym (add_edges-edges g es))
          (All-append (JoinsNodes g.nodes) g.edges es h.joined joins));
}

pub nothing-IsPlaced : IsPlaced (unwired [])
unfolding unwired contains count
nothing-IsPlaced = record {
  built = record {
    distinct = λ a. omega arith;
    consistent = λ a b. refl;
    closed = λ a b e. cc;
    closed_out = λ a b e. cc;
  };
  joined = tt;
}

module _ {V : Type 0} where
  -- Placing nodes puts their names among the keys and touches nothing else of the graph.
  pub place_nodes-graph :
      (b : Built V) (ns : List (BuiltNode V))
      → (place_nodes b ns).graph
        ≡ record b.graph { nodes = put_keys b.graph.nodes (map (λ n. n.leaf.name) ns) }
  unfolding place_nodes place_node put_keys
  place_nodes-graph b [] = refl
  place_nodes-graph b (n ∷ ns) = place_nodes-graph (place_node b n) ns

  pub place_nodes-IsPlaced :
      (b : Built V) (ns : List (BuiltNode V)) → IsPlaced b.graph → IsPlaced (place_nodes b ns).graph
  place_nodes-IsPlaced b ns h =
      subst IsPlaced (sym (place_nodes-graph b ns))
        (put_keys-IsPlaced b.graph (map (λ n. n.leaf.name) ns) h)

  pub splice-nodes :
      (b internal : Built V)
      → (splice b internal).graph.nodes ≡ put_keys b.graph.nodes internal.graph.nodes
  unfolding splice
  splice-nodes b internal = add_edges-nodes _ internal.graph.edges

  splice-IsPlaced :
      (b internal : Built V)
      → IsPlaced b.graph
      → IsPlaced internal.graph
      → IsPlaced (splice b internal).graph
  unfolding splice
  splice-IsPlaced b internal h k =
      add_edges-IsPlaced _ internal.graph.edges (put_keys-IsPlaced b.graph internal.graph.nodes h) (
        JoinsNodes-within internal.graph.nodes _ internal.graph.edges
          (put_keys-IsWithin b.graph.nodes internal.graph.nodes) k.joined)

  pub splice_all-IsPlaced :
      (b : Built V) (is : List (Instance V))
      → IsPlaced b.graph
      → All (λ i. IsPlaced i.internal.graph) is
      → IsPlaced (splice_all b is).graph
  unfolding splice_all
  splice_all-IsPlaced b [] h k = h
  splice_all-IsPlaced b (i ∷ is) h k =
      splice_all-IsPlaced (splice b i.internal) is (splice-IsPlaced b i.internal h k.0) k.1

  -- The nodes of a scope are its own and those of its instances.
  pub contains-splice_all :
      (n : Str) (b : Built V) (is : List (Instance V))
      → contains n (splice_all b is).graph.nodes
        ≡ (contains n b.graph.nodes || any (λ i. contains n i.internal.graph.nodes) is)
  unfolding splice_all
  contains-splice_all n b [] = ground (arith)
  contains-splice_all n b (i ∷ is) =
      contains-splice_all n (splice b i.internal) is
      ∙ ap (λ x. x || any (λ j. contains n j.internal.graph.nodes) is)
          (ap (contains n) (splice-nodes b i.internal)
            ∙ contains-put_keys n b.graph.nodes i.internal.graph.nodes)
      ∙ ground (arith)
