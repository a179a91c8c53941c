-- ===== src/Graph.antt =====
-- The records of the graph library (`@titan-design/code-graph`) that all commands read, with the
-- fields that the modelled code uses. `N` is the type of JavaScript numbers.
use codewatch.Base.{ℕ, String, Option, List, Arith, ◌&&◌, if◌then◌else◌}

-- `attrs?.weight`, which is `unknown` to the program: absent, no number, or a number.
pub data WeightAttr (N : Type 0) : Type 0 where
  missing : WeightAttr N
  other : WeightAttr N
  number : N → WeightAttr N

pub record GraphEdge (N : Type 0) : Type 0 where
  pub src_id : String
  pub dst_id : String
  pub kind : String
  pub weight : WeightAttr N

-- The attributes that the views write on the nodes that they make.
pub data NodeAttrs : Type 0 where
  plain : NodeAttrs
  file_count : ℕ → NodeAttrs
  stub : NodeAttrs

pub record GraphNode : Type 0 where
  pub id : String
  pub kind : String
  pub name : String
  pub role : Option String
  pub attrs : NodeAttrs

pub record GraphMetric (N : Type 0) : Type 0 where
  pub node_id : String
  pub name : String
  pub value : Option N

-- packages/render/src/types.ts, `RenderInput`, less the overlays that the views only hand on.
pub record RenderInput (N : Type 0) : Type 0 where
  pub snapshot_id : ℕ
  pub nodes : List GraphNode
  pub edges : List (GraphEdge N)
  pub metrics : Option (List (GraphMetric N))

module _ {N : Type 0} ⦃a : Arith N⦄ where
  -- packages/render/src/edge-weight.ts
  unfoldable pub edge_weight : GraphEdge N → N
  edge_weight e = elim e.weight [
    | missing ↦ a.one
    | other ↦ a.one
    | number w ↦ if a.is_finite w && a.is_positive w then w else a.one
  ]
