-- ===== src/Render/Diff/Nodes.antt =====
-- The nodes of a diff view (`unionNodes` of packages/render/src/diff-snapshot.ts).
use codewatch.Base.{
  none, not, some, false, ◌&&◌, any, string_eq, ◌≡◌, ◌==◌, keys, ◌||◌, lookup, contains, All,
  HasNodup, Bool, String, List, Option, JsMap,
}
use codewatch.Graph.{GraphNode}

-- Every node stands under its own id.
abbrev HasOwnIds : JsMap String GraphNode → Type 0
HasOwnIds m = All (λ p. p.1.id ≡ p.0) m

record IsIndex (m : JsMap String GraphNode) : Type 0 where
  own : HasOwnIds m
  distinct : HasNodup (keys m)

-- Some node of the list has the id.
abbrev pub has_id : List GraphNode → String → Bool
has_id ns k = any (λ n. n.id == k) ns

-- The new id is not empty and that of a node.
abbrev pub is_renamed : List GraphNode → Option String → Bool
is_renamed to_nodes none = false
is_renamed to_nodes (some i) = not (i == "") && has_id to_nodes i

-- Some old node with the id was not renamed to a new one.
abbrev pub has_unrenamed : List GraphNode → JsMap String String → List GraphNode → String → Bool
has_unrenamed to_nodes renames ns k =
    any (λ n. n.id == k && not (is_renamed to_nodes (lookup renames n.id))) ns

abbrev holds_id : List String → Option String → Bool
holds_id ids none = false
holds_id ids (some i) = contains ids i

-- An old node is shown under its own id or under the id that it was renamed to.
abbrev pub is_shown : List String → JsMap String String → GraphNode → Bool
is_shown ids renames n = contains ids n.id || holds_id ids (lookup renames n.id)
