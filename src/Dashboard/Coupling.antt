-- ===== src/Dashboard/Coupling.antt =====
-- packages/cli/src/commands/dashboard-symbol-coupling.ts: which symbols of a file are used where.
-- `computeSymbolCoupling` and `computeSymbolConsumers` of the graph library are parameters.
use codewatch.Base.{
  ◌&&◌, eqb, string_eq, ◌||◌, push, if◌then◌else◌, ltb, [], sort_by, map, sum, Bool, length, ◌∷◌,
  JsMap, take, List, String, ℕ,
}

pub record SymbolCouplingRow : Type 0 where
  pub a_name : String
  pub a_file : String
  pub b_name : String
  pub b_file : String
  pub co_imports : ℕ
  pub cross_file : Bool

pub record SymbolConsumerRow : Type 0 where
  pub name : String
  pub consumers : List String
  pub consumer_count : ℕ

pub record SymbolConsumerGroup : Type 0 where
  pub file_id : String
  pub symbols : List SymbolConsumerRow
  pub total_consumers : ℕ

pub record SymbolCouplingPayload : Type 0 where
  pub symbol_coupling : List SymbolCouplingRow
  pub symbol_consumers : List SymbolConsumerGroup

-- A symbol's consumers, as the library gives them.
pub record SymbolConsumers : Type 0 where
  pub name : String
  pub file_id : String
  pub consumers : List String

-- A reference from a file to a symbol.
pub record ReferenceEdge : Type 0 where
  pub src_id : String
  pub dst_id : String

abbrev consumer_row : SymbolConsumers → SymbolConsumerRow
consumer_row s = record {
  name = s.name;
  consumers = take 12 s.consumers;
  consumer_count = length s.consumers;
}

abbrev rows_by_file :
    JsMap String (List SymbolConsumerRow)
    → List SymbolConsumers
    → JsMap String (List SymbolConsumerRow)
rows_by_file m [] = m
rows_by_file m (s ∷ ss) =
    rows_by_file (if ltb (length s.consumers) 2 then m else push m s.file_id (consumer_row s)) ss

abbrev fold_group : String × List SymbolConsumerRow → SymbolConsumerGroup
fold_group (file_id, symbols) = record {
  file_id = file_id;
  symbols = take 10 symbols;
  total_consumers = sum (map (λ s. s.consumer_count) (take 10 symbols));
}

-- `code_before a b` is `a < b` on texts.
abbrev group_before : (String → String → Bool) → SymbolConsumerGroup → SymbolConsumerGroup → Bool
group_before code_before a b =
    ltb (length b.symbols) (length a.symbols)
    || (eqb (length b.symbols) (length a.symbols)
        && (ltb b.total_consumers a.total_consumers
            || (eqb b.total_consumers a.total_consumers && code_before a.file_id b.file_id)))

unfoldable pub fold_groups :
    (String → String → Bool) → JsMap String (List SymbolConsumerRow) → List SymbolConsumerGroup
fold_groups code_before by_file =
    take 15 (sort_by (group_before code_before) (map fold_group by_file))

module _ (compute_symbol_coupling : List ReferenceEdge → List SymbolCouplingRow)
    (compute_symbol_consumers : List ReferenceEdge → List SymbolConsumers)
    (code_before : String → String → Bool) where
  abbrev build_coupling_rows : List ReferenceEdge → List SymbolCouplingRow
  build_coupling_rows edges = take 40 (compute_symbol_coupling edges)

  abbrev build_consumer_groups : List ReferenceEdge → List SymbolConsumerGroup
  build_consumer_groups edges =
      fold_groups code_before (rows_by_file [] (compute_symbol_consumers edges))

  unfoldable pub build_symbol_coupling_payload : List ReferenceEdge → SymbolCouplingPayload
  build_symbol_coupling_payload edges = record {
    symbol_coupling = build_coupling_rows edges;
    symbol_consumers = build_consumer_groups edges;
  }
