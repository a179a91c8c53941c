-- ===== src/Triage/Keys.antt =====
-- packages/cli/src/commands/triage-keys.ts: what a finding's key is made of. The keying itself and
-- the excerpt's hash are the graph library's.
use codewatch.Base.{[], map, or_else, List, String, Option}
use codewatch.Triage.Questions.{Finding}
use codewatch.Triage.Excerpt.{flagged_lines, line_at, join_with, line_end}
use codewatch.Audit.Score.{SymbolSpan, symbol_of}

-- The text and the symbols of a file.
pub record KeySource : Type 0 where
  pub lines : String → Option (List String)
  pub symbols : String → List SymbolSpan

pub record FindingKeyInput : Type 0 where
  pub finding : Finding
  pub anchor : String
  pub flagged_text : String
  pub excerpt_hash : Option String

abbrev flagged_text : Finding → List String → String
flagged_text f text = join_with line_end (map (line_at text) (flagged_lines f))

unfoldable pub key_input_of : Finding → KeySource → Option String → FindingKeyInput
key_input_of f source excerpt_hash = record {
  finding = f;
  anchor = or_else (symbol_of f (source.symbols f.path)) f.path;
  flagged_text = flagged_text f (or_else (source.lines f.path) []);
  excerpt_hash = excerpt_hash;
}
