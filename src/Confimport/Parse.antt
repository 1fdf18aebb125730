-- ===== src/Confimport/Parse.antt =====
-- `Parse` (internal/confimport/parse.go): the lines in turn, then the role, the warnings and the lines that
-- are kept.
pub mod Line
pub mod Finish
use openvpnd.Base.{Option, List, [], ◌∷◌, none, some, false, ◌++◌, if◌then◌else◌, Bool}
use openvpnd.Base.Text.{Bytes, codes}
use openvpnd.Base.Split.{split}
use openvpnd.Base.Assoc.{Assoc, lookup}
use openvpnd.Confimport.{Result, new_result}
use openvpnd.Confimport.Inline.{inline_tags, inline_warning, extract_inline_blocks}
use openvpnd.Confimport.Parse.Line.{Reader, read_lines}
use openvpnd.Confimport.Parse.Finish.{finish}

-- One warning for each tag that has a block, in the order of the tags.
inline_warnings : Assoc Bytes → List Bytes → List Bytes
inline_warnings blocks [] = []
inline_warnings blocks (t ∷ ts) = elim (lookup t blocks) [
  | none ↦ inline_warnings blocks ts
  | some body ↦ inline_warning t ∷ inline_warnings blocks ts
]

unfoldable pub new_reader : Assoc Bytes → Reader
unfolding inline_warnings
new_reader blocks = record {
  result = record new_result { inline = blocks; warnings = inline_warnings blocks inline_tags };
  extra = [];
  saw_client = false;
  saw_server = false;
}

abbrev pub parse_body : Assoc Bytes × Bytes → Option Result
parse_body (blocks, body) = finish (read_lines (split b'\n' body) (new_reader blocks))

-- `Parse`; the error says that the role cannot be determined.
unfoldable pub parse : Bytes → Option Result
parse content = parse_body (extract_inline_blocks content)
