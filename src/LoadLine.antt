-- ===== src/LoadLine.antt =====
-- SqlEngine::parseLoadLine of bruinbase/SqlEngine.cc, over the bytes of the line. c_str() shows the
-- line up to its first NUL.
pub mod Fields
use cs143_p.Base.{
  ℕ, List, [], ◌∷◌, Option, none, some, Bool, true, false, ◌==◌, ◌||◌, if◌then◌else◌,
}
use cs143_p.CString.{atoi}
use cs143_p.Rc.{Rc, success, invalid_file_format}
use cs143_p.RecordFile.{until_nul}

abbrev pub is_blank : ℕ → Bool
is_blank c = c == 32 || c == 9

-- The loops over blanks.
unfoldable pub skip_blanks : List ℕ → List ℕ
skip_blanks [] = []
skip_blanks (c ∷ s) = if is_blank c then skip_blanks s else c ∷ s

-- strchr(s, c), without the character itself.
unfoldable pub after_char : ℕ → List ℕ → Option (List ℕ)
after_char c [] = none
after_char c (d ∷ s) = if d == c then some s else after_char c s

-- value.find(c, 0) and value.erase(loc): the string in front of the character.
unfoldable pub before_char : ℕ → List ℕ → List ℕ
before_char c [] = []
before_char c (d ∷ s) = if d == c then [] else d ∷ before_char c s

abbrev pub is_quote : ℕ → Bool
is_quote c = c == b'\'' || c == b'"'

-- The value field, from its first character that is not a blank.
unfoldable pub parse_value : List ℕ → List ℕ
parse_value [] = []
parse_value (c ∷ s) = if is_quote c then before_char c s else before_char 10 (c ∷ s)

-- What parseLoadLine leaves: its return code, and the new values of `key` and `value`.
pub record Parsed : Type 0 where
  pub rc : Rc
  pub key : ℕ
  pub value : List ℕ

-- parseLoadLine behind strchr, of which this is the result: an error, or the value field.
unfoldable pub parse_after : List ℕ → List ℕ → Option (List ℕ) → Parsed
parse_after s value none = record { rc = invalid_file_format; key = atoi s; value = value }
parse_after s value (some rest) = record {
  rc = success;
  key = atoi s;
  value = parse_value (skip_blanks rest);
}

-- The new value of `key` does not depend on the old one.
unfoldable pub parse_load_line : List ℕ → ℕ → List ℕ → Parsed
parse_load_line line key value =
    let s = skip_blanks (until_nul line) in parse_after s value (after_char b',' s)
