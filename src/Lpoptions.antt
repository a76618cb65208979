-- ===== src/Lpoptions.antt =====
-- ipp-async/src/lpoptions.rs: the user's default printer, from the `lpoptions` files.
pub mod Laws
pub mod RoundTrip
pub mod Files
use ipp_client.Prelude.{
  String, ◌<>◌, Option, none, some, List, [], ◌∷◌, map, filter, filter_map, not, unwrap_or,
  and_then, if◌then◌else◌,
}
use ipp_client.Prelude.Text.{is_empty, lines, strip_prefix, first_word, first_piece, strip_suffix}

-- `rfind`: the last element that passes.
unfoldable pub last_of {ℓ} : {A : Type ℓ} → List A → Option A
last_of [] = none
last_of (x ∷ []) = some x
last_of (x ∷ y ∷ rest) = last_of (y ∷ rest)

-- The chain over one line, up to the destination's name.
unfoldable pub destination : String → Option String
destination line =
    and_then (strip_prefix "Default " line)
      λ rest. and_then (first_word rest) λ dest. some (first_piece b'/' dest)

unfoldable pub parse_default : String → Option String
unfolding destination last_of
parse_default contents =
    last_of (filter (λ dest. not (is_empty dest)) (filter_map destination (lines contents)))

-- The loop over the paths; `read_to_string` gives a file's text if it can be read.
unfoldable pub default_printer_from_all : (String → Option String) → List String → Option String
unfolding parse_default
default_printer_from_all read_to_string [] = none
default_printer_from_all read_to_string (path ∷ rest) =
    let later = default_printer_from_all read_to_string rest in
    elim (and_then (read_to_string path) parse_default) [ some dest ↦ some dest | none ↦ later ]

unfoldable pub default_printer_from : (String → Option String) → String → String → Option String
unfolding default_printer_from_all
default_printer_from read_to_string user_path system_path =
    default_printer_from_all read_to_string (user_path ∷ system_path ∷ [])

-- `join` of a relative path: an empty base joins to the path itself, and a base that ends in a
-- separator takes no other.
abbrev join : String → String → String
join base path =
    if is_empty base
    then path
    else elim (strip_suffix "/" base) [ some _ ↦ base <> path | none ↦ base <> "/" <> path ]

-- `home` is the variable HOME, if it is set.
unfoldable pub user_lpoptions : Option String → String
user_lpoptions home = join (unwrap_or home "") ".cups/lpoptions"

unfoldable pub default_printer : (String → Option String) → Option String → Option String
unfolding default_printer_from user_lpoptions
default_printer read_to_string home =
    default_printer_from read_to_string (user_lpoptions home) "/etc/cups/lpoptions"
