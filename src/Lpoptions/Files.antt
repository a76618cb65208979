-- ===== src/Lpoptions/Files.antt =====
-- The default printer of the user's and the system's file (ipp-async/src/lpoptions.rs).
use mathlib.Core.Path.{ap₂}
use ipp_client.Prelude.{
  String, ◌≡◌, refl, ap, ◌∙◌, Option, none, some, and_then, map_option, List, [], ◌∷◌, All, first,
  filter_map, push_option,
}
use ipp_client.Lpoptions.{
  last_of, parse_default, default_printer_from, user_lpoptions, default_printer,
}
use ipp_client.Lpoptions.Laws.{default_printer_from_all_lem}
use ipp_client.Lpoptions.RoundTrip.{Line, IsLine, file, chosen_name, parse_default-file}

-- The lines of a file that can be read are well formed.
abbrev pub IsFile : Option (List Line) → Type 0
IsFile none = Unit
IsFile (some ls) = All IsLine ls

-- The destination of the last `Default` line.
abbrev pub chosen : Option (List Line) → Option String
chosen contents = and_then contents λ ls. last_of (filter_map chosen_name ls)

parse_default-IsFile :
    (contents : Option (List Line))
    → IsFile contents
    → and_then (map_option contents file) parse_default ≡ chosen contents
parse_default-IsFile none h = refl
parse_default-IsFile (some ls) h = parse_default-file ls h

-- If the file of the user and that of the system are each either unreadable or of well-formed
-- lines, with `Default` and `Dest` lines in any order, instances and options included, then the
-- default printer is the destination, without its instance, of the last `Default` line of the
-- user's file; if that cannot be read or has none, of the system's; and else there is none. The
-- system's file is that at /etc/cups/lpoptions.
pub default_printer-files :
    (read_to_string : String → Option String) (home : Option String)
    (user system : Option (List Line))
    → IsFile user
    → IsFile system
    → read_to_string (user_lpoptions home) ≡ map_option user file
    → read_to_string "/etc/cups/lpoptions" ≡ map_option system file
    → default_printer read_to_string home ≡ first (filter_map chosen (user ∷ system ∷ []))
unfolding default_printer default_printer_from
default_printer-files read home user system hu hs eu es =
    let named = λ (contents : Option String). and_then contents parse_default in
    default_printer_from_all_lem read (user_lpoptions home ∷ "/etc/cups/lpoptions" ∷ [])
    ∙ ap₂ (λ u s. first (push_option u (push_option s [])))
        (ap named eu ∙ parse_default-IsFile user hu) (ap named es ∙ parse_default-IsFile system hs)
