-- ===== src/Model/MediaSize.antt =====
-- ipp-async/src/model.rs: `MediaSize`, a PWG name `class_name_dimensions`.
pub mod Laws
use ipp_client.Prelude.{String, Bool, Option, none, some, ◌||◌, and_then, if◌then◌else◌}
use ipp_client.Prelude.Text.{contains, is_empty, split_once, rsplit_once}

pub record MediaSize : Type 0 where
  pub keyword : String
  pub class : String
  pub name : String
  pub dimensions : String
  pub borderless : Bool

unfoldable pub parse : String → Option MediaSize
parse keyword = and_then (rsplit_once b'_' keyword) λ (head, dimensions).
    and_then (split_once b'_' head) λ (class, name).
      if is_empty class || is_empty name || is_empty dimensions
      then none
      else some (record {
        keyword = keyword;
        class = class;
        name = name;
        dimensions = dimensions;
        borderless = contains ".borderless" name;
      })
