-- ===== src/Model/Class.antt =====
-- ipp-async/src/model.rs: `Class`, several queues addressed as one.
use ipp_client.Prelude.{String, List}
use ipp_client.Ipp.{Group}
use ipp_client.Errors.{Result, ok, ◌>>=◌}
use ipp_client.Attrs

pub record Class : Type 0 where
  pub name : String
  pub members : List String

unfoldable pub decode : Group → Result Class
decode group = do
  let a = Attrs.new group
  name ← Attrs.require_text a "printer-name"
  ok (record { name = name; members = Attrs.texts a "member-names" })
