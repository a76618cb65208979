-- ===== src/Model/Document.antt =====
-- ipp-async/src/model.rs: `Document`, one document within a job.
use ipp_client.Prelude.{ℤ, String, Option}
use ipp_client.Ipp.{Group}
use ipp_client.Errors.{Result, ok, ◌>>=◌}
use ipp_client.Attrs

pub record Document : Type 0 where
  pub number : ℤ
  pub name : Option String
  pub format : Option String

unfoldable pub decode : Group → Result Document
decode group = do
  let a = Attrs.new group
  number ← Attrs.require_int a "document-number"
  ok (record {
    number = number;
    name = Attrs.text a "document-name";
    format = Attrs.text a "document-format";
  })
