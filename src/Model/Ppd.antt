-- ===== src/Model/Ppd.antt =====
-- ipp-async/src/model.rs: `Ppd`, a driver that CUPS offers.
use ipp_client.Prelude.{String, unwrap_or}
use ipp_client.Ipp.{Group}
use ipp_client.Errors.{Result, ok, ◌>>=◌}
use ipp_client.Attrs

pub record Ppd : Type 0 where
  pub name : String
  pub make_and_model : String
  pub device_id : String

unfoldable pub decode : Group → Result Ppd
decode group = do
  let a = Attrs.new group
  name ← Attrs.require_text a "ppd-name"
  ok (record {
    name = name;
    make_and_model = unwrap_or (Attrs.text a "ppd-make-and-model") "";
    device_id = unwrap_or (Attrs.text a "ppd-device-id") "";
  })
