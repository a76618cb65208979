-- ===== src/Client/Queries/Requested.antt =====
-- The attributes that the queries of ipp-async/src/client.rs ask for, against those that the
-- decoders of model.rs read.
use ipp_client.Prelude.{String, ◌≡◌, refl, none, List, any, str_eq, if◌then◌else◌}
use ipp_client.Ipp.{Group}
use ipp_client.Attrs
use ipp_client.Model.Printer
use ipp_client.Model.PrinterOptions
use ipp_client.Model.Job
use ipp_client.Model.Class
use ipp_client.Model.Ppd
use ipp_client.Client.Requests.{printer_attribute_names, job_attribute_names}
use ipp_client.Client.Queries.{class_attribute_names, ppd_attribute_names}

-- What is left of a group if the server sends only what was asked for.
abbrev pub restricted : List String → Group → Group
restricted names group name = if any (λ asked. str_eq asked name) names then group name else none

-- The queries ask for every attribute that their decoders read: a printer, a job, a class and a
-- driver are each decoded, or refused with the same error, as if the server had sent all that it
-- knows.
pub decode-restricted :
    (group : Group)
    → (Printer.decode (restricted printer_attribute_names group) ≡ Printer.decode group)
      × (Job.decode (restricted job_attribute_names group) ≡ Job.decode group)
      × (Class.decode (restricted class_attribute_names group) ≡ Class.decode group)
      × (Ppd.decode (restricted ppd_attribute_names group) ≡ Ppd.decode group)
unfolding Printer.decode Job.decode Class.decode Ppd.decode PrinterOptions.decode Attrs.value
    Attrs.text Attrs.int Attrs.bool Attrs.texts Attrs.ints Attrs.require_text Attrs.require_int
decode-restricted group = (refl, refl, refl, refl)
