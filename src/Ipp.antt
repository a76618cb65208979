-- ===== src/Ipp.antt =====
-- The boundary to the `ipp` crate: the values that the sources match on and build, the requests
-- as the calls that the sources make to build them, and a response as what they read of it.
-- What the crate does with these is a `Host`'s to say (see Host.antt).
use ipp_client.Prelude.{ℕ, ℤ, String, Bool, Option, none, List, []}

pub data Tag : Type 0 where
  operation_attributes job_attributes printer_attributes : Tag
  subscription_attributes event_notification_attributes document_attributes : Tag

-- `other` is any value of a kind that the sources do not name.
mutual
  pub data Value : Type 0 where
    text_without_language name_without_language keyword uri mime_media_type : String → Value
    text_with_language name_with_language : String → String → Value
    integer enum : ℤ → Value
    boolean : Bool → Value
    array : Values → Value
    other : Value

  pub data Values : Type 0 where
    no_values : Values
    one_more : Value → Values → Values

pub record Attribute : Type 0 where
  pub name : String
  pub value : Value

-- An attribute group, read only by name.
abbrev pub Group : Type 0
Group = String → Option Value

pub record Response : Type 0 where
  pub status : ℕ
  pub groups_of : Tag → List Group

-- A parsed URI, as far as the sources look into it.
pub record Uri : Type 0 where
  pub text : String
  pub scheme : Option String
  pub host : Option String

-- The bounded strings of the crate; converting a text that is too long fails.
pub data Bound : Type 0 where
  keyword_bound name_bound text_bound uri_bound mime_bound : Bound

pub data Operation : Type 0 where
  get_printer_attributes cups_get_default cups_get_classes cups_get_ppds : Operation
  cancel_job hold_job release_job restart_job cups_move_job validate_job : Operation
  pause_printer resume_printer : Operation

-- A document: bytes in memory, or a reader that is still to be read.
pub data Payload : Type 0 where
  bytes : List ℕ → Payload
  reader : ℕ → Payload

-- The crate's constructors of requests, with the arguments that the sources give them.
pub data Builder : Type 0 where
  new_request : Operation → Option Uri → Builder
  new_get_printers : Builder
  new_get_jobs : Uri → Option String → Builder
  new_get_job_attributes : Uri → ℤ → Option String → Builder
  new_get_printer_attributes : Uri → Builder
  new_purge_jobs : Uri → Option String → Builder
  new_create_job : Uri → Option String → Builder
  new_send_document : Uri → ℤ → Payload → Option String → Option String → Bool → Builder
  new_print_job : Uri → Payload → Option String → Option String → Option String → Builder

-- A request: how it was begun, the operation written over the header's, if any, and the
-- attributes added after that, oldest first.
pub record Request : Type 0 where
  pub builder : Builder
  pub opcode : Option ℕ
  pub attributes : List (Tag × Attribute)

abbrev pub begin : Builder → Request
begin b = record { builder = b; opcode = none; attributes = [] }
