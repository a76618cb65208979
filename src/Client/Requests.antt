-- ===== src/Client/Requests.antt =====
-- ipp-async/src/client.rs: how each request is put together.
pub mod Laws
pub mod Actions
use ipp_client.Prelude.{ℕ, ℤ, String, true, none, some, List, [], ◌∷◌, ◌++◌, if◌then◌else◌}
use ipp_client.Ipp.{
  Tag, operation_attributes, job_attributes, Value, Values, no_values, one_more,
  text_without_language, name_without_language, keyword, mime_media_type, integer, boolean, array,
  Attribute, Uri, Bound, keyword_bound, name_bound, text_bound, uri_bound, mime_bound, Operation,
  get_printer_attributes, cups_move_job, validate_job, Builder, new_request, new_get_jobs,
  new_get_job_attributes, Request, begin,
}
use ipp_client.Errors.{Result, ok, err, ◌>>=◌, decode, transport}
use ipp_client.Model.Job.{JobId}
use ipp_client.Host.{Host}
use ipp_client.Client.Opcodes.{identify_printer_code}
use ipp_client.Client.{Client, parse_or, printer_uri}

pub data IdentifyAction : Type 0 where
  flash sound : IdentifyAction
  display : String → IdentifyAction

abbrev pub action_keyword : IdentifyAction → String
action_keyword flash = "flash"
action_keyword sound = "sound"
action_keyword (display message) = "display"

pub data PpdFilter : Type 0 where
  device_id make_and_model make : String → PpdFilter

abbrev pub as_attribute : PpdFilter → String × String
as_attribute (device_id v) = ("ppd-device-id", v)
as_attribute (make_and_model v) = ("ppd-make-and-model", v)
as_attribute (make v) = ("ppd-make", v)

pub data WhichJobs : Type 0 where
  not_completed completed : WhichJobs

abbrev pub as_keyword : WhichJobs → String
as_keyword not_completed = "not-completed"
as_keyword completed = "completed"

-- `attributes_mut().add(tag, attribute)`
abbrev pub add : Tag → Attribute → Request → Request
add tag a r = record r { attributes = r.attributes ++ ((tag, a) ∷ []) }

-- The attributes that the decoders of printers and of jobs read.
abbrev pub printer_attribute_names : List String
printer_attribute_names =
    "printer-name" ∷ "printer-uri-supported" ∷ "device-uri" ∷ "printer-info" ∷ "printer-location"
    ∷ "printer-state" ∷ "printer-state-reasons" ∷ "printer-is-accepting-jobs" ∷ "marker-names"
    ∷ "marker-levels" ∷ "marker-types" ∷ "marker-colors" ∷ "marker-low-levels" ∷ "media-supported"
    ∷ "media-default" ∷ "sides-supported" ∷ "sides-default" ∷ "print-color-mode-supported"
    ∷ "print-color-mode-default" ∷ "print-quality-supported" ∷ "print-quality-default"
    ∷ "output-bin-supported" ∷ "output-bin-default" ∷ []

abbrev pub job_attribute_names : List String
job_attribute_names =
    "job-id" ∷ "job-state" ∷ "job-state-reasons" ∷ "job-name" ∷ "job-printer-uri"
    ∷ "job-originating-user-name" ∷ "time-at-creation" ∷ "time-at-completed" ∷ "job-impressions"
    ∷ "job-impressions-completed" ∷ []

module _ {S : Type 0} (h : Host S) where
  -- A constructor of the crate, `.map_err(Error::transport)`.
  unfoldable pub start : Builder → Result Request
  start b = elim (h.build_error b) [ none ↦ ok (begin b) | some cause ↦ err (transport cause) ]

  -- `text.try_into().map_err(|_| Error::decode(name, detail))`
  unfoldable pub bounded : Bound → String → String → String → Result String
  bounded bound name detail text = if h.fits bound text then ok text else err (decode name detail)

  -- `IppAttribute::with_name(name, value).map_err(|e| Error::decode(name, e.to_string()))`
  unfoldable pub with_name : String → Value → Result Attribute
  with_name name value = elim (h.attribute_error name value) [
    | none ↦ ok (record { name = name; value = value })
    | some e ↦ err (decode name e)
  ]

  -- `with_name` and then `add`.
  unfoldable pub put : Tag → String → Value → Request → Result Request
  unfolding with_name
  put tag name value r = do a ← with_name name value; ok (add tag a r)

  unfoldable pub keywords : String → List String → Result Values
  unfolding bounded
  keywords detail [] = ok no_values
  keywords detail (name ∷ names) = do
    k ← bounded keyword_bound name detail name
    rest ← keywords detail names
    ok (one_more (keyword k) rest)

  unfoldable pub request_attributes : List String → Request → Result Request
  unfolding keywords put
  request_attributes names r = do
    wanted ← keywords "keyword too long" names
    put operation_attributes "requested-attributes" (array wanted) r

  -- The requesting user, as every request names it.
  unfoldable pub user_value : Client → Result Value
  unfolding bounded
  user_value c = do
    name ← bounded name_bound "requesting-user-name" "name too long" c.user
    ok (name_without_language name)

  module _ (c : Client) where
    unfoldable pub jobs_request : WhichJobs → Result Request
    unfolding parse_or start request_attributes bounded put
    jobs_request which = do
      root ← parse_or h "bad CUPS uri" c.base
      r ← start (new_get_jobs root (some c.user))
      r ← request_attributes job_attribute_names r
      k ← bounded keyword_bound "which-jobs" "keyword too long" (as_keyword which)
      r ← put operation_attributes "which-jobs" (keyword k) r
      put operation_attributes "my-jobs" (boolean true) r

    unfoldable pub job_request : String → JobId → Result Request
    unfolding printer_uri start request_attributes
    job_request printer id = do
      uri ← printer_uri h c printer
      r ← start (new_get_job_attributes uri id (some c.user))
      request_attributes job_attribute_names r

    -- The two values are made before the loop over them, so a user name that is too long fails
    -- before any attribute is built.
    unfoldable pub job_action_request : Operation → Uri → JobId → Result Request
    unfolding start user_value put
    job_action_request operation uri id = do
      r ← start (new_request operation (some uri))
      user ← user_value c
      r ← put operation_attributes "job-id" (integer id) r
      put operation_attributes "requesting-user-name" user r

    unfoldable pub move_job_request : String → JobId → String → Result Request
    unfolding printer_uri job_action_request bounded put
    move_job_request printer id destination = do
      from ← printer_uri h c printer
      r ← job_action_request cups_move_job from id
      to ← printer_uri h c destination
      target ← bounded uri_bound "job-printer-uri" "uri too long" to.text
      put job_attributes "job-printer-uri" (Value.uri target) r

    -- A request begun as another operation, whose code is then written over.
    unfoldable pub raw_request : Uri → ℕ → Result Request
    unfolding start user_value put
    raw_request uri opcode = do
      r ← start (new_request get_printer_attributes (some uri))
      user ← user_value c
      put operation_attributes "requesting-user-name" user (record r { opcode = some opcode })

    unfoldable pub printer_action_request : Operation → Uri → Result Request
    unfolding start user_value put
    printer_action_request operation uri = do
      r ← start (new_request operation (some uri))
      user ← user_value c
      put operation_attributes "requesting-user-name" user r

    unfoldable pub identify_message : IdentifyAction → Request → Result Request
    unfolding bounded put
    identify_message (display message) r = do
      text ← bounded text_bound "message" "message too long" message
      put operation_attributes "message" (text_without_language text) r
    identify_message _ r = ok r

    unfoldable pub identify_printer_request : Uri → IdentifyAction → Result Request
    unfolding raw_request bounded put identify_message
    identify_printer_request uri action = do
      r ← raw_request uri identify_printer_code
      k ← bounded keyword_bound "identify-actions" "keyword too long" (action_keyword action)
      r ← put operation_attributes "identify-actions" (keyword k) r
      identify_message action r

    unfoldable pub validate_job_request : Uri → String → Result Request
    unfolding start user_value bounded put
    validate_job_request uri document_format = do
      r ← start (new_request validate_job (some uri))
      user ← user_value c
      format ← bounded mime_bound "document-format" "value too long" document_format
      r ← put operation_attributes "requesting-user-name" user r
      put operation_attributes "document-format" (mime_media_type format) r

  unfoldable pub add_int : String → ℤ → Request → Result Request
  unfolding put
  add_int name value r = put operation_attributes name (integer value) r
