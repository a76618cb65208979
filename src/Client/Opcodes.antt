-- ===== src/Client/Opcodes.antt =====
-- ipp-async/src/client.rs: the codes of the operations that the `ipp` crate does not name.
use ipp_client.Prelude.{ℕ}

abbrev pub create_printer_subscriptions : ℕ
create_printer_subscriptions = 0x0016

abbrev pub get_subscription_attributes : ℕ
get_subscription_attributes = 0x0018

abbrev pub get_subscriptions : ℕ
get_subscriptions = 0x0019

abbrev pub renew_subscription_code : ℕ
renew_subscription_code = 0x001a

abbrev pub cancel_subscription_code : ℕ
cancel_subscription_code = 0x001b

abbrev pub get_notifications : ℕ
get_notifications = 0x001c

abbrev pub set_printer_attributes : ℕ
set_printer_attributes = 0x0013

abbrev pub set_job_attributes_code : ℕ
set_job_attributes_code = 0x0014

abbrev pub enable_printer : ℕ
enable_printer = 0x0022

abbrev pub disable_printer : ℕ
disable_printer = 0x0023

abbrev pub hold_new_jobs_code : ℕ
hold_new_jobs_code = 0x0025

abbrev pub release_held_new_jobs_code : ℕ
release_held_new_jobs_code = 0x0026

abbrev pub cancel_jobs : ℕ
cancel_jobs = 0x0038

abbrev pub cancel_my_jobs_code : ℕ
cancel_my_jobs_code = 0x0039

abbrev pub resubmit_job_code : ℕ
resubmit_job_code = 0x003a

abbrev pub get_documents : ℕ
get_documents = 0x0035

abbrev pub validate_document_code : ℕ
validate_document_code = 0x003d

abbrev pub close_job : ℕ
close_job = 0x003b

abbrev pub identify_printer_code : ℕ
identify_printer_code = 0x003c
