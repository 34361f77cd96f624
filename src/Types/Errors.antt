-- ===== src/Types/Errors.antt =====
-- src/error.rs. An error of another crate is the text that it is displayed as. What the crates
-- themselves do (the text of an id, of a gRPC status) is the parameter `Crates`.
use Prim.Native.String.{String}
use laqista.Base.{ℕ, ◌^◌, ◌<◌, ◌≡◌, Outcome, ok}
use laqista.Base.Text.{str_append}

-- The codes of a gRPC status that the program makes.
pub data Code : Type 0 where
  aborted unimplemented unavailable : Code

pub record Status : Type 0 where
  pub code : Code
  pub message : String

abbrev pub abort : String → Status
abort m = record { code = aborted; message = m }

-- `uuid` and `tonic`, as far as the program relies on them: an id's text is read back, and what is
-- read is an id.
pub record Crates : Type 0 where
  pub parse_str : String → Outcome String ℕ
  pub to_string : ℕ → String
  pub display_status : Status → String
  pub parse_str-to_string : (u : ℕ) → u < 2 ^ 128 → parse_str (to_string u) ≡ ok u
  pub parse_str-lt : (s : String) (u : ℕ) → parse_str s ≡ ok u → u < 2 ^ 128

pub data Error : Type 0 where
  app_instantiation io ip mac : String → Error
  none_error : Error
  request_error : Status → Error
  send_state_error transport_error text url uuid other : String → Error

module _ ⦃c : Crates⦄ where
  -- `Display`
  unfoldable pub display : Error → String
  display (app_instantiation e) = str_append "error instantiating an application: " e
  display (io e) = str_append "io error: " e
  display (ip e) = str_append "local ip address error: " e
  display (mac e) = str_append "error parsing a mac address: " e
  display none_error = "an empty value occured somewhere"
  display (request_error s) = str_append "request to another node failed: " (c.display_status s)
  display (send_state_error e) = str_append "failed to send state via tx: " e
  display (transport_error e) = str_append "tonic transport error: " e
  display (text e) = e
  display (url e) = str_append "error parsing an url: " e
  display (uuid e) = str_append "error parsing uuid: " e
  display (other e) = e

  -- `Into<Status>`
  unfoldable pub into_status : Error → Status
  unfolding display
  into_status e = abort (display e)

-- The `From` instances, with which `?` makes the program's error of another crate's.
unfoldable pub from_status : Status → Error
from_status s = request_error s

abbrev pub from_io : String → Error
from_io e = io e

abbrev pub from_ip : String → Error
from_ip e = ip e

abbrev pub from_mac : String → Error
from_mac e = mac e

abbrev pub from_transport : String → Error
from_transport e = transport_error e

abbrev pub from_string : String → Error
from_string e = text e

abbrev pub from_url : String → Error
from_url e = url e

abbrev pub from_send_state : String → Error
from_send_state e = send_state_error e

abbrev pub from_uuid : String → Error
from_uuid e = uuid e

-- `From<&str>`
abbrev pub from_str : String → Error
from_str e = text e

abbrev pub from_infallible : ⊥ → Error
from_infallible impossible = none_error
