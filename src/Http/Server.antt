-- ===== src/Http/Server.antt =====
-- streamserver-cvn-cli/http/httpserver.cpp: which requests are served. A handler is a number. The names
-- of hosts are texts, whose
-- `toLower` is a parameter, once for a byte array and once for a string.
pub mod Ports
pub mod Dispatch
use streamserver_cvn.Prelude.{
  ℕ, Bool, true, false, not, ◌&&◌, ◌||◌, List, [], ◌∷◌, ◌++◌, Option, none, some, ◌==◌,
  if◌then◌else◌, Bytes,
}
use streamserver_cvn.Http.Text.{ascii, lf, same}
use streamserver_cvn.Http.Header.{Header, Field, fields_named}
use streamserver_cvn.Http.Request.{Request}
use streamserver_cvn.Http.Response.{contains}

pub record Server : Type 0 where
  pub server_host_whitelist : List Bytes
  pub default_handler : Option ℕ

pub data StatusCode : Type 0 where
  ok_200 bad_request_400 not_found_404 internal_server_error_500 : StatusCode

abbrev pub code_of : StatusCode → ℕ
code_of ok_200 = 200
code_of bad_request_400 = 400
code_of not_found_404 = 404
code_of internal_server_error_500 = 500

abbrev pub status_msg_from_status_code : StatusCode → Bytes
status_msg_from_status_code ok_200 = ascii "OK"
status_msg_from_status_code bad_request_400 = ascii "Bad Request"
status_msg_from_status_code not_found_404 = ascii "Not Found"
status_msg_from_status_code internal_server_error_500 = ascii "Internal Server Error"

-- Why a request is refused, one constructor for each body of a response.
pub data Refusal : Type 0 where
  version_not_recognized multiple_hosts host_invalid method_not_supported no_handler : Refusal

abbrev pub refusal_code : Refusal → StatusCode
refusal_code no_handler = internal_server_error_500
refusal_code _ = bad_request_400

abbrev pub refusal_text : Refusal → Bytes
refusal_text version_not_recognized = ascii "HTTP version not recognized."
refusal_text multiple_hosts = ascii "Multiple HTTP Host headers in request."
refusal_text host_invalid = ascii "HTTP host invalid for this server"
refusal_text method_not_supported = ascii "HTTP method not supported."
refusal_text no_handler = ascii "No handler set for request."

abbrev pub refusal_body : Refusal → Bytes
refusal_body r = refusal_text r ++ lf ∷ []

pub data Verdict : Type 0 where
  refuse : Refusal → Verdict
  call : ℕ → Verdict

abbrev pub colon : ℕ
colon = 58

unfoldable pub ends_with : ℕ → Bytes → Bool
ends_with c [] = false
ends_with c (b ∷ []) = b == c
ends_with c (b ∷ d ∷ bs) = ends_with c (d ∷ bs)

-- A host with the port that it has if it names none.
unfoldable pub with_port : Bytes → Bytes
unfolding contains ends_with
with_port host =
    if not (contains colon host)
    then host ++ ascii ":80"
    else if ends_with colon host
    then host ++ ascii "80"
    else host

abbrev pub is_supported_version : Bytes → Bool
is_supported_version v = same v (ascii "HTTP/1.0") || same v (ascii "HTTP/1.1")

abbrev pub is_supported_method : Bytes → Bool
is_supported_method m = same m (ascii "GET") || same m (ascii "HEAD")

module _ (lower_host lower : Bytes → Bytes) where
  -- The loop over the white-list.
  unfoldable pub is_listed : Bytes → List Bytes → Bool
  unfolding with_port
  is_listed host [] = false
  is_listed host (w ∷ ws) =
      if same (with_port (lower_host host)) (with_port (lower w)) then true else is_listed host ws

  abbrev pub is_allowed : Bytes → List Bytes → Bool
  is_allowed host [] = true
  is_allowed host (w ∷ ws) = is_listed host (w ∷ ws)

  -- From the method on.
  unfoldable pub judge_method : Server → Option ℕ → Bytes → Verdict
  judge_method server handler method =
      if not (is_supported_method method) then refuse method_not_supported else elim handler [
        | some h ↦ call h
        | none ↦ elim server.default_handler [ none ↦ refuse no_handler | some h ↦ call h ]
      ]

  unfoldable pub judge_host : Server → Option ℕ → Bytes → Bytes → Verdict
  unfolding is_listed judge_method
  judge_host server handler host method =
      if not (is_allowed host server.server_host_whitelist)
      then refuse host_invalid
      else judge_method server handler method

  -- The host is empty where no header names it.
  unfoldable pub judge_hosts : Server → Option ℕ → List Field → Bytes → Verdict
  unfolding judge_host
  judge_hosts server handler [] method = judge_host server handler [] method
  judge_hosts server handler (f ∷ []) method = judge_host server handler f.field_value method
  judge_hosts server handler (f ∷ g ∷ fs) method = refuse multiple_hosts

  -- `Server::processRequest`, up to the call of the handler; `handler` is that of the context.
  unfoldable pub process_request : Server → Option ℕ → Request → Verdict
  unfolding judge_hosts
  process_request server handler r =
      if not (is_supported_version r.http_version)
      then refuse version_not_recognized
      else judge_hosts server handler (fields_named (ascii "Host") r.header) r.method
