-- ===== src/Http/Response.antt =====
-- streamserver-cvn-cli/http/httpresponse.{h,cpp}: a response that is put together and written out. Text
-- is bytes here, and `number` is the conversion of a number to text, which is Qt's.
pub mod StatusLine
use streamserver_cvn.Prelude.{
  ℕ, Bool, true, false, not, ◌||◌, ltb, ◌==◌, List, [], ◌∷◌, ◌++◌, if◌then◌else◌, length, Bytes,
}
use streamserver_cvn.Prelude.Outcome.{Outcome, ok, err, M, ◌>>=◌, ◌>>◌}
use streamserver_cvn.Http.Text.{cr, lf, sp}
use streamserver_cvn.Http.WhiteSpace.{is_empty}
use streamserver_cvn.Http.Request.{line_sep, field_sep_start_line}

pub record HeaderField : Type 0 where
  pub name : Bytes
  pub value : Bytes

pub record Response : Type 0 where
  pub http_version : Bytes
  pub status_code : ℕ
  pub status_msg : Bytes
  pub header : List HeaderField
  pub body : Bytes

pub data Error : Type 0 where
  version_empty version_invalid status_invalid message_invalid : Error

-- `contains(c)`.
unfoldable pub contains : ℕ → Bytes → Bool
contains c [] = false
contains c (b ∷ bs) = b == c || contains c bs

unfoldable pub set_http_version : Bytes → M Error Response (Unit {0})
set_http_version version r =
    if is_empty version
    then err version_empty r
    else if contains sp version || contains cr version || contains lf version
    then err version_invalid r
    else ok tt (record r { http_version = version })

unfoldable pub set_status_code : ℕ → M Error Response (Unit {0})
set_status_code status r =
    if ltb status 100 || ltb 999 status
    then err status_invalid r
    else ok tt (record r { status_code = status })

unfoldable pub set_status_msg : Bytes → M Error Response (Unit {0})
set_status_msg msg r =
    if contains cr msg || contains lf msg
    then err message_invalid r
    else ok tt (record r { status_msg = msg })

unfoldable pub set_header : Bytes → Bytes → Response → Response
set_header name value r = record r {
  header = r.header ++ record { name = name; value = value } ∷ [];
}

-- "Content-Length"
abbrev pub content_length : Bytes
content_length = 67 ∷ 111 ∷ 110 ∷ 116 ∷ 101 ∷ 110 ∷ 116 ∷ 45 ∷ 76 ∷ 101 ∷ 110 ∷ 103 ∷ 116 ∷ 104 ∷ []

unfoldable pub set_body : (ℕ → Bytes) → Bytes → Response → Response
set_body number body r = set_header content_length (number (length body)) (record r { body = body })

abbrev pub blank_response : Response
blank_response = record {
  http_version = [];
  status_code = 0;
  status_msg = [];
  header = [];
  body = [];
}

-- The constructor.
unfoldable pub new_response : ℕ → Bytes → Bytes → Outcome Error Response (Unit {0})
new_response status msg version =
    (do set_http_version version; set_status_code status; set_status_msg msg) blank_response

-- ": "
abbrev pub field_sep_header_generate : Bytes
field_sep_header_generate = 58 ∷ 32 ∷ []

unfoldable pub header_bytes : List HeaderField → Bytes
header_bytes [] = []
header_bytes (f ∷ fs) =
    f.name ++ (field_sep_header_generate ++ (f.value ++ (line_sep ++ header_bytes fs)))

abbrev pub status_line : (ℕ → Bytes) → Response → Bytes
status_line number r =
    r.http_version
    ++ (field_sep_start_line ++ (number r.status_code ++ (field_sep_start_line ++ r.status_msg)))

-- `toBytes`.
unfoldable pub to_bytes : (ℕ → Bytes) → Response → Bytes
to_bytes number r =
    status_line number r ++ (line_sep ++ (header_bytes r.header ++ (line_sep ++ r.body)))
