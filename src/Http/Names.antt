-- ===== src/Http/Names.antt =====
-- The texts of sylar/http/http.h: the names of methods and the phrases of status codes.
use server_framework_learnin.Prelude.{
  ℕ, Bool, true, false, ◌&&◌, List, [], ◌∷◌, Text, codes, same_text, c_str, ◌==◌, if◌then◌else◌,
}

-- HTTP_METHOD_MAP, in its order, with INVALID_METHOD.
pub data HttpMethod : Type 0 where
  delete get head post put invalid_method : HttpMethod

abbrev pub methods : List HttpMethod
methods = delete ∷ get ∷ head ∷ post ∷ put ∷ []

-- s_method_string, and what HttpMethodToString returns where there is none.
unfoldable pub http_method_to_string : HttpMethod → Text
http_method_to_string delete = codes "DELETE"
http_method_to_string get = codes "GET"
http_method_to_string head = codes "HEAD"
http_method_to_string post = codes "POST"
http_method_to_string put = codes "PUT"
http_method_to_string invalid_method = codes "<unknown>"

-- strncmp of a text with the first characters of another.
unfoldable pub starts_with : Text → Text → Bool
starts_with [] t = true
starts_with (x ∷ xs) [] = false
starts_with (x ∷ xs) (y ∷ ys) = (x == y) && starts_with xs ys

-- The first method that passes a test.
unfoldable pub first_method : (HttpMethod → Bool) → List HttpMethod → HttpMethod
first_method test [] = invalid_method
first_method test (m ∷ ms) = let rest = first_method test ms in if test m then m else rest

unfoldable pub string_to_http_method : Text → HttpMethod
string_to_http_method t = first_method (λ m. same_text (http_method_to_string m) (c_str t)) methods

unfoldable pub chars_to_http_method : Text → HttpMethod
chars_to_http_method t = first_method (λ m. starts_with (http_method_to_string m) t) methods

-- HTTP_STATUS_MAP. A status is its number.
abbrev pub statuses : List (ℕ × Text)
statuses =
    (100, codes "Continue")
    ∷ (101, codes "Switching Protocols")
    ∷ (102, codes "Processing")
    ∷ (200, codes "OK")
    ∷ (201, codes "Created")
    ∷ (202, codes "Accepted")
    ∷ (203, codes "Non - Authoritative Information")
    ∷ (204, codes "No Content")
    ∷ (205, codes "Reset Content")
    ∷ (206, codes "Partial Content")
    ∷ (207, codes "Multi - Status")
    ∷ (208, codes "Already Reported")
    ∷ (226, codes "IM Used")
    ∷ (300, codes "Multiple Choices")
    ∷ (301, codes "Moved Permanently")
    ∷ (302, codes "Found")
    ∷ (303, codes "See Other")
    ∷ (304, codes "Not Modified")
    ∷ (305, codes "Use Proxy")
    ∷ (307, codes "Temporary Redirect")
    ∷ (308, codes "Permanent Redirect")
    ∷ (400, codes "Bad Request")
    ∷ (401, codes "Unauthorized")
    ∷ (402, codes "Payment Required")
    ∷ (403, codes "Forbidden")
    ∷ (404, codes "Not Found")
    ∷ (405, codes "Method Not Allowed")
    ∷ (406, codes "Not Acceptable")
    ∷ (407, codes "Proxy Authentication Required")
    ∷ (408, codes "Request Timeout")
    ∷ (409, codes "Conflict")
    ∷ (410, codes "Gone")
    ∷ (411, codes "Length Required")
    ∷ (412, codes "Precondition Failed")
    ∷ (413, codes "Payload Too Large")
    ∷ (414, codes "URI Too Long")
    ∷ (415, codes "Unsupported Media Type")
    ∷ (416, codes "Range Not Satisfiable")
    ∷ (417, codes "Expectation Failed")
    ∷ (421, codes "Misdirected Request")
    ∷ (422, codes "Unprocessable Entity")
    ∷ (423, codes "Locked")
    ∷ (424, codes "Failed Dependency")
    ∷ (426, codes "Upgrade Required")
    ∷ (428, codes "Precondition Required")
    ∷ (429, codes "Too Many Requests")
    ∷ (431, codes "Request Header Fields Too Large")
    ∷ (451, codes "Unavailable For Legal Reasons")
    ∷ (500, codes "Internal Server Error")
    ∷ (501, codes "Not Implemented")
    ∷ (502, codes "Bad Gateway")
    ∷ (503, codes "Service Unavailable")
    ∷ (504, codes "Gateway Timeout")
    ∷ (505, codes "HTTP Version Not Supported")
    ∷ (506, codes "Variant Also Negotiates")
    ∷ (507, codes "Insufficient Storage")
    ∷ (508, codes "Loop Detected")
    ∷ (510, codes "Not Extended")
    ∷ (511, codes "Network Authentication Required")
    ∷ []

unfoldable pub phrase_in : List (ℕ × Text) → ℕ → Text
phrase_in [] status = codes "<unknown>"
phrase_in (e ∷ es) status = let rest = phrase_in es status in if e.0 == status then e.1 else rest

unfoldable pub http_status_to_string : ℕ → Text
http_status_to_string status = phrase_in statuses status
