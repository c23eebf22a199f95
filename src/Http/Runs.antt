-- ===== src/Http/Runs.antt =====
-- Runs of the texts of HTTP on concrete messages.
use server_framework_learnin.Prelude.{◌≡◌, refl, true, false, [], ◌∷◌, some, codes, c_str}
use server_framework_learnin.Http.{
  HttpRequest, HttpResponse, Headers, same_ignoring_case, same_letters, lower, connection_line,
  response_text, status_line, length_line, version_text, decimal, digits_before, is_empty,
}
use server_framework_learnin.Http.Names.{get, phrase_in, http_status_to_string}
use server_framework_learnin.Http.Frame.{read_head, lines_of, no_return-OneLine}
use server_framework_learnin.Http.Message.{Plain, length_lines, response_text_lem}

abbrev fields : Headers
fields = (codes "Host", codes "sylar") ∷ (codes "Connection", codes "keep-alive") ∷ []

abbrev question : HttpRequest
question = record {
  method = get;
  version = 17;
  close = true;
  path = codes "/a";
  query = codes "b=1";
  fragment = [];
  body = codes "text";
  headers = fields;
}

abbrev answer : HttpResponse
answer = record {
  status = 404;
  version = 17;
  close = false;
  body = codes "gone";
  reason = [];
  headers = fields;
}

question-Plain : Plain question
question-Plain = record {
  path = no_return-OneLine (codes "/a") refl;
  query = no_return-OneLine (codes "b=1") refl;
  fragment = tt;
  headers = (
    no_return-OneLine (codes "Host") refl,
    no_return-OneLine (codes "sylar") refl,
    (no_return-OneLine (codes "Connection") refl, no_return-OneLine (codes "keep-alive") refl, tt),
  );
}

response_text_lem_example :
    read_head [] (response_text answer)
    ≡ some (
      codes "HTTP/1.1 404 Not Found"
          ∷ codes "Host: sylar"
          ∷ codes "connection: keep-alive"
          ∷ codes "content-length: 4"
          ∷ [],
      [],
    )
unfolding status_line is_empty http_status_to_string phrase_in connection_line lines_of
    same_ignoring_case version_text same_letters decimal c_str digits_before lower length_lines
    length_line
response_text_lem_example = response_text_lem answer tt question-Plain.headers
