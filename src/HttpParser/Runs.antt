-- ===== src/HttpParser/Runs.antt =====
-- Runs of a request parser around a small parser.
use server_framework_learnin.Prelude.{ℕ, false, [], ◌∷◌, arith}
use server_framework_learnin.Http.{HttpRequest}
use server_framework_learnin.HttpParser.{
  Parser, new_request, run_trace, s_request_settings, on_request_header_value_cb, request_error,
  execute_request,
}
use server_framework_learnin.HttpParser.Lines.{line_parser, add_header}
use server_framework_learnin.HttpParser.Execute.{
  Feeds, with_error, feed_request, execute_request-Feeds,
}

abbrev start : Parser ℕ HttpRequest
start = record { parser = 0; data_ = new_request; error = 0; finished = false; field = [] }

-- One byte of three is a line.
execute_request-Feeds_example :
    Feeds
      (feed_request line_parser add_header start (7 ∷ 10 ∷ [])).0
      (feed_request line_parser add_header start (7 ∷ 10 ∷ [])).1
      (7 ∷ 10 ∷ [])
      (7 ∷ 10 ∷ 9 ∷ [])
      (execute_request line_parser add_header start (7 ∷ 10 ∷ 9 ∷ []) 2)
unfolding feed_request run_trace s_request_settings on_request_header_value_cb with_error
    request_error
execute_request-Feeds_example =
    execute_request-Feeds line_parser add_header start (7 ∷ 10 ∷ 9 ∷ []) 2 (omega arith)
      (omega arith) (omega arith)

abbrev after_error : Parser ℕ HttpRequest
after_error = record { parser = 5; data_ = new_request; error = 5; finished = false; field = [] }
