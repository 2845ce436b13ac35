-- ===== src/Drivers/Responses.antt =====
-- main_http_response.cpp: a response without a body.
use httpd_cpp.Base.{ℕ, false, List, Result, ◌>>=◌}
use httpd_cpp.Bytes.{codes}
use httpd_cpp.Buffer
use httpd_cpp.Buffer.{Buffer, initial_size, retrieve_all_as_string}
use httpd_cpp.HttpResponse
use httpd_cpp.HttpResponse.{
  HttpResponse, ok200, set_status_code, set_content_type, append_to_buffer,
}
use httpd_cpp.Callback.{with_message}

-- The string `s`, and the buffer.
unfoldable pub main : Result (List ℕ × Buffer)
main = do
  let response = HttpResponse.new false
  buf ← Buffer.new initial_size
  let response' =
      with_message (set_status_code ok200 (set_content_type (codes "text/html") response))
  buf' ← append_to_buffer response' buf
  retrieve_all_as_string buf'
