-- ===== src/Drivers/Requests.antt =====
-- main_http_request.cpp: its header function, which the server's `handle_keep_alive` took the place of.
use httpd_cpp.Base.{
  ◌≡◌, refl, true, false, inl, inr, none, some, Option-cases, Bool-cases, if◌then◌else◌,
}
use httpd_cpp.Bytes.{codes, equal}
use httpd_cpp.Bytes.Search.{equal_iff}
use httpd_cpp.StringMap
use httpd_cpp.HttpRequest.{HttpRequest, get_header}
use httpd_cpp.HttpResponse.{HttpResponse, set_close_connection}
use httpd_cpp.Callback.{HeaderFunc, handle_keep_alive}

unfoldable pub http_process_connection : HttpRequest HeaderFunc → HttpResponse → HttpResponse
http_process_connection request response =
    elim (StringMap.find (codes "Connection") request.headers) [
      | none ↦ response
      | some s ↦
          if equal s (codes "keep-alive")
          then set_close_connection false response
          else if equal s (codes "close")
          then set_close_connection true response
          else response
    ]

-- They do the same to every response.
http_process_connection_lem :
    (request : HttpRequest HeaderFunc) (response : HttpResponse)
    → http_process_connection request response ≡ handle_keep_alive request response
unfolding http_process_connection handle_keep_alive get_header equal
http_process_connection_lem request response =
    elim (Option-cases (StringMap.find (codes "Connection") request.headers)) [
      | inl n ↦ rw (n, http_process_connection, handle_keep_alive, get_header) refl
      | inr (s, n) ↦ elim (Bool-cases (equal s (codes "keep-alive"))) [
        | inl k ↦
            rw
              (
                n,
                (equal_iff s (codes "keep-alive")).0 k,
                http_process_connection,
                handle_keep_alive,
                get_header,
              )
              refl
        | inr k ↦ rw (n, k, http_process_connection, handle_keep_alive, get_header) refl
      ]
    ]
